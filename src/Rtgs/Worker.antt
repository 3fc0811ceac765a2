-- ===== src/Rtgs/Worker.antt =====
-- One cycle of `_settlement_worker`: a batch is processed and committed, or rolled back whole.
use stablecoin_infrastructur.Base.{List, [], ◌∷◌}
use stablecoin_infrastructur.Models.Rows.{RtgsSettlement}
use stablecoin_infrastructur.Shared.Session.{World, Action, pure, get_db_session, ◌>>◌}
use stablecoin_infrastructur.Rtgs.{process_one_settlement}
use stablecoin_infrastructur.Rtgs.Queue.{dequeue}

unfoldable pub process_batch : List RtgsSettlement → Action (Unit {0})
process_batch [] = pure tt
process_batch (s ∷ rest) = do process_one_settlement s; process_batch rest

-- An exception other than a ValueError reaches the worker, which rolls back and logs it.
unfoldable pub worker_cycle : World → World
worker_cycle w = (get_db_session (process_batch (dequeue w.db)) w).1
