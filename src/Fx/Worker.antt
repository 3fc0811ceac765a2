-- ===== src/Fx/Worker.antt =====
-- `_fx_settlement_worker` of services/fx-settlement/main.py: queued settlements in the order of their
-- creation, five at a time.
use stablecoin_infrastructur.Base.{List, [], ◌∷◌, leb, if◌then◌else◌, select, take}
use stablecoin_infrastructur.Models.Enums.{SettlementStatus, is_settlement}
use stablecoin_infrastructur.Models.Rows.{FxSettlement}
use stablecoin_infrastructur.Models.Database.{Database}
use stablecoin_infrastructur.Shared.Session.{World, Action, pure, get_db_session, ◌>>◌}
use stablecoin_infrastructur.Fx.{process_fx_settlement}

-- ORDER BY created_at ASC
unfoldable pub insert_oldest : FxSettlement → List FxSettlement → List FxSettlement
insert_oldest s [] = s ∷ []
insert_oldest s (t ∷ ts) =
    let rest = insert_oldest s ts in if leb s.created_at t.created_at then s ∷ t ∷ ts else t ∷ rest

unfoldable pub oldest_first : List FxSettlement → List FxSettlement
unfolding insert_oldest
oldest_first [] = []
oldest_first (s ∷ ss) = insert_oldest s (oldest_first ss)

unfoldable pub queued : Database → List FxSettlement
unfolding oldest_first
queued db =
    take 5 (
      oldest_first (select (λ s. is_settlement s.status SettlementStatus.queued) db.fx_settlements))

-- What `_process_fx_settlement` returns is not looked at.
unfoldable pub process_all : List FxSettlement → Action (Unit {0})
process_all [] = pure tt
process_all (s ∷ rest) = process_fx_settlement s >> process_all rest

-- A cycle commits, or is rolled back by any exception but a ValueError.
unfoldable pub fx_worker_cycle : World → World
fx_worker_cycle w = (get_db_session (process_all (queued w.db)) w).1
