-- ===== src/Rtgs/Stuck.antt =====
-- A settlement from an account to itself, when it heads the queue.
use stablecoin_infrastructur.Base.{◌≡◌, List, ◌∷◌, false, arith, ap, sym, subst, ◌∙◌}
use stablecoin_infrastructur.Base.Int.{pos, ltb_ℤ}
use stablecoin_infrastructur.Models.Enums.{institution_liability}
use stablecoin_infrastructur.Models.Rows.{RtgsSettlement, Transaction}
use stablecoin_infrastructur.Models.Database.{Database}
use stablecoin_infrastructur.Shared.Session.{
  catch_passes, World, err, integrity_error, get_db_session-rollback,
}
use stablecoin_infrastructur.Shared.Journal.{get_balance}
use stablecoin_infrastructur.Shared.Tables.{accepts_transaction}
use stablecoin_infrastructur.Rtgs.{
  process_one_settlement, start_processing, started, settle, give_up, transfer_balances,
}
use stablecoin_infrastructur.Rtgs.Queue.{dequeue}
use stablecoin_infrastructur.Rtgs.Worker.{process_batch, worker_cycle}
use stablecoin_infrastructur.Rtgs.Outcome.{process-catches, start-balance}

-- The CHECK of `transactions` refuses equal sides.
refuses_self :
    (t : Transaction) (db : Database)
    → t.debit_account_id ≡ t.credit_account_id
    → accepts_transaction t db ≡ false
unfolding accepts_transaction
refuses_self t db h = ground arith

settle_self :
    (s : RtgsSettlement) (v : World)
    → s.sending_account_id ≡ s.receiving_account_id
    → ltb_ℤ (get_balance s.sending_account_id s.currency institution_liability v.db) (pos s.amount)
      ≡ false
    → (settle s v).0 ≡ err integrity_error
unfolding settle transfer_balances accepts_transaction
settle_self s v same h = ground arith

process_self :
    (s : RtgsSettlement) (w : World)
    → s.sending_account_id ≡ s.receiving_account_id
    → ltb_ℤ (get_balance s.sending_account_id s.currency institution_liability w.db) (pos s.amount)
      ≡ false
    → (process_one_settlement s w).0 ≡ err integrity_error
process_self s w same h =
    let v : World = (start_processing s w).1 in
    rw (process-catches s w) (
      catch_passes (settle (started s w)) (give_up (started s w)) v
        (settle_self (started s w) v same (rw (start-balance s w) h)))

batch-raises :
    (s : RtgsSettlement) (rest : List RtgsSettlement) (w : World)
    → (process_one_settlement s w).0 ≡ err integrity_error
    → (process_batch (s ∷ rest) w).0 ≡ err integrity_error
unfolding process_batch
batch-raises s rest w h = ground arith

-- A funded settlement from an account to itself, at the head of the batch, makes the worker roll back
-- the whole batch, and the next batch is the same one: nothing behind it is ever settled.
pub worker_cycle-stuck :
    (s : RtgsSettlement) (rest : List RtgsSettlement) (w : World)
    → dequeue w.db ≡ s ∷ rest
    → s.sending_account_id ≡ s.receiving_account_id
    → ltb_ℤ (get_balance s.sending_account_id s.currency institution_liability w.db) (pos s.amount)
      ≡ false
    → ((worker_cycle w).db ≡ w.db) × (dequeue (worker_cycle w).db ≡ s ∷ rest)
worker_cycle-stuck s rest w e same h = (kept, ap dequeue kept ∙ e)
  where
    kept : (worker_cycle w).db ≡ w.db
    kept =
        unfold worker_cycle in
        get_db_session-rollback (process_batch (dequeue w.db)) w integrity_error (
          subst (λ l. (process_batch l w).0 ≡ err integrity_error) (sym e)
            (batch-raises s rest w (process_self s w same h)))
