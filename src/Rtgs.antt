-- ===== src/Rtgs.antt =====
-- services/rtgs/main.py: gross settlements are submitted, approved, signed, and settled one by one by
-- a background worker.
pub mod Routes
pub mod Queue
pub mod Worker
pub mod Outcome
pub mod Stuck
pub mod FourEyes
mod Tests
use stablecoin_infrastructur.Base.{
  ℕ, ◌+◌, String, Bool, true, false, not, ◌&&◌, ◌∷◌, Option, none, some, ◌==◌, ltb, if◌then◌else◌,
  find, exists, update,
}
use stablecoin_infrastructur.Base.Int.{ℤ, pos, ltb_ℤ}
use stablecoin_infrastructur.Models.Enums.{SettlementStatus, institution_liability}
use stablecoin_infrastructur.Models.Enums.{TxnStatus}
use stablecoin_infrastructur.Models.Refs.{Ref, same_ref}
use stablecoin_infrastructur.Models.Events.{Event}
use stablecoin_infrastructur.Models.Rows.{RtgsSettlement, StatusHistory, FiatReceipt}
use stablecoin_infrastructur.Models.Database.{Database}
use stablecoin_infrastructur.Shared.Session.{
  catch_value_error, World, Action, Result, ok, err, Error, ValueError, insufficient,
  not_enough_values, value_error, pure, gets, raise_if, modify, uuid4, ◌>>=◌, ◌>>◌,
}
use stablecoin_infrastructur.Shared.Journal.{record_journal_pair, get_balance, acquire_balance_lock}
use stablecoin_infrastructur.Shared.Status.{record_status, insert_outbox_event}
use stablecoin_infrastructur.Shared.Chain.{record_on_chain, record_fiat_rail, stamp_receipt}
use stablecoin_infrastructur.Shared.Tables.{insert_transaction}

abbrev pub max_retry : ℕ
max_retry = 3

-- The row is written back under its id.
abbrev pub save : RtgsSettlement → Database → Database
save s db = record db { rtgs_settlements = update (λ r. r.id == s.id) (λ _. s) db.rtgs_settlements }

-- `_transfer_balances`: the id of the transaction.
unfoldable pub transfer_balances : RtgsSettlement → Action ℕ
unfolding record_journal_pair insert_transaction
transfer_balances s = do
  acquire_balance_lock s.sending_account_id s.currency
  available ← gets (λ w. get_balance s.sending_account_id s.currency institution_liability w.db)
  raise_if (ltb_ℤ available (pos s.amount)) (value_error (insufficient available s.amount))
  record_journal_pair s.sending_account_id institution_liability s.currency s.amount
      "rtgs_settlement" s.id s.receiving_account_id institution_liability
  txn_id ← uuid4
  now ← gets (λ w. w.now)
  insert_transaction (record {
    id = txn_id;
    txn_ref = s.settlement_ref;
    debit_account_id = s.sending_account_id;
    credit_account_id = s.receiving_account_id;
    currency = s.currency;
    amount = s.amount;
    txn_type = "rtgs_settlement";
    status = TxnStatus.completed;
    idempotency_key = none;
    settled_at = some now;
  })
  pure txn_id

-- The body of the `try` in `_process_one_settlement`.
unfoldable pub settle : RtgsSettlement → Action Bool
unfolding record_status insert_outbox_event record_on_chain record_fiat_rail
settle s = do
  txn_id ← transfer_balances s
  now ← gets (λ w. w.now)
  receipt ← record_on_chain s.settlement_ref "rtgs_settlement" ""
  let fiat_receipt : Option FiatReceipt =
      stamp_receipt now (record_fiat_rail s.settlement_ref "fedwire")
  modify (
      save (record s {
        status = SettlementStatus.settled;
        settled_at = some now;
        transaction_id = some txn_id;
        token_leg = some receipt;
        fiat_leg = fiat_receipt;
      }))
  record_status StatusHistory.rtgs_settlement s.id "settled"
  insert_outbox_event s.settlement_ref "rtgs.settlement.completed" (
      Event.rtgs_settlement_completed s.settlement_ref s.sending_account_id s.receiving_account_id
        s.currency s.amount txn_id now)
  pure true

-- `"Insufficient" in str(exc)`
abbrev pub mentions_insufficient : ValueError → Bool
mentions_insufficient (insufficient available required) = true
mentions_insufficient _ = false

-- The `except ValueError`: back to SIGNED for another try, or FAILED.
unfoldable pub give_up : RtgsSettlement → ValueError → Action Bool
unfolding record_status insert_outbox_event
give_up s exc =
    if ltb (s.retry_count + 1) max_retry && not (mentions_insufficient exc)
    then (do
      modify (save (record s { retry_count = s.retry_count + 1; status = SettlementStatus.signed }))
      record_status StatusHistory.rtgs_settlement s.id "signed"
      pure false)
    else (do
      modify (save (record s { retry_count = s.retry_count + 1; status = SettlementStatus.failed }))
      record_status StatusHistory.rtgs_settlement s.id "failed"
      insert_outbox_event s.settlement_ref "rtgs.settlement.failed"
          (Event.rtgs_settlement_failed s.settlement_ref (s.retry_count + 1))
      pure false)

-- The row as the processing starts.
abbrev pub started : RtgsSettlement → World → RtgsSettlement
started s w = record s { status = SettlementStatus.processing; processing_started = some w.now }

unfoldable pub start_processing : RtgsSettlement → Action (Unit {0})
unfolding record_status insert_outbox_event
start_processing s w =
    (do
      modify (save (started s w))
      record_status StatusHistory.rtgs_settlement s.id "processing"
      insert_outbox_event s.settlement_ref "rtgs.settlement.processing"
          (Event.rtgs_settlement_processing s.settlement_ref w.now))
      w

-- `_process_one_settlement`
unfoldable pub process_one_settlement : RtgsSettlement → Action Bool
process_one_settlement s w =
    (do start_processing s; catch_value_error (settle (started s w)) (give_up (started s w))) w
