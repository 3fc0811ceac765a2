-- ===== src/Fx.antt =====
-- services/fx-settlement/main.py: a currency is sold and another bought, in two legs over nostro
-- accounts.
pub mod Legs
pub mod Saved
pub mod Endings
pub mod Outcome
pub mod Rates
pub mod Routes
pub mod Worker
mod Tests
mod RateTests
use stablecoin_infrastructur.Base.{
  ℕ, String, Bool, true, false, ◌∷◌, Option, none, some, ◌==◌, if◌then◌else◌, update,
}
use stablecoin_infrastructur.Base.Int.{pos, ltb_ℤ}
use stablecoin_infrastructur.Models.Enums.{
  CurrencyCode, usd, eur, gbp, CoaCode, institution_liability, fx_nostro, TxnStatus,
  SettlementStatus, rails_value,
}
use stablecoin_infrastructur.Models.Refs.{minted}
use stablecoin_infrastructur.Models.Events.{Event}
use stablecoin_infrastructur.Models.Rows.{FxSettlement, StatusHistory}
use stablecoin_infrastructur.Models.Database.{Database}
use stablecoin_infrastructur.Shared.Session.{
  Action, ValueError, value_error, insufficient, pure, gets, raise_if, modify, uuid4,
  catch_value_error, ◌>>=◌, ◌>>◌,
}
use stablecoin_infrastructur.Shared.Journal.{record_journal_pair, get_balance, acquire_balance_lock}
use stablecoin_infrastructur.Shared.Status.{record_status, insert_outbox_event}
use stablecoin_infrastructur.Shared.Chain.{record_on_chain, record_fiat_rail, stamp_receipt}
use stablecoin_infrastructur.Shared.Tables.{insert_transaction}

-- The parameter `leg_type`.
pub data LegType : Type 0 where
  sell buy : LegType

abbrev pub leg_name : LegType → String
leg_name sell = "sell"
leg_name buy = "buy"

-- `NOSTRO_MAP`, with the account of USD for any other currency.
abbrev pub nostro : CurrencyCode → ℕ
nostro usd = 2
nostro eur = 3
nostro gbp = 4
nostro _ = 2

-- The sides of a leg: the sender pays the nostro, and the nostro pays the receiver.
abbrev pub debit_of : LegType → FxSettlement → ℕ
debit_of sell fx = fx.sending_account_id
debit_of buy fx = nostro fx.buy_currency

abbrev pub credit_of : LegType → FxSettlement → ℕ
credit_of sell fx = nostro fx.sell_currency
credit_of buy fx = fx.receiving_account_id

abbrev pub currency_of : LegType → FxSettlement → CurrencyCode
currency_of sell fx = fx.sell_currency
currency_of buy fx = fx.buy_currency

abbrev pub amount_of : LegType → FxSettlement → ℕ
amount_of sell fx = fx.sell_amount
amount_of buy fx = fx.buy_amount

abbrev pub debit_coa : LegType → CurrencyCode → CoaCode
debit_coa sell currency = institution_liability
debit_coa buy currency = fx_nostro currency

abbrev pub credit_coa : LegType → CurrencyCode → CoaCode
credit_coa sell currency = fx_nostro currency
credit_coa buy currency = institution_liability

-- `_execute_leg`: the id of the transaction.
unfoldable pub execute_leg : (debit_id credit_id : ℕ) → CurrencyCode → ℕ → LegType → Action ℕ
unfolding insert_transaction record_journal_pair record_status
execute_leg debit_id credit_id currency amount leg = do
  acquire_balance_lock debit_id currency
  available ← gets (λ w. get_balance debit_id currency (debit_coa leg currency) w.db)
  raise_if (ltb_ℤ available (pos amount)) (value_error (insufficient available amount))
  ref_id ← uuid4
  txn_id ← uuid4
  now ← gets (λ w. w.now)
  insert_transaction (record {
    id = txn_id;
    txn_ref = minted "FX" ref_id;
    debit_account_id = debit_id;
    credit_account_id = credit_id;
    currency = currency;
    amount = amount;
    txn_type = "fx_leg";
    status = TxnStatus.completed;
    idempotency_key = none;
    settled_at = some now;
  })
  record_journal_pair debit_id (debit_coa leg currency) currency amount "fx_leg" txn_id credit_id
      (credit_coa leg currency)
  record_status StatusHistory.transaction txn_id "completed"
  pure txn_id

-- The row is changed in place.
abbrev pub change : ℕ → (FxSettlement → FxSettlement) → Database → Database
change id f db = record db { fx_settlements = update (λ r. r.id == id) f db.fx_settlements }

abbrev pub set_txn : LegType → ℕ → FxSettlement → FxSettlement
set_txn sell txn_id r = record r { sell_txn_id = some txn_id }
set_txn buy txn_id r = record r { buy_txn_id = some txn_id }

abbrev pub set_status : SettlementStatus → FxSettlement → FxSettlement
set_status s r = record r { status = s }

-- A leg with its mark on the row and its event.
unfoldable pub run_leg : LegType → FxSettlement → Action ℕ
unfolding execute_leg insert_outbox_event
run_leg leg fx = do
  txn_id ←
      execute_leg (debit_of leg fx) (credit_of leg fx) (currency_of leg fx) (amount_of leg fx) leg
  modify (change fx.id (set_txn leg txn_id))
  insert_outbox_event fx.settlement_ref "fx.settlement.leg.completed" (
      Event.fx_settlement_leg_completed fx.settlement_ref (leg_name leg) txn_id (amount_of leg fx)
        (currency_of leg fx))
  pure txn_id

-- "Finalise settlement": the signature of the signing gateway, which stands in the metadata only, is
-- left out.
unfoldable pub finalise : FxSettlement → (sell_txn_id buy_txn_id : ℕ) → Action Bool
unfolding record_on_chain record_fiat_rail record_status insert_outbox_event
finalise fx sell_txn_id buy_txn_id = do
  now ← gets (λ w. w.now)
  receipt ← record_on_chain fx.settlement_ref "fx_settlement" ""
  modify (
      change fx.id (λ r. record r {
        status = SettlementStatus.settled;
        settled_at = some now;
        token_leg = some receipt;
        fiat_leg = stamp_receipt now (record_fiat_rail fx.settlement_ref (rails_value fx.rails));
      }))
  record_status StatusHistory.fx_settlement fx.id "settled"
  insert_outbox_event fx.settlement_ref "fx.settlement.completed"
      (Event.fx_settlement_completed fx.settlement_ref sell_txn_id buy_txn_id now)
  pure true

-- The body of the `try`.
unfoldable pub exchange : FxSettlement → Action Bool
exchange fx = do
  sell_txn_id ← run_leg sell fx
  buy_txn_id ← run_leg buy fx
  finalise fx sell_txn_id buy_txn_id

-- The `except ValueError`.
unfoldable pub fail : FxSettlement → ValueError → Action Bool
unfolding record_status insert_outbox_event
fail fx exc = do
  modify (change fx.id (set_status SettlementStatus.failed))
  record_status StatusHistory.fx_settlement fx.id "failed"
  insert_outbox_event fx.settlement_ref "fx.settlement.failed"
      (Event.fx_settlement_failed fx.settlement_ref)
  pure false

unfoldable pub start_exchange : FxSettlement → Action (Unit {0})
unfolding record_status
start_exchange fx = do
  modify (change fx.id (set_status SettlementStatus.processing))
  record_status StatusHistory.fx_settlement fx.id "processing"

-- `_process_fx_settlement`
unfoldable pub process_fx_settlement : FxSettlement → Action Bool
process_fx_settlement fx = do start_exchange fx; catch_value_error (exchange fx) (fail fx)
