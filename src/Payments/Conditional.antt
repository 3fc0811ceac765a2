-- ===== src/Payments/Conditional.antt =====
-- The conditional payments of services/payment-engine/main.py: creation, trigger, execution.
pub mod Execute
use stablecoin_infrastructur.Base.{
  ℕ, String, Bool, true, false, not, ◌&&◌, List, [], ◌∷◌, Option, none, some, ltb, ◌==◌,
  if◌then◌else◌, find, exists, update,
}
use stablecoin_infrastructur.Models.Enums.{CurrencyCode, TxnStatus, ConditionType, is_txn}
use stablecoin_infrastructur.Models.Refs.{Ref, truthy, same_ref}
use stablecoin_infrastructur.Models.Json.{JsonDict}
use stablecoin_infrastructur.Models.Events.{Event}
use stablecoin_infrastructur.Models.Rows.{ConditionalPayment, StatusHistory, Receipt}
use stablecoin_infrastructur.Models.Database.{Database}
use stablecoin_infrastructur.Shared.Session.{
  World, Action, Result, http, invalid_operation, pure, gets, or_raise, raise_if, modify, insert,
  uuid4, get_db_session, ◌>>=◌, ◌>>◌,
}
use stablecoin_infrastructur.Shared.Money.{Decimal, quantize_8}
use stablecoin_infrastructur.Shared.Status.{record_status, insert_outbox_event}
use stablecoin_infrastructur.Shared.Chain.{record_on_chain, record_fiat_rail, stamp_receipt}
use stablecoin_infrastructur.Shared.Tables.{get_account, require_active, ref_or_mint}
use stablecoin_infrastructur.Payments.{locked_transfer}
use stablecoin_infrastructur.Payments.Condition.{evaluate_condition}

pub record CreateConditionalPaymentRequest : Type 0 where
  pub payer_account_id : ℕ
  pub payee_account_id : ℕ
  pub currency : CurrencyCode
  pub amount : Decimal
  pub condition_type : ConditionType
  pub condition_params : JsonDict
  pub expires_at : Option ℕ
  pub idempotency_key : Option Ref

pub record TriggerRequest : Type 0 where
  pub trigger_data : JsonDict
  pub triggered_by : String

pub data TriggerResult : Type 0 where
  condition_not_satisfied : TriggerResult
  executed : (transaction_id executed_at : ℕ) → Receipt → TriggerResult

abbrev pub payment_of : Ref → Database → Option ConditionalPayment
payment_of r db = find (λ p. same_ref p.payment_ref r) db.conditional_payments

abbrev pub existing_payment : Option Ref → Database → Option ConditionalPayment
existing_payment none db = none
existing_payment (some r) db = payment_of r db

-- The unique column and the CHECK of `conditional_payments`.
abbrev insert_payment : ConditionalPayment → Action (Unit {0})
insert_payment p w =
    insert
      (not (exists (λ r. same_ref r.payment_ref p.payment_ref) w.db.conditional_payments)
        && ltb 0 p.amount)
      (λ db. record db { conditional_payments = p ∷ db.conditional_payments }) w

-- The row is changed in place.
abbrev pub change_payment : ℕ → (ConditionalPayment → ConditionalPayment) → Database → Database
change_payment id f db = record db {
  conditional_payments = update (λ r. r.id == id) f db.conditional_payments;
}

-- `create_conditional_payment` behind the idempotency guard.
unfoldable pub create_payment_new : CreateConditionalPaymentRequest → Action ConditionalPayment
unfolding require_active record_status insert_outbox_event
create_payment_new req = do
  payer ← gets (λ w. get_account req.payer_account_id w.db)
  require_active payer "Payer account not found"
  payee ← gets (λ w. get_account req.payee_account_id w.db)
  require_active payee "Payee account not found"
  amount ← or_raise (quantize_8 req.amount) invalid_operation
  ref ← ref_or_mint (truthy req.idempotency_key) "CP"
  id ← uuid4
  let cp : ConditionalPayment = record {
    id = id;
    payment_ref = ref;
    payer_account_id = req.payer_account_id;
    payee_account_id = req.payee_account_id;
    currency = req.currency;
    amount = amount;
    condition_type = req.condition_type;
    condition_params = req.condition_params;
    status = TxnStatus.pending;
    trigger_data = none;
    transaction_id = none;
    executed_at = none;
    expires_at = req.expires_at;
    token_leg = none;
    fiat_leg = none;
  }
  insert_payment cp
  record_status StatusHistory.conditional_payment id "pending"
  insert_outbox_event ref "payment.conditional.created" (
      Event.conditional_payment_created ref req.payer_account_id req.payee_account_id req.currency
        amount req.condition_type req.condition_params)
  pure cp

abbrev or_create_payment :
    Option ConditionalPayment → Action ConditionalPayment → Action ConditionalPayment
or_create_payment (some p) m = pure p
or_create_payment none m = m

-- POST /payments/conditional
unfoldable pub create_conditional_payment :
    CreateConditionalPaymentRequest → Action ConditionalPayment
unfolding get_db_session
create_conditional_payment req = get_db_session (do
  found ← gets (λ w. existing_payment (truthy req.idempotency_key) w.db)
  or_create_payment found (create_payment_new req))

-- `_execute_conditional_payment`, before the transfer.
unfoldable pub start_payment : ConditionalPayment → JsonDict → Action (Unit {0})
unfolding record_status
start_payment cp trigger_data = do
  modify (
      change_payment cp.id
        (λ r. record r { status = TxnStatus.processing; trigger_data = some trigger_data }))
  record_status StatusHistory.conditional_payment cp.id "processing"

-- And behind it.
unfoldable pub finish_payment : ConditionalPayment → (txn_id now : ℕ) → Action Receipt
unfolding record_on_chain record_fiat_rail record_status insert_outbox_event
finish_payment cp txn_id now = do
  receipt ← record_on_chain cp.payment_ref "conditional_payment" ""
  modify (
      change_payment cp.id (λ r. record r {
        status = TxnStatus.completed;
        executed_at = some now;
        transaction_id = some txn_id;
        token_leg = some receipt;
        fiat_leg = stamp_receipt now (record_fiat_rail cp.payment_ref "internal");
      }))
  record_status StatusHistory.conditional_payment cp.id "completed"
  insert_outbox_event cp.payment_ref "payment.conditional.completed"
      (Event.conditional_payment_completed cp.payment_ref txn_id now)
  pure receipt

-- `_execute_conditional_payment`
unfoldable pub execute_payment : ConditionalPayment → JsonDict → Action (ℕ × Receipt)
execute_payment cp trigger_data w =
    (do
      start_payment cp trigger_data
      txn_id ←
          locked_transfer cp.payer_account_id cp.payee_account_id cp.currency cp.amount
            "conditional_payment" false
      receipt ← finish_payment cp txn_id w.now
      pure (txn_id, receipt))
      w

abbrev lift : {A : Type 0} → Result A → Action A
lift r w = (r, w)

-- The branch of `trigger_conditional_payment` by the value of the condition.
unfoldable pub if_satisfied : Bool → ConditionalPayment → TriggerRequest → Action TriggerResult
unfolding insert_outbox_event
if_satisfied false cp req = do
  insert_outbox_event cp.payment_ref "payment.conditional.triggered"
      (Event.conditional_payment_triggered cp.payment_ref req.trigger_data req.triggered_by)
  pure condition_not_satisfied
if_satisfied true cp req = do
  done ← execute_payment cp req.trigger_data
  now ← gets (λ w. w.now)
  pure (executed done.0 now done.1)

-- POST /payments/conditional/{payment_ref}/trigger; the row's `expires_at` is not looked at.
unfoldable pub trigger_conditional_payment :
    (fromisoformat : String → Option ℕ) → Ref → TriggerRequest → Action TriggerResult
unfolding get_db_session
trigger_conditional_payment iso ref req = get_db_session (do
  found ← gets (λ w. payment_of ref w.db)
  cp ← or_raise found (http 404 "Conditional payment not found")
  raise_if (not (is_txn cp.status TxnStatus.pending)) (http 409 "Payment is not pending")
  now ← gets (λ w. w.now)
  satisfied ←
      lift (evaluate_condition iso now cp.condition_type cp.condition_params req.trigger_data)
  if_satisfied satisfied cp req)

-- GET /payments/conditional/{payment_ref}
unfoldable pub get_conditional_payment : Ref → Action ConditionalPayment
get_conditional_payment ref =
    get_db_session
      (do found ← gets (λ w. payment_of ref w.db); or_raise found (http 404 "Not found"))
