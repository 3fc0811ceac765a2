-- ===== src/Payments/Escrow.antt =====
-- The escrow contracts of services/payment-engine/main.py: creation, release, refund, expiry.
use stablecoin_infrastructur.Base.{
  ℕ, String, true, not, ◌&&◌, List, [], ◌∷◌, Option, none, some, ltb, leb, ◌==◌, if◌then◌else◌,
  find, exists, select, update,
}
use stablecoin_infrastructur.Models.Enums.{CurrencyCode, EscrowStatus, is_escrow}
use stablecoin_infrastructur.Models.Refs.{Ref, minted, truthy, same_ref}
use stablecoin_infrastructur.Models.Json.{JsonDict}
use stablecoin_infrastructur.Models.Events.{Event}
use stablecoin_infrastructur.Models.Rows.{EscrowContract, StatusHistory, Receipt, FiatReceipt}
use stablecoin_infrastructur.Models.Database.{Database}
use stablecoin_infrastructur.Shared.Session.{
  Action, http, invalid_operation, pure, raise, gets, or_raise, raise_if, modify, insert, uuid4,
  get_db_session, ◌>>=◌, ◌>>◌,
}
use stablecoin_infrastructur.Shared.Money.{Decimal, quantize_8}
use stablecoin_infrastructur.Shared.Status.{record_status, insert_outbox_event}
use stablecoin_infrastructur.Shared.Chain.{record_on_chain, record_fiat_rail, stamp_receipt}
use stablecoin_infrastructur.Shared.Tables.{get_account, require_active}
use stablecoin_infrastructur.Payments.{locked_transfer, reserve_funds, release_hold}

pub record CreateEscrowRequest : Type 0 where
  pub depositor_account_id : ℕ
  pub beneficiary_account_id : ℕ
  pub currency : CurrencyCode
  pub amount : Decimal
  pub conditions : JsonDict
  pub expires_at : ℕ
  pub arbiter_account_id : Option ℕ
  pub idempotency_key : Option Ref

-- The two texts that the pattern of `release_to` admits.
pub data ReleaseTo : Type 0 where
  beneficiary depositor : ReleaseTo

pub record ReleaseEscrowRequest : Type 0 where
  pub release_to : ReleaseTo
  pub triggered_by : String

pub data ReleaseResult : Type 0 where
  released_to_beneficiary : (transaction_id : ℕ) → Receipt → Option FiatReceipt → ReleaseResult
  refunded_to_depositor : (amount : ℕ) → ReleaseResult

abbrev pub escrow_of : Ref → Database → Option EscrowContract
escrow_of r db = find (λ e. same_ref e.contract_ref r) db.escrow_contracts

abbrev pub existing_escrow : Option Ref → Database → Option EscrowContract
existing_escrow none db = none
existing_escrow (some r) db = escrow_of r db

-- The unique column and the CHECK of `escrow_contracts`.
abbrev insert_escrow : EscrowContract → Action (Unit {0})
insert_escrow e w =
    insert
      (not (exists (λ r. same_ref r.contract_ref e.contract_ref) w.db.escrow_contracts)
        && ltb 0 e.amount)
      (λ db. record db { escrow_contracts = e ∷ db.escrow_contracts }) w

abbrev pub save_escrow : EscrowContract → Database → Database
save_escrow e db = record db {
  escrow_contracts = update (λ r. r.id == e.id) (λ _. e) db.escrow_contracts;
}

-- `create_escrow` behind the idempotency guard: the reference is minted whether a key is given or not.
unfoldable pub create_new : CreateEscrowRequest → Action EscrowContract
unfolding require_active reserve_funds record_status insert_outbox_event
create_new req = do
  payer ← gets (λ w. get_account req.depositor_account_id w.db)
  require_active payer "Depositor account not found"
  payee ← gets (λ w. get_account req.beneficiary_account_id w.db)
  require_active payee "Beneficiary account not found"
  amount ← or_raise (quantize_8 req.amount) invalid_operation
  reserve_funds req.depositor_account_id req.currency amount
  ref_id ← uuid4
  id ← uuid4
  let escrow : EscrowContract = record {
    id = id;
    contract_ref = minted "ESC" ref_id;
    depositor_account_id = req.depositor_account_id;
    beneficiary_account_id = req.beneficiary_account_id;
    currency = req.currency;
    amount = amount;
    conditions = req.conditions;
    status = EscrowStatus.active;
    release_txn_id = none;
    arbiter_account_id = req.arbiter_account_id;
    expires_at = req.expires_at;
    released_at = none;
    release_triggered_by = none;
  }
  insert_escrow escrow
  record_status StatusHistory.escrow id "active"
  insert_outbox_event (minted "ESC" ref_id) "escrow.created" (
      Event.escrow_created (minted "ESC" ref_id) req.depositor_account_id req.beneficiary_account_id
        req.currency amount req.conditions req.expires_at)
  pure escrow

abbrev or_create : Option EscrowContract → Action EscrowContract → Action EscrowContract
or_create (some e) m = pure e
or_create none m = m

-- POST /payments/escrow
unfoldable pub create_escrow : CreateEscrowRequest → Action EscrowContract
unfolding get_db_session
create_escrow req = get_db_session (do
  found ← gets (λ w. existing_escrow (truthy req.idempotency_key) w.db)
  or_create found (create_new req))

abbrev pub expired : EscrowContract → EscrowContract
expired e = record e { status = EscrowStatus.expired }

-- `_expire_escrow`
unfoldable pub expire_escrow : EscrowContract → Action (Unit {0})
unfolding release_hold record_status insert_outbox_event
expire_escrow e = do
  release_hold e.depositor_account_id e.currency e.amount (some e.id)
  modify (save_escrow (expired e))
  record_status StatusHistory.escrow e.id "expired"
  insert_outbox_event e.contract_ref "escrow.expired"
      (Event.escrow_expired e.contract_ref e.depositor_account_id e.amount)

-- The branch of `release_escrow` that pays the beneficiary, behind the transfer.
unfoldable pub close_paid : EscrowContract → String → (txn_id now : ℕ) → Action ReleaseResult
unfolding record_status insert_outbox_event record_on_chain record_fiat_rail
close_paid e triggered_by txn_id now = do
  modify (
      save_escrow (record e {
        status = EscrowStatus.released;
        release_txn_id = some txn_id;
        released_at = some now;
        release_triggered_by = some triggered_by;
      }))
  record_status StatusHistory.escrow e.id "released"
  insert_outbox_event e.contract_ref "escrow.released" (
      Event.escrow_released e.contract_ref (some txn_id) e.beneficiary_account_id triggered_by
        e.amount)
  receipt ← record_on_chain e.contract_ref "escrow_release" ""
  pure (
      released_to_beneficiary txn_id receipt
        (stamp_receipt now (record_fiat_rail e.contract_ref "internal")))

-- The whole branch.
unfoldable pub pay_beneficiary : EscrowContract → String → Action ReleaseResult
pay_beneficiary e triggered_by w =
    (do
      txn_id ←
          locked_transfer e.depositor_account_id e.beneficiary_account_id e.currency e.amount
            "escrow_release" true
      close_paid e triggered_by txn_id w.now)
      w

-- The branch that refunds the depositor: the hold is released, no funds move.
unfoldable pub refund_depositor : EscrowContract → String → Action ReleaseResult
unfolding release_hold record_status insert_outbox_event
refund_depositor e triggered_by = do
  now ← gets (λ w. w.now)
  release_hold e.depositor_account_id e.currency e.amount (some e.id)
  modify (
      save_escrow (record e {
        status = EscrowStatus.refunded;
        released_at = some now;
        release_triggered_by = some triggered_by;
      }))
  record_status StatusHistory.escrow e.id "refunded"
  insert_outbox_event e.contract_ref "escrow.released"
      (Event.escrow_released e.contract_ref none e.depositor_account_id triggered_by e.amount)
  pure (refunded_to_depositor e.amount)

abbrev pub pay_or_refund : ReleaseTo → EscrowContract → String → Action ReleaseResult
pay_or_refund beneficiary = pay_beneficiary
pay_or_refund depositor = refund_depositor

-- `if now > escrow.expires_at: _expire_escrow(db, escrow); raise …`
unfoldable pub check_expiry : EscrowContract → Action (Unit {0})
check_expiry e w =
    if ltb e.expires_at w.now
    then (do expire_escrow e; raise (http 410 "Escrow has expired and been refunded")) w
    else pure tt w

-- POST /payments/escrow/{contract_ref}/release
unfoldable pub release_escrow : Ref → ReleaseEscrowRequest → Action ReleaseResult
unfolding get_db_session check_expiry
release_escrow ref req = get_db_session (do
  found ← gets (λ w. escrow_of ref w.db)
  e ← or_raise found (http 404 "Escrow not found")
  raise_if (not (is_escrow e.status EscrowStatus.active)) (http 409 "Escrow is not active")
  check_expiry e
  pay_or_refund req.release_to e req.triggered_by)

-- GET /payments/escrow/{contract_ref}
unfoldable pub get_escrow : Ref → Action EscrowContract
get_escrow ref =
    get_db_session
      (do found ← gets (λ w. escrow_of ref w.db); or_raise found (http 404 "Escrow not found"))

unfoldable pub expire_all : List EscrowContract → Action (Unit {0})
expire_all [] = pure tt
expire_all (e ∷ rest) = do expire_escrow e; expire_all rest

-- The part of `_check_conditions` that expires escrows.
unfoldable pub expire_due : Action (Unit {0})
expire_due = do
  due ← gets (λ w.
      select (λ e. is_escrow e.status EscrowStatus.active && leb e.expires_at w.now)
        w.db.escrow_contracts)
  expire_all due
