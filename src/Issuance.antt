-- ===== src/Issuance.antt =====
-- services/token-issuance/main.py: tokenized deposits are issued against the omnibus reserve and
-- redeemed. `issue` and `redeem` are `_issue_tokens` and `_redeem_tokens`.
pub mod Redeem
pub mod Routes
pub mod Postings
pub mod Burnings
pub mod Effects
pub mod Replay
mod Tests
use stablecoin_infrastructur.Base.{
  ℕ, String, not, ◌&&◌, ◌||◌, ◌∷◌, Option, none, some, ◌==◌, ltb, if◌then◌else◌, find, exists,
  update,
}
use stablecoin_infrastructur.Base.Int.{pos, ◌-ℤ◌, ltb_ℤ}
use stablecoin_infrastructur.Models.Enums.{
  currency_value, CurrencyCode, TxnStatus, omnibus_reserve, institution_liability,
}
use stablecoin_infrastructur.Models.Refs.{Ref, truthy, same_ref}
use stablecoin_infrastructur.Models.Events.{Event}
use stablecoin_infrastructur.Models.Rows.{
  Account, TokenIssuance, StatusHistory, Receipt, FiatReceipt,
}
use stablecoin_infrastructur.Models.Database.{Database}
use stablecoin_infrastructur.Shared.Session.{
  Action, http, invalid_operation, pure, raise, gets, or_raise, raise_if, modify, insert, uuid4,
  ◌>>=◌, ◌>>◌,
}
use stablecoin_infrastructur.Shared.Money.{Decimal, normalize}
use stablecoin_infrastructur.Shared.Journal.{record_journal_pair, get_balance, acquire_balance_lock}
use stablecoin_infrastructur.Shared.Status.{record_status, record_status_with, insert_outbox_event}
use stablecoin_infrastructur.Shared.Chain.{record_on_chain, record_fiat_rail, stamp_receipt}
use stablecoin_infrastructur.Shared.Tables.{get_account, ref_or_mint, insert_transaction}

abbrev pub omnibus_account_id : ℕ
omnibus_account_id = 1

-- The result of `_issue_tokens`: a pair for a known reference, a triple for a new one.
pub data Issued : Type 0 where
  existing : TokenIssuance → Issued
  issued : TokenIssuance → Receipt → Option FiatReceipt → Issued

-- The row of the key, if a key is given.
abbrev pub existing_issuance : Option Ref → Database → Option TokenIssuance
existing_issuance none db = none
existing_issuance (some r) db = find (λ i. same_ref i.issuance_ref r) db.token_issuances

-- The unique column and the CHECK of `token_issuances`.
abbrev insert_issuance : TokenIssuance → Action (Unit {0})
insert_issuance i w =
    insert
      (not (exists (λ j. same_ref j.issuance_ref i.issuance_ref) w.db.token_issuances)
        && ltb 0 i.amount)
      (λ db. record db { token_issuances = i ∷ db.token_issuances }) w

-- The issuance row is completed in place, by its id.
abbrev complete_issuance : ℕ → (issued_at redeemed_at : Option ℕ) → Database → Database
complete_issuance id issued_at redeemed_at db = record db {
  token_issuances =
      update (λ i. i.id == id)
        (λ i. record i {
          status = TxnStatus.completed;
          issued_at = issued_at;
          redeemed_at = redeemed_at;
        })
        db.token_issuances;
}

-- What a request carries.
pub record IssueRequest : Type 0 where
  pub account_id : ℕ
  pub currency : CurrencyCode
  pub amount : Decimal
  pub backing_ref : String
  pub custodian : Option String
  pub idempotency_key : Option Ref

pub record RedeemRequest : Type 0 where
  pub account_id : ℕ
  pub currency : CurrencyCode
  pub amount : Decimal
  pub settlement_ref : Option String
  pub idempotency_key : Option Ref

-- The account checks of `_issue_tokens`.
unfoldable pub check_cleared : Option Account → Action Account
check_cleared none = raise (http 404 "Account not found")
check_cleared (some a) =
    if not a.kyc_verified || not a.aml_cleared
    then raise (http 403 "Account not KYC/AML cleared")
    else if not a.is_active
    then raise (http 403 "Account is not active")
    else pure a

-- `_issue_tokens` from the checked request on: the rows, the receipts, the histories, the events.
unfoldable pub book_issuance : IssueRequest → ℕ → Option Ref → Account → Ref → Action Issued
unfolding record_journal_pair record_status record_status_with insert_outbox_event record_on_chain
    record_fiat_rail insert_transaction
book_issuance req amount key account issuance_ref = do
  issuance_id ← uuid4
  now ← gets (λ w. w.now)
  let issuance : TokenIssuance = record {
    id = issuance_id;
    issuance_ref = issuance_ref;
    account_id = req.account_id;
    currency = req.currency;
    amount = amount;
    backing_ref = some req.backing_ref;
    custodian = req.custodian;
    issuance_type = "initial";
    status = TxnStatus.processing;
    issued_at = none;
    redeemed_at = none;
  }
  insert_issuance issuance
  record_journal_pair omnibus_account_id omnibus_reserve req.currency amount "token_issuance"
      issuance_id account.id institution_liability
  txn_id ← uuid4
  insert_transaction (record {
    id = txn_id;
    txn_ref = issuance_ref;
    debit_account_id = omnibus_account_id;
    credit_account_id = req.account_id;
    currency = req.currency;
    amount = amount;
    txn_type = "issuance";
    status = TxnStatus.completed;
    idempotency_key = key;
    settled_at = some now;
  })
  receipt ← record_on_chain issuance_ref "token_issuance" (currency_value req.currency)
  let fiat_receipt : Option FiatReceipt =
      stamp_receipt now (record_fiat_rail issuance_ref "fedwire")
  record_status_with StatusHistory.transaction txn_id "completed" (some receipt.block_number) none
  modify (complete_issuance issuance_id (some now) none)
  record_status StatusHistory.token_issuance issuance_id "completed"
  new_balance ← gets (λ w. get_balance req.account_id req.currency institution_liability w.db)
  insert_outbox_event issuance_ref "token.issuance.completed"
      (Event.token_issuance_completed issuance_ref req.account_id req.currency amount new_balance)
  insert_outbox_event issuance_ref "token.balance.updated" (
      Event.token_balance_updated req.account_id req.currency (new_balance -ℤ pos amount)
        new_balance "issuance")
  pure (
      issued (record issuance { status = TxnStatus.completed; issued_at = some now }) receipt
        fiat_receipt)

-- `_issue_tokens` behind the idempotency guard.
unfoldable pub issue_new : IssueRequest → ℕ → Action Issued
unfolding check_cleared
issue_new req amount = do
  account ← check_cleared (← gets (λ w. get_account req.account_id w.db))
  issuance_ref ← ref_or_mint (truthy req.idempotency_key) "ISS"
  acquire_balance_lock omnibus_account_id req.currency
  omnibus_balance ← gets (λ w. get_balance omnibus_account_id req.currency omnibus_reserve w.db)
  raise_if (ltb_ℤ omnibus_balance (pos amount)) (http 422 "Insufficient reserve balance")
  book_issuance req amount req.idempotency_key account issuance_ref

abbrev or_new : Option TokenIssuance → Action Issued → Action Issued
or_new (some i) m = pure (existing i)
or_new none m = m

unfoldable pub issue : IssueRequest → Action Issued
unfolding normalize
issue req = do
  amount ← or_raise (normalize req.amount) invalid_operation
  found ← gets (λ w. existing_issuance (truthy req.idempotency_key) w.db)
  or_new found (issue_new req amount)
