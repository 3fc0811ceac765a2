-- ===== src/Issuance/Redeem.antt =====
-- `_redeem_tokens` of services/token-issuance/main.py: tokens are burnt for fiat.
use stablecoin_infrastructur.Base.{ℕ, not, Option, none, some, if◌then◌else◌}
use stablecoin_infrastructur.Base.Int.{pos, ltb_ℤ}
use stablecoin_infrastructur.Models.Enums.{
  currency_value, TxnStatus, omnibus_reserve, institution_liability,
}
use stablecoin_infrastructur.Models.Refs.{Ref, truthy}
use stablecoin_infrastructur.Models.Events.{Event}
use stablecoin_infrastructur.Models.Rows.{Account, TokenIssuance, StatusHistory, FiatReceipt}
use stablecoin_infrastructur.Shared.Session.{
  Action, http, invalid_operation, pure, raise, gets, or_raise, raise_if, modify, uuid4, ◌>>=◌,
  ◌>>◌,
}
use stablecoin_infrastructur.Shared.Money.{normalize}
use stablecoin_infrastructur.Shared.Journal.{
  record_journal_pair, get_balance, get_available_balance, acquire_balance_lock,
}
use stablecoin_infrastructur.Shared.Status.{record_status, record_status_with, insert_outbox_event}
use stablecoin_infrastructur.Shared.Chain.{record_on_chain, record_fiat_rail, stamp_receipt}
use stablecoin_infrastructur.Shared.Tables.{get_account, ref_or_mint, insert_transaction}
use stablecoin_infrastructur.Issuance.{
  omnibus_account_id, Issued, issued, RedeemRequest, existing_issuance, insert_issuance,
  complete_issuance, or_new,
}

-- The account check of `_redeem_tokens`.
unfoldable pub check_active : Option Account → Action Account
check_active none = raise (http 404 "Account not found or inactive")
check_active (some a) =
    if not a.is_active then raise (http 404 "Account not found or inactive") else pure a

-- From the checked request on.
unfoldable pub book_redemption : RedeemRequest → ℕ → Option Ref → Account → Ref → Action Issued
unfolding record_journal_pair record_status record_status_with insert_outbox_event record_on_chain
    record_fiat_rail insert_transaction
book_redemption req amount key account redemption_ref = do
  old_balance ← gets (λ w. get_balance req.account_id req.currency institution_liability w.db)
  issuance_id ← uuid4
  now ← gets (λ w. w.now)
  let issuance : TokenIssuance = record {
    id = issuance_id;
    issuance_ref = redemption_ref;
    account_id = req.account_id;
    currency = req.currency;
    amount = amount;
    backing_ref = req.settlement_ref;
    custodian = none;
    issuance_type = "redemption";
    status = TxnStatus.processing;
    issued_at = none;
    redeemed_at = none;
  }
  insert_issuance issuance
  record_journal_pair account.id institution_liability req.currency amount "token_redemption"
      issuance_id omnibus_account_id omnibus_reserve
  txn_id ← uuid4
  insert_transaction (record {
    id = txn_id;
    txn_ref = redemption_ref;
    debit_account_id = req.account_id;
    credit_account_id = omnibus_account_id;
    currency = req.currency;
    amount = amount;
    txn_type = "redemption";
    status = TxnStatus.completed;
    idempotency_key = key;
    settled_at = some now;
  })
  receipt ← record_on_chain redemption_ref "token_redemption" (currency_value req.currency)
  let fiat_receipt : Option FiatReceipt =
      stamp_receipt now (record_fiat_rail redemption_ref "fedwire")
  record_status_with StatusHistory.transaction txn_id "completed" (some receipt.block_number) none
  modify (complete_issuance issuance_id none (some now))
  record_status StatusHistory.token_issuance issuance_id "completed"
  new_balance ← gets (λ w. get_balance req.account_id req.currency institution_liability w.db)
  insert_outbox_event redemption_ref "token.redemption.completed" (
      Event.token_redemption_completed redemption_ref req.account_id req.currency amount
        new_balance)
  insert_outbox_event redemption_ref "token.balance.updated"
      (Event.token_balance_updated req.account_id req.currency old_balance new_balance "redemption")
  pure (
      issued (record issuance { status = TxnStatus.completed; redeemed_at = some now }) receipt
        fiat_receipt)

unfoldable pub redeem_new : RedeemRequest → ℕ → Action Issued
unfolding check_active
redeem_new req amount = do
  account ← check_active (← gets (λ w. get_account req.account_id w.db))
  acquire_balance_lock req.account_id req.currency
  available ← gets (λ w. get_available_balance req.account_id req.currency w.db)
  raise_if (ltb_ℤ available (pos amount)) (http 422 "Insufficient available balance")
  redemption_ref ← ref_or_mint (truthy req.idempotency_key) "RED"
  book_redemption req amount req.idempotency_key account redemption_ref

unfoldable pub redeem : RedeemRequest → Action Issued
unfolding normalize
redeem req = do
  amount ← or_raise (normalize req.amount) invalid_operation
  found ← gets (λ w. existing_issuance (truthy req.idempotency_key) w.db)
  or_new found (redeem_new req amount)
