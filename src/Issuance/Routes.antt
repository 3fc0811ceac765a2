-- ===== src/Issuance/Routes.antt =====
-- The routes of services/token-issuance/main.py.
use stablecoin_infrastructur.Base.{
  ℕ, String, true, false, ◌&&◌, List, [], ◌∷◌, map, Option, ◌==◌, if◌then◌else◌, select, exists,
}
use stablecoin_infrastructur.Base.Int.{ℤ, ◌-ℤ◌}
use stablecoin_infrastructur.Models.Enums.{
  CurrencyCode, TxnStatus, institution_liability, same_currency, same_coa,
}
use stablecoin_infrastructur.Models.Refs.{Ref}
use stablecoin_infrastructur.Models.Rows.{TokenIssuance, JournalEntry, Receipt, FiatReceipt}
use stablecoin_infrastructur.Models.Database.{Database}
use stablecoin_infrastructur.Shared.Session.{
  Action, http, value_error, not_enough_values, pure, raise, gets, or_raise, modify, uuid4,
  get_db_session, ◌>>=◌, ◌>>◌,
}
use stablecoin_infrastructur.Shared.Journal.{get_balance, get_available_balance}
use stablecoin_infrastructur.Shared.Tables.{get_account}
use stablecoin_infrastructur.Issuance.{Issued, existing, issued, IssueRequest, RedeemRequest, issue}
use stablecoin_infrastructur.Issuance.Redeem.{redeem}

pub record IssuanceResponse : Type 0 where
  pub issuance_ref : Ref
  pub account_id : ℕ
  pub currency : CurrencyCode
  pub amount : ℕ
  pub new_balance : ℤ
  pub status : TxnStatus
  pub blockchain : Receipt
  pub fiat_leg : Option FiatReceipt

-- `issuance, receipt, fiat_receipt = …`: a pair has too few values for three names.
unfoldable pub unpack : Issued → Action (TokenIssuance × Receipt × Option FiatReceipt)
unpack (existing i) = raise (value_error not_enough_values)
unpack (issued i r f) = pure (i, r, f)

unfoldable pub respond :
    ℕ → CurrencyCode → TokenIssuance × Receipt × Option FiatReceipt → Action IssuanceResponse
respond account_id currency (issuance, receipt, fiat_receipt) = do
  new_balance ← gets (λ w. get_balance account_id currency institution_liability w.db)
  pure (record {
    issuance_ref = issuance.issuance_ref;
    account_id = account_id;
    currency = currency;
    amount = issuance.amount;
    new_balance = new_balance;
    status = issuance.status;
    blockchain = receipt;
    fiat_leg = fiat_receipt;
  })

-- The body that the two routes share: run the operation, unpack its result, answer.
unfoldable pub answer : ℕ → CurrencyCode → Action Issued → Action IssuanceResponse
unfolding get_db_session unpack respond
answer account_id currency operation =
    get_db_session
      (do result ← operation; triple ← unpack result; respond account_id currency triple)

-- POST /tokens/issue
unfoldable pub issue_tokens : IssueRequest → Action IssuanceResponse
issue_tokens req = answer req.account_id req.currency (issue req)

-- POST /tokens/redeem
unfoldable pub redeem_tokens : RedeemRequest → Action IssuanceResponse
redeem_tokens req = answer req.account_id req.currency (redeem req)

pub record TokenBalanceResponse : Type 0 where
  pub account_id : ℕ
  pub currency : CurrencyCode
  pub balance : ℤ
  pub reserved : ℤ
  pub available : ℤ

-- SELECT DISTINCT: each currency once. SQL leaves the order open; the newest posting comes last.
unfoldable pub distinct : List JournalEntry → List CurrencyCode
distinct [] = []
distinct (e ∷ es) =
    let rest = distinct es in
    if exists (λ f. same_currency f.currency e.currency) es then rest else e.currency ∷ rest

unfoldable pub balance_row : ℕ → Database → CurrencyCode → TokenBalanceResponse
balance_row account_id db currency = record {
  account_id = account_id;
  currency = currency;
  balance = get_balance account_id currency institution_liability db;
  reserved =
      get_balance account_id currency institution_liability db
      -ℤ get_available_balance account_id currency db;
  available = get_available_balance account_id currency db;
}

-- GET /tokens/balance/{account_id}
unfoldable pub get_balances : ℕ → Action (List TokenBalanceResponse)
unfolding get_db_session balance_row distinct
get_balances account_id = get_db_session (do
  or_raise (← gets (λ w. get_account account_id w.db)) (http 404 "Account not found")
  gets (λ w. map (balance_row account_id w.db) (
      distinct (
        select (λ e. e.account_id == account_id && same_coa e.coa_code institution_liability)
          w.db.journal_entries))))

-- POST /accounts: the new account is active and not cleared.
unfoldable pub create_account : String → String → Action ℕ
unfolding get_db_session
create_account entity_name account_type = get_db_session (do
  id ← uuid4
  modify (λ db. record db {
    accounts =
        (record {
          id = id;
          entity_name = entity_name;
          account_type = account_type;
          is_active = true;
          kyc_verified = false;
          aml_cleared = false;
        })
        ∷ db.accounts;
  })
  pure id)
