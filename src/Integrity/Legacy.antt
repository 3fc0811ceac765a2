-- ===== src/Integrity/Legacy.antt =====
-- Checks 1 to 8 of scripts/ledger_integrity.py. Amounts are in units of 10^-18, so that the tolerance
-- of 10^-8 is 10^10 units.
use stablecoin_infrastructur.Base.{
  ℕ, ◌+◌, ◌-◌, ◌^◌, String, Bool, true, false, not, ◌&&◌, ◌||◌, List, [], ◌∷◌, map, Option, none,
  some, ◌==◌, ltb, str_eq, if◌then◌else◌, select, exists, sum_of,
}
use stablecoin_infrastructur.Models.Enums.{
  CurrencyCode, TxnStatus, SettlementStatus, is_txn, is_settlement, same_currency,
}
use stablecoin_infrastructur.Models.Refs.{Ref, same_ref}
use stablecoin_infrastructur.Models.Rows.{Transaction, RtgsSettlement, FxSettlement, TokenBalance}
use stablecoin_infrastructur.Models.Database.{Database}
use stablecoin_infrastructur.Payments.Outstanding.{outstanding}

-- A row of `ledger_entries`.
pub record LedgerEntry : Type 0 where
  pub txn_ref : Ref
  pub entry_type : String
  pub account_id : ℕ
  pub currency : CurrencyCode
  pub amount : ℕ

-- What a check reports.
pub data Finding : Type 0 where
  imbalance settled_without_txn fx_missing_leg orphaned_txn : Ref → Finding
  balance_drift over_reserved escrow_exceeds_reserved journal_drift replay_drift :
      (account_id : ℕ) → CurrencyCode → Finding
  journal_imbalance orphaned_journal : (journal_id : ℕ) → Finding

-- `GROUP BY`: the keys of the rows, each once.
abbrev pub group_by {ℓ κ} : {A : Type ℓ} {K : Type κ} → (K → K → Bool) → (A → K) → List A → List K
group_by same key [] = []
group_by same key (x ∷ xs) =
    let rest = group_by same key xs in if exists (same (key x)) rest then rest else key x ∷ rest

-- `abs(a - b)`
abbrev pub distance : ℕ → ℕ → ℕ
distance a b = a - b + (b - a)

abbrev pub tolerance : ℕ
tolerance = 10 ^ 10

-- `str(account_id).startswith("00000000-0000-0000-0000")`: all but the last twelve digits are zero.
abbrev pub is_system : ℕ → Bool
is_system account_id = ltb account_id (16 ^ 12)

unfoldable pub check_double_entry : List LedgerEntry → List Finding
check_double_entry rows =
    let side = λ (t : String) (r : Ref).
      sum_of (λ (e : LedgerEntry). e.amount)
        (select (λ e. same_ref e.txn_ref r && str_eq e.entry_type t) rows) in
    map imbalance (
      select (λ r. ltb tolerance (distance (side "debit" r) (side "credit" r)))
        (group_by same_ref (λ (e : LedgerEntry). e.txn_ref) rows))

-- abs((credits - debits) - recorded), without negative numbers.
abbrev pub drifts : (credits debits recorded : ℕ) → Bool
drifts credits debits recorded = ltb tolerance (distance credits (debits + recorded))

unfoldable pub check_running_balances : List LedgerEntry → Database → List Finding
check_running_balances rows db =
    let side = λ (t : String) (b : TokenBalance).
      sum_of (λ (e : LedgerEntry). e.amount)
        (select
          (λ e.
            e.account_id == b.account_id
            && same_currency e.currency b.currency
            && str_eq e.entry_type t)
          rows) in
    map (λ (b : TokenBalance). balance_drift b.account_id b.currency)
      (select
        (λ b. not (is_system b.account_id) && drifts (side "credit" b) (side "debit" b) b.balance)
        db.token_balances)

unfoldable pub check_reserved : Database → List Finding
check_reserved db =
    map (λ (b : TokenBalance). over_reserved b.account_id b.currency)
      (select (λ b. ltb b.balance b.reserved) db.token_balances)

unfoldable pub check_orphaned_transactions : List LedgerEntry → Database → List Finding
check_orphaned_transactions rows db =
    map (λ (t : Transaction). orphaned_txn t.txn_ref)
      (select
        (λ t.
          is_txn t.status TxnStatus.completed
          && not (exists (λ (e : LedgerEntry). same_ref e.txn_ref t.txn_ref) rows))
        db.transactions)

abbrev is_null : Option ℕ → Bool
is_null none = true
is_null (some n) = false

unfoldable pub check_settlements : Database → List Finding
check_settlements db =
    map (λ (s : RtgsSettlement). settled_without_txn s.settlement_ref)
      (select (λ s. is_settlement s.status SettlementStatus.settled && is_null s.transaction_id)
        db.rtgs_settlements)

unfoldable pub check_legs : Database → List Finding
check_legs db =
    map (λ (s : FxSettlement). fx_missing_leg s.settlement_ref)
      (select
        (λ s.
          is_settlement s.status SettlementStatus.settled
          && (is_null s.sell_txn_id || is_null s.buy_txn_id))
        db.fx_settlements)

-- The join with `token_balances`, which has one row for an account and a currency.
unfoldable pub check_escrows : Database → List Finding
check_escrows db =
    map (λ (b : TokenBalance). escrow_exceeds_reserved b.account_id b.currency)
      (select
        (λ b.
          ltb (b.reserved + tolerance) (outstanding b.account_id b.currency db.escrow_contracts))
        db.token_balances)
