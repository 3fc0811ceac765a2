-- ===== src/Shared/Journal.antt =====
-- shared/journal.py: the double-entry journal. Balances are derived from it and stored nowhere.
pub mod Posting
use stablecoin_infrastructur.Base.{
  ℕ, String, Bool, true, false, ◌&&◌, List, ◌∷◌, Option, none, some, ◌==◌, if◌then◌else◌, sum_of,
  select,
}
use stablecoin_infrastructur.Base.Int.{ℤ, sub_ℕ, ◌-ℤ◌}
use stablecoin_infrastructur.Models.Enums.{
  CurrencyCode, usd, eur, gbp, CoaCode, omnibus_reserve, institution_liability, fx_nostro, HoldType,
  reserve, release, same_currency, same_coa, is_hold,
}
use stablecoin_infrastructur.Models.Rows.{JournalEntry, EscrowHold}
use stablecoin_infrastructur.Models.Database.{Database}
use stablecoin_infrastructur.Shared.Session.{
  World, Action, gets, modify, uuid4, pure, ok, ◌>>=◌, ◌>>◌,
}

-- One side of a posting: the account and the code that it is booked under.
abbrev pub debit_entry : ℕ → ℕ → CoaCode → CurrencyCode → ℕ → String → ℕ → JournalEntry
debit_entry journal_id account_id coa_code currency amount entry_type reference_id = record {
  journal_id = journal_id;
  account_id = account_id;
  coa_code = coa_code;
  currency = currency;
  debit = amount;
  credit = 0;
  entry_type = entry_type;
  reference_id = reference_id;
}

abbrev pub credit_entry : ℕ → ℕ → CoaCode → CurrencyCode → ℕ → String → ℕ → JournalEntry
credit_entry journal_id account_id coa_code currency amount entry_type reference_id = record {
  journal_id = journal_id;
  account_id = account_id;
  coa_code = coa_code;
  currency = currency;
  debit = 0;
  credit = amount;
  entry_type = entry_type;
  reference_id = reference_id;
}

-- The pair is added debit first, so the credit row is the newest.
abbrev pub post_pair :
    ℕ → ℕ → CoaCode → CurrencyCode → ℕ → String → ℕ → ℕ → CoaCode → Database → Database
post_pair j account_id coa_code currency amount entry_type ref counter_id counter_coa db =
    record db {
      journal_entries =
          credit_entry j counter_id counter_coa currency amount entry_type ref
          ∷ debit_entry j account_id coa_code currency amount entry_type ref
          ∷ db.journal_entries;
    }

unfoldable pub record_journal_pair :
    (account_id : ℕ) (coa_code : CoaCode) (currency : CurrencyCode) (amount : ℕ)
    (entry_type : String) (reference_id : ℕ) (counter_account_id : ℕ) (counter_coa_code : CoaCode)
    → Action ℕ
record_journal_pair account_id coa_code currency amount entry_type ref counter_id counter_coa = do
  journal_id ← uuid4
  modify (
      post_pair journal_id account_id coa_code currency amount entry_type ref counter_id
        counter_coa)
  pure journal_id

-- The set `asset_codes`; every other code counts as a liability.
unfoldable pub is_asset : CoaCode → Bool
is_asset omnibus_reserve = true
is_asset institution_liability = false
is_asset (fx_nostro usd) = true
is_asset (fx_nostro eur) = true
is_asset (fx_nostro gbp) = true
is_asset (fx_nostro _) = false

-- The WHERE clause of `get_balance`.
abbrev pub posted_to : ℕ → CurrencyCode → CoaCode → JournalEntry → Bool
posted_to account_id currency coa_code e =
    e.account_id == account_id && same_currency e.currency currency && same_coa e.coa_code coa_code

unfoldable pub debits : ℕ → CurrencyCode → CoaCode → Database → ℕ
debits a c k db = sum_of (λ e. e.debit) (select (posted_to a c k) db.journal_entries)

unfoldable pub credits : ℕ → CurrencyCode → CoaCode → Database → ℕ
credits a c k db = sum_of (λ e. e.credit) (select (posted_to a c k) db.journal_entries)

unfoldable pub get_balance : ℕ → CurrencyCode → CoaCode → Database → ℤ
get_balance a c k db =
    if is_asset k
    then sub_ℕ (debits a c k db) (credits a c k db)
    else sub_ℕ (credits a c k db) (debits a c k db)

abbrev held_by : ℕ → CurrencyCode → HoldType → EscrowHold → Bool
held_by account_id currency hold_type h =
    h.account_id == account_id && same_currency h.currency currency && is_hold h.hold_type hold_type

unfoldable pub holds : ℕ → CurrencyCode → HoldType → Database → ℕ
holds a c t db = sum_of (λ h. h.amount) (select (held_by a c t) db.escrow_holds)

-- The balance less the holds that are not released.
unfoldable pub get_available_balance : ℕ → CurrencyCode → Database → ℤ
get_available_balance a c db =
    get_balance a c institution_liability db -ℤ sub_ℕ (holds a c reserve db) (holds a c release db)

-- The advisory lock on an account and a currency; the transaction's end frees it.
abbrev pub acquire_balance_lock : ℕ → CurrencyCode → Action (Unit {0})
acquire_balance_lock a c w = (ok tt, record w { locks = (a, c) ∷ w.locks })
