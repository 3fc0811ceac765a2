-- ===== src/Integrity.antt =====
-- scripts/ledger_integrity.py: the twelve checks and the report. The legacy table ledger_entries and
-- the order in which the database reads the journal are arguments.
pub mod Legacy
pub mod Entries
pub mod Replayed
pub mod Unwritten
mod Tests
use stablecoin_infrastructur.Base.{
  ℕ, suc, String, Bool, true, false, not, ◌&&◌, List, [], ◌∷◌, ◌++◌, if◌then◌else◌,
}
use stablecoin_infrastructur.Models.Rows.{JournalEntry}
use stablecoin_infrastructur.Models.Database.{Database}
use stablecoin_infrastructur.Integrity.Legacy.{
  LedgerEntry, Finding, check_double_entry, check_running_balances, check_reserved,
  check_orphaned_transactions, check_settlements, check_legs, check_escrows,
}
use stablecoin_infrastructur.Integrity.Entries.{
  check_journal_groups, check_journal_totals, check_orphaned_entries, check_replay,
}

-- The module's counters.
pub record Report : Type 0 where
  pub checks_ok : ℕ
  pub issues : List Finding
  pub warnings : List Finding

abbrev ok_count : List Finding → ℕ → ℕ
ok_count [] n = suc n
ok_count (x ∷ found) n = n

-- A check fails with what it finds, or is counted.
abbrev pub fail_or_ok : List Finding → Report → Report
fail_or_ok found r = record r { checks_ok = ok_count found r.checks_ok; issues = r.issues ++ found }

abbrev pub warn_or_ok : List Finding → Report → Report
warn_or_ok found r = record r {
  checks_ok = ok_count found r.checks_ok;
  warnings = r.warnings ++ found;
}

-- `run_checks`, where no balance is negative by the column's CHECK and the tables exist.
unfoldable pub run_checks :
    (in_order : List JournalEntry → List JournalEntry) → List LedgerEntry → Database → Report
run_checks in_order ledger_entries db =
    let start : Report = record { checks_ok = 0; issues = []; warnings = [] } in
    let double_entry = fail_or_ok (check_double_entry ledger_entries) start in
    let running = fail_or_ok (check_running_balances ledger_entries db) double_entry in
    let negative = fail_or_ok [] running in
    let reserved = fail_or_ok (check_reserved db) negative in
    let orphaned = warn_or_ok (check_orphaned_transactions ledger_entries db) reserved in
    let settled = fail_or_ok (check_settlements db) orphaned in
    let legs = fail_or_ok (check_legs db) settled in
    let escrows = fail_or_ok (check_escrows db) legs in
    let groups = fail_or_ok (check_journal_groups db) escrows in
    let totals = fail_or_ok (check_journal_totals db) groups in
    let entries = warn_or_ok (check_orphaned_entries db) totals in
    fail_or_ok (check_replay in_order db) entries

abbrev pub is_clean : Report → Bool
is_clean r = elim r.issues [ [] ↦ true | _ ↦ false ]

-- The exit code of `main`.
unfoldable pub exit_code : (report_only : Bool) → Report → ℕ
exit_code report_only r = if not (is_clean r) && not report_only then 1 else 0
