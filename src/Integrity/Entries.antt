-- ===== src/Integrity/Entries.antt =====
-- Checks 9 to 12 of scripts/ledger_integrity.py, on the journal.
use stablecoin_infrastructur.Base.{
  ℕ, Bool, false, not, ◌&&◌, ◌||◌, List, [], ◌∷◌, map, Option, none, some, ◌==◌, ltb, if◌then◌else◌,
  select, exists, find, sum_of, take,
}
use stablecoin_infrastructur.Base.Int.{ℤ, pos, pos_part, neg_part, sub_ℕ, ◌+ℤ◌}
use stablecoin_infrastructur.Models.Enums.{
  CurrencyCode, institution_liability, same_currency, same_coa,
}
use stablecoin_infrastructur.Models.Rows.{
  JournalEntry, TokenBalance, Transaction, TokenIssuance, RtgsSettlement, EscrowContract,
}
use stablecoin_infrastructur.Models.Database.{Database}
use stablecoin_infrastructur.Shared.Journal.{debits, credits}
use stablecoin_infrastructur.Integrity.Legacy.{
  Finding, journal_imbalance, journal_drift, orphaned_journal, replay_drift, group_by, distance,
  drifts, is_system,
}

abbrev pub same_number : ℕ → ℕ → Bool
same_number m n = m == n

abbrev group_sum : (JournalEntry → ℕ) → ℕ → Database → ℕ
group_sum side j db = sum_of side (select (λ e. e.journal_id == j) db.journal_entries)

-- HAVING ABS(SUM(debit) - SUM(credit)) > 1e-18
abbrev pub group_differs : Database → ℕ → Bool
group_differs db j =
    ltb 1 (distance (group_sum (λ e. e.debit) j db) (group_sum (λ e. e.credit) j db))

unfoldable pub check_journal_groups : Database → List Finding
check_journal_groups db = map journal_imbalance (
    select (group_differs db)
      (group_by same_number (λ (e : JournalEntry). e.journal_id) db.journal_entries))

abbrev pub Key : Type 0
Key = ℕ × CurrencyCode

abbrev pub same_pair : Key → Key → Bool
same_pair (a, c) (b, d) = a == b && same_currency c d

abbrev pub key_of : JournalEntry → Key
key_of e = (e.account_id, e.currency)

-- WHERE coa_code = 'INSTITUTION_LIABILITY'
abbrev pub is_liability : JournalEntry → Bool
is_liability e = same_coa e.coa_code institution_liability

abbrev pub token_balance : Key → Database → Option TokenBalance
token_balance k db = find (λ b. same_pair (b.account_id, b.currency) k) db.token_balances

abbrev pub drifts_from : Option TokenBalance → (credits debits : ℕ) → Bool
drifts_from none c d = false
drifts_from (some b) c d = drifts c d b.balance

abbrev pub total_drifts : Database → Key → Bool
total_drifts db k =
    not (is_system k.0)
    && drifts_from (token_balance k db) (credits k.0 k.1 institution_liability db)
        (debits k.0 k.1 institution_liability db)

unfoldable pub check_journal_totals : Database → List Finding
check_journal_totals db =
    map (λ k. journal_drift k.0 k.1)
      (select (total_drifts db)
        (group_by same_pair key_of (select is_liability db.journal_entries)))

abbrev is_known : Database → ℕ → Bool
is_known db id =
    exists (λ (t : Transaction). t.id == id) db.transactions
    || exists (λ (t : TokenIssuance). t.id == id) db.token_issuances
    || exists (λ (s : RtgsSettlement). s.id == id) db.rtgs_settlements
    || exists (λ (e : EscrowContract). e.id == id) db.escrow_contracts

-- At most twenty.
unfoldable pub check_orphaned_entries : Database → List Finding
check_orphaned_entries db = take 20 (
    map (λ (e : JournalEntry). orphaned_journal e.journal_id)
      (select (λ e. not (is_known db e.reference_id)) db.journal_entries))

-- `replay_balances`, a dict whose missing keys count as zero.
abbrev pub Balances : Type 0
Balances = List (Key × ℤ)

abbrev pub balance_in : Key → Balances → ℤ
balance_in k [] = pos 0
balance_in k ((j, n) ∷ bs) = if same_pair j k then n else balance_in k bs

unfoldable pub add_to : Key → ℤ → Balances → Balances
add_to k n [] = (k, n) ∷ []
add_to k n ((j, m) ∷ bs) =
    let rest = add_to k n bs in if same_pair j k then (j, m +ℤ n) ∷ bs else (j, m) ∷ rest

-- The loop over the entries, from the oldest on.
unfoldable pub replay : List JournalEntry → Balances → Balances
unfolding add_to
replay [] bs = bs
replay (e ∷ es) bs = replay es (add_to (key_of e) (sub_ℕ e.credit e.debit) bs)

abbrev replay_drifts : Option TokenBalance → ℤ → Bool
replay_drifts none n = false
replay_drifts (some b) n = drifts (pos_part n) (neg_part n) b.balance

abbrev pub replayed_drifts : Database → Key × ℤ → Bool
replayed_drifts db b = not (is_system b.0.0) && replay_drifts (token_balance b.0 db) b.1

unfoldable pub check_replay :
    (in_order : List JournalEntry → List JournalEntry) → Database → List Finding
unfolding replay
check_replay in_order db =
    map (λ (b : Key × ℤ). replay_drift b.0.0 b.0.1)
      (select (replayed_drifts db) (replay (in_order (select is_liability db.journal_entries)) []))
