-- ===== src/Integrity/Replayed.antt =====
-- The chronological replay of the journal, against the balances of shared/journal.py.
use mathlib.Core.List.{foldr, Perm}
use mathlib.Core.List.Perm
use mathlib.Core.HLevel.{hedberg}
use native.Mathlib.Decide.{ℕ_discrete}
use stablecoin_infrastructur.Base.{
  ℕ, ◌+◌, ◌≡◌, refl, sym, ap, ◌∙◌, inl, inr, Bool, true, false, List, [], ◌∷◌, arith, Bool-cases,
  select, sum_of, if◌then◌else◌,
}
use stablecoin_infrastructur.Base.Int.{ℤ, pos, sub_ℕ, ◌+ℤ◌, int_laws}
use stablecoin_infrastructur.Models.Enums.{CurrencyCode, institution_liability}
use stablecoin_infrastructur.Models.Rows.{JournalEntry}
use stablecoin_infrastructur.Models.Database.{Database}
use stablecoin_infrastructur.Shared.Journal.{posted_to, is_asset, debits, credits, get_balance}
use stablecoin_infrastructur.Integrity.Entries.{
  Key, same_pair, key_of, is_liability, Balances, balance_in, add_to, replay,
}

same_pair_trans : (i j k : Key) → same_pair i j ≡ true → same_pair i k ≡ same_pair j k
same_pair_trans (a, c) (b, d) (e, f) h = ground arith

same_pair_apart :
    (i j k : Key) → same_pair i j ≡ false → same_pair i k ≡ true → same_pair j k ≡ false
same_pair_apart (a, c) (b, d) (e, f) h g = ground arith

add_zero : (n : ℤ) → pos 0 +ℤ n ≡ n
add_zero n = omega int_laws

add-balance_in :
    (k j : Key) (n : ℤ) (bs : Balances)
    → balance_in k (add_to j n bs)
      ≡ (if same_pair j k then balance_in k bs +ℤ n else balance_in k bs)
unfolding add_to
add-balance_in k j n [] = elim (Bool-cases (same_pair j k)) [
  | inl e ↦ rw e (sym (add_zero n))
  | inr e ↦ rw e
]
add-balance_in k j n ((i, m) ∷ bs) = elim (Bool-cases (same_pair i j)) [
  | inl e ↦ elim (Bool-cases (same_pair i k)) [
    | inl f ↦ let g = sym (same_pair_trans i j k e) ∙ f in rw (e, f, g)
    | inr f ↦ let g = sym (same_pair_trans i j k e) ∙ f in rw (e, f, g)
  ]
  | inr e ↦ elim (Bool-cases (same_pair i k)) [
    | inl f ↦ rw (e, f, same_pair_apart i j k e f)
    | inr f ↦ rw (e, f) (add-balance_in k j n bs)
  ]
]

-- The entries of one account and currency.
abbrev of_key : Key → (JournalEntry → ℕ) → List JournalEntry → ℕ
of_key k side es = sum_of side (select (λ e. same_pair (key_of e) k) es)

replay-balance_in :
    (k : Key) (es : List JournalEntry) (bs : Balances)
    → balance_in k (replay es bs)
      ≡ balance_in k bs +ℤ sub_ℕ (of_key k (λ e. e.credit) es) (of_key k (λ e. e.debit) es)
unfolding replay
replay-balance_in k [] bs = omega int_laws
replay-balance_in k (e ∷ es) bs =
    let rest = replay-balance_in k es (add_to (key_of e) (sub_ℕ e.credit e.debit) bs) in
    let added = add-balance_in k (key_of e) (sub_ℕ e.credit e.debit) bs in
    elim (Bool-cases (same_pair (key_of e) k)) [
      | inl same ↦ rest ∙ rw (added, same) (omega int_laws)
      | inr other ↦ rest ∙ rw (added, other) refl
    ]

-- A sum does not depend on the order of the rows.
sum_of-perm :
    (side : JournalEntry → ℕ) (wanted : JournalEntry → Bool) {es es' : List JournalEntry}
    → Perm es es'
    → sum_of side (select wanted es) ≡ sum_of side (select wanted es')
sum_of-perm side wanted {es} {es'} p =
    sum_of-foldr es
    ∙ Perm.foldr-eq (hedberg ℕ_discrete) add (λ d e n. ground arith) p 0
    ∙ sym (sum_of-foldr es')
  where
    add : JournalEntry → ℕ → ℕ
    add e n = if wanted e then side e + n else n

    sum_of-foldr : (rows : List JournalEntry) → sum_of side (select wanted rows) ≡ foldr add 0 rows
    sum_of-foldr [] = refl
    sum_of-foldr (e ∷ rows) = elim (Bool-cases (wanted e)) [
      | inl h ↦ rw h (ap (λ n. side e + n) (sum_of-foldr rows))
      | inr h ↦ rw h (sum_of-foldr rows)
    ]

-- The liability entries of one account and currency are what a balance sums up.
select-posted_to :
    (a : ℕ) (c : CurrencyCode) (side : JournalEntry → ℕ) (es : List JournalEntry)
    → of_key (a, c) side (select is_liability es)
      ≡ sum_of side (select (posted_to a c institution_liability) es)
select-posted_to a c side [] = refl
select-posted_to a c side (e ∷ es) = ground (arith, select-posted_to a c side es)

-- Whatever the order in which the database gives the entries, the replay of check 12 ends, for every
-- account and currency, with the balance that the services derive from the journal.
pub replay-get_balance :
    (in_order : List JournalEntry → List JournalEntry) (a : ℕ) (c : CurrencyCode) (db : Database)
    → ((es : List JournalEntry) → Perm (in_order es) es)
    → balance_in (a, c) (replay (in_order (select is_liability db.journal_entries)) [])
      ≡ get_balance a c institution_liability db
unfolding get_balance debits credits is_asset
replay-get_balance in_order a c db permutes =
    let es = select is_liability db.journal_entries in
    replay-balance_in (a, c) (in_order es) []
    ∙ add_zero _
    ∙ rw (
      sum_of-perm (λ e. e.credit) (λ e. same_pair (key_of e) (a, c)) (permutes es),
      sum_of-perm (λ e. e.debit) (λ e. same_pair (key_of e) (a, c)) (permutes es),
      select-posted_to a c (λ e. e.credit) db.journal_entries,
      select-posted_to a c (λ e. e.debit) db.journal_entries,
    )
