-- ===== src/Ledger.antt =====
-- The journal under all the services: the totals of its two columns.
pub mod Exchanges
pub mod Conditionals
pub mod Services
pub mod Escrows
mod Tests
use stablecoin_infrastructur.Base.{
  ℕ, ◌+◌, ◌≡◌, ◌∷◌, Bool, inl, inr, refl, Option, none, some, subst, sym, ap, ◌∙◌, select, sum_of,
  arith,
}
use stablecoin_infrastructur.Models.Enums.{CurrencyCode, same_currency}
use stablecoin_infrastructur.Models.Rows.{JournalEntry}
use stablecoin_infrastructur.Models.Database.{Database}
use stablecoin_infrastructur.Shared.Session.{
  World, Action, Result, ok, err, Error, or_raise, get_db_session, get_db_session-rollback,
  get_db_session-commit, bind_returned, bind_err, Result-cases, ◌>>=◌,
}
use stablecoin_infrastructur.Shared.Journal.Posting.{Posting, Posted}

-- A total over the entries whose journal id and currency are wanted.
abbrev pub total : (JournalEntry → ℕ) → (ℕ → CurrencyCode → Bool) → Database → ℕ
total side wanted db = sum_of side (select (λ e. wanted e.journal_id e.currency) db.journal_entries)

-- In every currency, and under every journal id, what has been debited since `o` has been credited.
unfoldable pub IsBalanced : (o db : Database) → Type 0
IsBalanced o db =
    (wanted : ℕ → CurrencyCode → Bool)
    → total (λ e. e.debit) wanted db + total (λ e. e.credit) wanted o
      ≡ total (λ e. e.credit) wanted db + total (λ e. e.debit) wanted o

pub IsBalanced-start : (db : Database) → IsBalanced db db
unfolding IsBalanced
IsBalanced-start db wanted = omega arith

-- What returns from a database that is balanced since `o` leaves such a one.
abbrev pub Preserves : {A : Type 0} → Database → Action A → Type 0
Preserves {A} o m =
    (w : World) (a : A) → (m w).0 ≡ ok a → IsBalanced o w.db → IsBalanced o (m w).1.db

module _ (o : Database) where
  pub IsBalanced-Posted :
      (p : Posting) (db db' : Database) → Posted p db db' → IsBalanced o db → IsBalanced o db'
  unfolding IsBalanced
  IsBalanced-Posted p db db' posted h wanted = rw posted.entries (ground (arith, h wanted))

  pub IsBalanced-same :
      (db db' : Database)
      → db'.journal_entries ≡ db.journal_entries
      → IsBalanced o db
      → IsBalanced o db'
  unfolding IsBalanced
  IsBalanced-same db db' same h wanted = rw same (h wanted)

  pub bind-Preserves :
      {A B : Type 0} (m : Action A) (k : A → Action B)
      → Preserves o m
      → ((a : A) → Preserves o (k a))
      → Preserves o (m >>= k)
  bind-Preserves m k pm pk w b h balanced = elim (Result-cases (m w).0) [
    | inl (a, returned) ↦
        let same : (m >>= k) w ≡ k a (m w).1 = bind_returned m k w a returned in
        subst (λ r. IsBalanced o r.1.db) (sym same)
          (pk a (m w).1 b (ap (λ r. r.0) (sym same) ∙ h) (pm w a returned balanced))
    | inr (e, raised) ↦ absurd (cc (h, bind_err m k w e raised))
  ]

  -- A session rolls back what does not return.
  pub session-IsBalanced :
      {A : Type 0} (m : Action A) (w : World)
      → Preserves o m
      → IsBalanced o w.db
      → IsBalanced o (get_db_session m w).1.db
  session-IsBalanced m w pm balanced = elim (Result-cases (m w).0) [
    | inl (a, returned) ↦
        subst (IsBalanced o) (sym (get_db_session-commit m w a returned)) (pm w a returned balanced)
    | inr (e, raised) ↦ subst (IsBalanced o) (sym (get_db_session-rollback m w e raised)) balanced
  ]

-- What writes no entry, whether it returns or raises.
abbrev pub Unposted : {A : Type 0} → Action A → Type 0
Unposted {A} m = (w : World) → (m w).1.db.journal_entries ≡ w.db.journal_entries
