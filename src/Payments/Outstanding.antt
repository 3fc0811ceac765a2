-- ===== src/Payments/Outstanding.antt =====
-- The funds that active escrow contracts bind, next to the holds of services/payment-engine/main.py.
pub mod Effects
pub mod Routes
pub mod Checker
pub mod Due
use stablecoin_infrastructur.Base.{
  ℕ, suc, ◌+◌, ◌≡◌, ◌≢◌, ◌≤◌, ◌<◌, ◌⊎◌, inl, inr, refl, sym, ap, subst, ◌∙◌, Bool, true, false,
  List, [], ◌∷◌, ◌&&◌, ◌==◌, arith, select, sum_of, update, if◌then◌else◌,
}
use stablecoin_infrastructur.Models.Enums.{
  CurrencyCode, HoldType, reserve, release, EscrowStatus, is_escrow, same_currency,
}
use stablecoin_infrastructur.Models.Rows.{EscrowContract, EscrowHold}
use stablecoin_infrastructur.Models.Database.{Database}
use stablecoin_infrastructur.Shared.Session.{World}
use stablecoin_infrastructur.Shared.Journal.{holds}

abbrev pub is_active : EscrowContract → Bool
is_active e = is_escrow e.status EscrowStatus.active

-- An active contract of a depositor in a currency.
abbrev pub binds : ℕ → CurrencyCode → EscrowContract → Bool
binds a c e = e.depositor_account_id == a && same_currency e.currency c && is_active e

abbrev pub outstanding : ℕ → CurrencyCode → List EscrowContract → ℕ
outstanding a c es = sum_of (λ e. e.amount) (select (binds a c) es)

-- The newest contract first, each with an id below those of the newer ones.
abbrev pub Descending : ℕ → List EscrowContract → Type 0
Descending n [] = Unit {0}
Descending n (e ∷ es) = (e.id < n) × Descending e.id es

-- For each account and currency, the holds that are not released amount to the active contracts.
pub record IsBacked (w : World) : Type 0 where
  pub backed :
      (a : ℕ) (c : CurrencyCode)
      → holds a c reserve w.db ≡ holds a c release w.db + outstanding a c w.db.escrow_contracts
  pub drawn : Descending w.next_uuid w.db.escrow_contracts

-- What an amount of one account and currency counts for another.
abbrev pub share : ℕ → CurrencyCode → ℕ → CurrencyCode → ℕ → ℕ
share a c b d n = if b == a && same_currency d c then n else 0

abbrev pub Has : EscrowContract → List EscrowContract → Type 0
Has e [] = ⊥
Has e (r ∷ rs) = (r ≡ e) ⊎ Has e rs

pub Descending-le : {m n : ℕ} (es : List EscrowContract) → m ≤ n → Descending m es → Descending n es
Descending-le [] h d = tt
Descending-le (e ∷ es) h d = (omega arith, d.1)

pub Has-lt :
    {n : ℕ} (e : EscrowContract) (es : List EscrowContract) → Descending n es → Has e es → e.id < n
Has-lt e [] d h = elim h [ ]
Has-lt e (r ∷ rs) d (inl q) = rw (← q) d.0
Has-lt e (r ∷ rs) d (inr h) = omega (arith, Has-lt e rs d.1 h)

module _ (row : EscrowContract) where
  abbrev pub saved : List EscrowContract → List EscrowContract
  saved = update (λ r. r.id == row.id) (λ _. row)

  saved-id : (e : EscrowContract) → (if e.id == row.id then row else e).id ≡ e.id
  saved-id e = ground arith

  pub Descending-saved :
      (n : ℕ) (es : List EscrowContract) → Descending n es → Descending n (saved es)
  Descending-saved n [] d = tt
  Descending-saved n (e ∷ es) d =
      subst (λ m. (m < n) × Descending m (saved es)) (sym (saved-id e))
        (d.0, Descending-saved e.id es d.1)

  saved-absent : (n : ℕ) (es : List EscrowContract) → n ≤ row.id → Descending n es → saved es ≡ es
  saved-absent n [] h d = refl
  saved-absent n (e ∷ es) h d = ground (arith, saved-absent e.id es)

  pub saved-head :
      (e : EscrowContract) (es : List EscrowContract)
      → row.id ≡ e.id
      → Descending e.id es
      → saved (e ∷ es) ≡ row ∷ es
  saved-head e es h d = ground (arith, saved-absent e.id es)

  pub saved-later :
      (e : EscrowContract) (es : List EscrowContract)
      → e.id ≢ row.id
      → saved (e ∷ es) ≡ e ∷ saved es
  saved-later e es h = ground arith

  pub Has-saved :
      (e : EscrowContract) (es : List EscrowContract) → Has e es → e.id ≢ row.id → Has e (saved es)
  Has-saved e [] h q = h
  Has-saved e (r ∷ rs) (inl p) q = inl (ground arith)
  Has-saved e (r ∷ rs) (inr h) q = inr (Has-saved e rs h q)

module _ (a : ℕ) (c : CurrencyCode) where
  abbrev pub of_contract : EscrowContract → ℕ
  of_contract e = share a c e.depositor_account_id e.currency e.amount

  pub outstanding-cons :
      (e : EscrowContract) (es : List EscrowContract)
      → is_active e ≡ true
      → outstanding a c (e ∷ es) ≡ of_contract e + outstanding a c es
  outstanding-cons e es h = ground arith

  outstanding-cons_closed :
      (e : EscrowContract) (es : List EscrowContract)
      → is_active e ≡ false
      → outstanding a c (e ∷ es) ≡ outstanding a c es
  outstanding-cons_closed e es h = ground arith

  outstanding-cons_same :
      (e : EscrowContract) (es es' : List EscrowContract) (n : ℕ)
      → outstanding a c es ≡ n + outstanding a c es'
      → outstanding a c (e ∷ es) ≡ n + outstanding a c (e ∷ es')
  outstanding-cons_same e es es' n h = ground arith

  -- A contract that is saved with a final status binds nothing any more.
  pub outstanding-saved :
      (row e : EscrowContract) (n : ℕ) (es : List EscrowContract)
      → Descending n es
      → Has e es
      → is_active e ≡ true
      → row.id ≡ e.id
      → is_active row ≡ false
      → outstanding a c es ≡ of_contract e + outstanding a c (saved row es)
  outstanding-saved row e n [] d h active same closed = elim h [ ]
  outstanding-saved row e n (r ∷ rs) d (inl p) active same closed =
      let head : outstanding a c (e ∷ rs) ≡ of_contract e + outstanding a c (saved row (e ∷ rs)) =
        outstanding-cons e rs active
        ∙ ap (λ k. of_contract e + k)
            (sym (outstanding-cons_closed row rs closed)
              ∙ ap (outstanding a c)
                  (sym (saved-head row e rs same (subst (λ x. Descending x.id rs) p d.1)))) in
      subst (λ x. outstanding a c (x ∷ rs) ≡ of_contract e + outstanding a c (saved row (x ∷ rs)))
        (sym p) head
  outstanding-saved row e n (r ∷ rs) d (inr h) active same closed =
      let lower : e.id < r.id = Has-lt e rs d.1 h in
      outstanding-cons_same r rs (saved row rs) (of_contract e)
        (outstanding-saved row e r.id rs d.1 h active same closed)
      ∙ ap (λ l. of_contract e + outstanding a c l)
          (sym (saved-later row r rs (λ q. absurd (omega arith))))

  pub holds-reserve :
      (h : EscrowHold) (db db' : Database)
      → db'.escrow_holds ≡ h ∷ db.escrow_holds
      → h.hold_type ≡ reserve
      → (holds a c reserve db' ≡ share a c h.account_id h.currency h.amount + holds a c reserve db)
        × (holds a c release db' ≡ holds a c release db)
  unfolding holds
  holds-reserve h db db' added t = rw added (ground arith)

  pub holds-release :
      (h : EscrowHold) (db db' : Database)
      → db'.escrow_holds ≡ h ∷ db.escrow_holds
      → h.hold_type ≡ release
      → (holds a c release db' ≡ share a c h.account_id h.currency h.amount + holds a c release db)
        × (holds a c reserve db' ≡ holds a c reserve db)
  unfolding holds
  holds-release h db db' added t = rw added (ground arith)
