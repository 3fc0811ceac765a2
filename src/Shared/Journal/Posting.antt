-- ===== src/Shared/Journal/Posting.antt =====
-- A posting as a change of the database, and what it does to every derived balance.
use stablecoin_infrastructur.Base.{
  ℕ, ◌+◌, String, ◌≡◌, ◌≢◌, false, inl, inr, ◌⊎◌, sym, refl, ◌∙◌, Bool-cases, arith, if◌then◌else◌,
}
use stablecoin_infrastructur.Base.Int.{ℤ, pos, ◌+ℤ◌, ◌-ℤ◌, int_laws}
use stablecoin_infrastructur.Models.Enums.{
  CurrencyCode, CoaCode, same_currency, same_coa, not_same_currency, not_same_coa,
}
use stablecoin_infrastructur.Models.Database.{Database}
use stablecoin_infrastructur.Shared.Journal.{
  post_pair, posted_to, debit_entry, is_asset, get_balance, debits, credits,
}

pub record Posting : Type 0 where
  pub debit_account : ℕ
  pub debit_coa : CoaCode
  pub credit_account : ℕ
  pub credit_coa : CoaCode
  pub currency : CurrencyCode
  pub amount : ℕ

-- The journal has grown by exactly this pair.
pub record Posted (p : Posting) (db db' : Database) : Type 0 where
  pub journal_id : ℕ
  pub entry_type : String
  pub reference_id : ℕ
  pub entries :
      db'.journal_entries
      ≡ (post_pair journal_id p.debit_account p.debit_coa p.currency p.amount entry_type
          reference_id p.credit_account p.credit_coa db).journal_entries

-- The amount, if the account and the code are those asked for.
abbrev pub share : ℕ → CurrencyCode → CoaCode → ℕ → CoaCode → CurrencyCode → ℕ → ℕ
share a c k b m d amount = if posted_to a c k (debit_entry 0 b m d amount "" 0) then amount else 0

abbrev pub debit_share : Posting → ℕ → CurrencyCode → CoaCode → ℕ
debit_share p a c k = share a c k p.debit_account p.debit_coa p.currency p.amount

abbrev pub credit_share : Posting → ℕ → CurrencyCode → CoaCode → ℕ
credit_share p a c k = share a c k p.credit_account p.credit_coa p.currency p.amount

pub share_self : (a : ℕ) (c : CurrencyCode) (k : CoaCode) (n : ℕ) → share a c k a k c n ≡ n
share_self a c k n = ground arith

-- A posting under another code, or to another account, has no share.
pub share_other_coa :
    (a : ℕ) (c : CurrencyCode) (k : CoaCode) (b : ℕ) (m : CoaCode) (d : CurrencyCode) (n : ℕ)
    → same_coa m k ≡ false
    → share a c k b m d n ≡ 0
share_other_coa a c k b m d n h = ground arith

pub share_other_account :
    (a : ℕ) (c : CurrencyCode) (k : CoaCode) (b : ℕ) (m : CoaCode) (d : CurrencyCode) (n : ℕ)
    → b ≢ a
    → share a c k b m d n ≡ 0
share_other_account a c k b m d n h = ground arith

-- The balance that a posting leaves: a liability grows by what is credited to it and falls by what
-- is debited; an asset the other way round.
abbrev pub moved : Posting → ℕ → CurrencyCode → CoaCode → ℤ → ℤ
moved p a c k balance =
    if is_asset k
    then balance +ℤ pos (debit_share p a c k) -ℤ pos (credit_share p a c k)
    else balance +ℤ pos (credit_share p a c k) -ℤ pos (debit_share p a c k)

module _ (p : Posting) (db db' : Database) (a : ℕ) (c : CurrencyCode) (k : CoaCode) where
  pub debits-Posted : Posted p db db' → debits a c k db' ≡ debit_share p a c k + debits a c k db
  unfolding debits
  debits-Posted h = rw h.entries (ground arith)

  pub credits-Posted : Posted p db db' → credits a c k db' ≡ credit_share p a c k + credits a c k db
  unfolding credits
  credits-Posted h = rw h.entries (ground arith)

  -- The balance as the entries of the pair make it.
  pub get_balance-Posted :
      Posted p db db' → get_balance a c k db' ≡ moved p a c k (get_balance a c k db)
  unfolding get_balance
  get_balance-Posted h = elim (Bool-cases (is_asset k)) [
    | inl asset ↦ rw (asset, debits-Posted h, credits-Posted h) (omega int_laws)
    | inr liability ↦ rw (liability, debits-Posted h, credits-Posted h) (omega int_laws)
  ]

-- A balance grows by what is posted to its normal side and falls by what is posted to the other.
abbrev pub grown : CoaCode → (debit credit : ℕ) → ℤ → ℤ
grown k debit credit balance =
    if is_asset k then balance +ℤ pos debit -ℤ pos credit else balance +ℤ pos credit -ℤ pos debit

-- What a posting does to the balances, told by accounts, codes and currency alone.
pub record IsTransfer (p : Posting) (db db' : Database) : Type 0 where
  pub other_currency :
      (a : ℕ) (c : CurrencyCode) (k : CoaCode)
      → c ≢ p.currency
      → get_balance a c k db' ≡ get_balance a c k db
  pub other_place :
      (a : ℕ) (c : CurrencyCode) (k : CoaCode)
      → (a ≢ p.debit_account) ⊎ (k ≢ p.debit_coa)
      → (a ≢ p.credit_account) ⊎ (k ≢ p.credit_coa)
      → get_balance a c k db' ≡ get_balance a c k db
  pub debited :
      (p.debit_account ≢ p.credit_account) ⊎ (p.debit_coa ≢ p.credit_coa)
      → get_balance p.debit_account p.currency p.debit_coa db'
        ≡ grown p.debit_coa p.amount 0 (get_balance p.debit_account p.currency p.debit_coa db)
  pub credited :
      (p.debit_account ≢ p.credit_account) ⊎ (p.debit_coa ≢ p.credit_coa)
      → get_balance p.credit_account p.currency p.credit_coa db'
        ≡ grown p.credit_coa 0 p.amount (get_balance p.credit_account p.currency p.credit_coa db)

share_other_currency :
    (a : ℕ) (c : CurrencyCode) (k : CoaCode) (b : ℕ) (m : CoaCode) (d : CurrencyCode) (n : ℕ)
    → c ≢ d
    → share a c k b m d n ≡ 0
share_other_currency a c k b m d n h =
    let differs : same_currency d c ≡ false = not_same_currency d c h in ground (arith, differs)

share_other_place :
    (a : ℕ) (c : CurrencyCode) (k : CoaCode) (b : ℕ) (m : CoaCode) (d : CurrencyCode) (n : ℕ)
    → (a ≢ b) ⊎ (k ≢ m)
    → share a c k b m d n ≡ 0
share_other_place a c k b m d n (inl h) = share_other_account a c k b m d n (λ e. h (sym e))
share_other_place a c k b m d n (inr h) = share_other_coa a c k b m d n (not_same_coa m k h)

moved_by :
    (p : Posting) (a : ℕ) (c : CurrencyCode) (k : CoaCode) (balance : ℤ) (d r : ℕ)
    → debit_share p a c k ≡ d
    → credit_share p a c k ≡ r
    → moved p a c k balance ≡ grown k d r balance
moved_by p a c k balance d r e f = rw (e, f) refl

grown_by_nothing : (k : CoaCode) (balance : ℤ) → grown k 0 0 balance ≡ balance
grown_by_nothing k balance = elim (Bool-cases (is_asset k)) [
  | inl asset ↦ rw asset (omega int_laws)
  | inr liability ↦ rw liability (omega int_laws)
]

flipped :
    (p : Posting)
    → (p.debit_account ≢ p.credit_account) ⊎ (p.debit_coa ≢ p.credit_coa)
    → (p.credit_account ≢ p.debit_account) ⊎ (p.credit_coa ≢ p.debit_coa)
flipped p (inl h) = inl (λ e. h (sym e))
flipped p (inr h) = inr (λ e. h (sym e))

-- A posting debits one balance and credits another with its amount, each by its normal side, if the
-- two differ in account or code; and no balance in another currency, or at neither of the two places,
-- changes.
pub Posted-IsTransfer : (p : Posting) (db db' : Database) → Posted p db db' → IsTransfer p db db'
Posted-IsTransfer p db db' h = record {
  other_currency = λ a c k e.
      get_balance-Posted p db db' a c k h
      ∙ moved_by p a c k (get_balance a c k db) 0 0
          (share_other_currency a c k p.debit_account p.debit_coa p.currency p.amount e)
          (share_other_currency a c k p.credit_account p.credit_coa p.currency p.amount e)
      ∙ grown_by_nothing k (get_balance a c k db);
  other_place = λ a c k e f.
      get_balance-Posted p db db' a c k h
      ∙ moved_by p a c k (get_balance a c k db) 0 0
          (share_other_place a c k p.debit_account p.debit_coa p.currency p.amount e)
          (share_other_place a c k p.credit_account p.credit_coa p.currency p.amount f)
      ∙ grown_by_nothing k (get_balance a c k db);
  debited = λ e.
      get_balance-Posted p db db' p.debit_account p.currency p.debit_coa h
      ∙ moved_by p p.debit_account p.currency p.debit_coa
          (get_balance p.debit_account p.currency p.debit_coa db) p.amount 0
          (share_self p.debit_account p.currency p.debit_coa p.amount)
          (share_other_place p.debit_account p.currency p.debit_coa p.credit_account p.credit_coa
            p.currency p.amount e);
  credited = λ e.
      get_balance-Posted p db db' p.credit_account p.currency p.credit_coa h
      ∙ moved_by p p.credit_account p.currency p.credit_coa
          (get_balance p.credit_account p.currency p.credit_coa db) 0 p.amount
          (share_other_place p.credit_account p.currency p.credit_coa p.debit_account p.debit_coa
            p.currency p.amount (flipped p e))
          (share_self p.credit_account p.currency p.credit_coa p.amount);
}
