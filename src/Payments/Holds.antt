-- ===== src/Payments/Holds.antt =====
-- What holds do to the available balance.
use stablecoin_infrastructur.Base.{ℕ, ◌+◌, ◌≡◌, ◌∷◌, refl, arith}
use stablecoin_infrastructur.Base.Int.{pos, ◌+ℤ◌, ◌-ℤ◌, int_laws}
use stablecoin_infrastructur.Models.Enums.{
  CurrencyCode, HoldType, reserve, release, institution_liability,
}
use stablecoin_infrastructur.Models.Rows.{EscrowHold}
use stablecoin_infrastructur.Models.Database.{Database}
use stablecoin_infrastructur.Shared.Journal.{
  get_balance, debits, credits, holds, get_available_balance,
}

module _ (db db' : Database) (a : ℕ) (c : CurrencyCode) where
  -- A balance is read off the journal.
  pub get_balance_same :
      db'.journal_entries ≡ db.journal_entries
      → get_balance a c institution_liability db' ≡ get_balance a c institution_liability db
  unfolding get_balance debits credits
  get_balance_same e = rw e refl

  -- One hold more.
  pub record Held (t : HoldType) (n : ℕ) : Type 0 where
    pub hold : EscrowHold
    pub added : db'.escrow_holds ≡ hold ∷ db.escrow_holds
    pub account : hold.account_id ≡ a
    pub currency : hold.currency ≡ c
    pub hold_type : hold.hold_type ≡ t
    pub amount : hold.amount ≡ n

  holds_reserve :
      (n : ℕ)
      → Held reserve n
      → (holds a c reserve db' ≡ n + holds a c reserve db)
        × (holds a c release db' ≡ holds a c release db)
  unfolding holds
  holds_reserve n h = rw h.added (ground (arith, h.account, h.currency, h.hold_type, h.amount))

  holds_release :
      (n : ℕ)
      → Held release n
      → (holds a c release db' ≡ n + holds a c release db)
        × (holds a c reserve db' ≡ holds a c reserve db)
  unfolding holds
  holds_release n h = rw h.added (ground (arith, h.account, h.currency, h.hold_type, h.amount))

  -- A reserve hold lowers what is available below the balance.
  pub available_reserve :
      (n : ℕ)
      → Held reserve n
      → get_available_balance a c db'
        ≡ get_available_balance a c db
          +ℤ (get_balance a c institution_liability db' -ℤ get_balance a c institution_liability db)
          -ℤ pos n
  unfolding get_available_balance
  available_reserve n h = rw ((holds_reserve n h).0, (holds_reserve n h).1) (omega int_laws)

  -- A release hold raises it.
  pub available_release :
      (n : ℕ)
      → Held release n
      → get_available_balance a c db'
        ≡ get_available_balance a c db
          +ℤ (get_balance a c institution_liability db' -ℤ get_balance a c institution_liability db)
          +ℤ pos n
  unfolding get_available_balance
  available_release n h = rw ((holds_release n h).0, (holds_release n h).1) (omega int_laws)
