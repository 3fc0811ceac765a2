-- ===== src/Payments/Outstanding/Effects.antt =====
-- What an operation does to the holds and the contracts, and that they stay matched.
use stablecoin_infrastructur.Base.{
  ℕ, ◌≡◌, ◌≤◌, ◌<◌, ◌∷◌, sym, ap, subst, ◌∙◌, true, false, arith, exists,
}
use stablecoin_infrastructur.Models.Enums.{CurrencyCode, reserve, release}
use stablecoin_infrastructur.Models.Refs.{same_ref}
use stablecoin_infrastructur.Models.Rows.{EscrowContract, EscrowHold}
use stablecoin_infrastructur.Shared.Session.{World}
use stablecoin_infrastructur.Shared.Journal.{holds}
use stablecoin_infrastructur.Payments.Outstanding.{
  is_active, outstanding, Descending, IsBacked, share, Has, Descending-le, saved, Descending-saved,
  outstanding-cons, outstanding-saved, holds-reserve, holds-release,
}

-- A hold and a contract more, for one amount.
pub record Opens (w w' : World) : Type 0 where
  pub contract : EscrowContract
  pub hold : EscrowHold
  pub held : w'.db.escrow_holds ≡ hold ∷ w.db.escrow_holds
  pub hold_type : hold.hold_type ≡ reserve
  pub account : hold.account_id ≡ contract.depositor_account_id
  pub currency : hold.currency ≡ contract.currency
  pub amount : hold.amount ≡ contract.amount
  pub saved_as : w'.db.escrow_contracts ≡ contract ∷ w.db.escrow_contracts
  pub active : is_active contract ≡ true
  pub unique :
      exists (λ r. same_ref r.contract_ref contract.contract_ref) w.db.escrow_contracts ≡ false
  pub fresh : w.next_uuid ≤ contract.id
  pub drawn : contract.id < w'.next_uuid

-- An active contract is saved with a final status, and its hold is released.
pub record Closes (e : EscrowContract) (w w' : World) : Type 0 where
  pub row : EscrowContract
  pub hold : EscrowHold
  pub held : w'.db.escrow_holds ≡ hold ∷ w.db.escrow_holds
  pub hold_type : hold.hold_type ≡ release
  pub account : hold.account_id ≡ e.depositor_account_id
  pub currency : hold.currency ≡ e.currency
  pub amount : hold.amount ≡ e.amount
  pub same_id : row.id ≡ e.id
  pub same_contract_ref : row.contract_ref ≡ e.contract_ref
  pub closed : is_active row ≡ false
  pub saved_as : w'.db.escrow_contracts ≡ saved row w.db.escrow_contracts
  pub drawn : w.next_uuid ≤ w'.next_uuid

-- What leaves holds and contracts as they are.
pub record Untouched (w w' : World) : Type 0 where
  pub held : w'.db.escrow_holds ≡ w.db.escrow_holds
  pub contracts : w'.db.escrow_contracts ≡ w.db.escrow_contracts
  pub drawn : w.next_uuid ≤ w'.next_uuid

-- What each of the three keeps, of a table whose newest contract comes first.
pub record Stable (I : World → Type 0) : Type 0 where
  pub ordered : (w : World) → I w → Descending w.next_uuid w.db.escrow_contracts
  pub opens : (w w' : World) → Opens w w' → I w → I w'
  pub closes :
      (e : EscrowContract) (w w' : World)
      → Closes e w w'
      → Has e w.db.escrow_contracts
      → is_active e ≡ true
      → I w
      → I w'
  pub untouched : (w w' : World) → Untouched w w' → I w → I w'

-- A share by its parts.
share_parts :
    (a : ℕ) (c : CurrencyCode) (b b' : ℕ) (d d' : CurrencyCode) (n n' : ℕ)
    → b ≡ b'
    → d ≡ d'
    → n ≡ n'
    → share a c b d n ≡ share a c b' d' n'
share_parts a c b b' d d' n n' p q r = cc

abbrev pub IsOrdered : World → Type 0
IsOrdered w = Descending w.next_uuid w.db.escrow_contracts

pub Opens-Descending : (w w' : World) → Opens w w' → IsOrdered w → IsOrdered w'
Opens-Descending w w' o d =
    subst (Descending w'.next_uuid) (sym o.saved_as)
      (o.drawn, Descending-le w.db.escrow_contracts o.fresh d)

pub Closes-Descending :
    (e : EscrowContract) (w w' : World) → Closes e w w' → IsOrdered w → IsOrdered w'
Closes-Descending e w w' k d = subst (Descending w'.next_uuid) (sym k.saved_as) (
    Descending-le (saved k.row w.db.escrow_contracts) k.drawn
      (Descending-saved k.row w.next_uuid w.db.escrow_contracts d))

pub Untouched-Descending : (w w' : World) → Untouched w w' → IsOrdered w → IsOrdered w'
Untouched-Descending w w' u d =
    subst (Descending w'.next_uuid) (sym u.contracts)
      (Descending-le w.db.escrow_contracts u.drawn d)

Opens-IsBacked : (w w' : World) → Opens w w' → IsBacked w → IsBacked w'
Opens-IsBacked w w' o v = record {
  backed = λ a c. omega (
    arith,
    (holds-reserve a c o.hold w.db w'.db o.held o.hold_type).0,
    (holds-reserve a c o.hold w.db w'.db o.held o.hold_type).1,
    share_parts a c o.hold.account_id o.contract.depositor_account_id o.hold.currency
        o.contract.currency o.hold.amount o.contract.amount o.account o.currency o.amount,
    ap (outstanding a c) o.saved_as
        ∙ outstanding-cons a c o.contract w.db.escrow_contracts o.active,
    v.backed a c,
  );
  drawn = Opens-Descending w w' o v.drawn;
}

Closes-IsBacked :
    (e : EscrowContract) (w w' : World)
    → Closes e w w'
    → Has e w.db.escrow_contracts
    → is_active e ≡ true
    → IsBacked w
    → IsBacked w'
Closes-IsBacked e w w' k h active v = record {
  backed = λ a c. omega (
    arith,
    (holds-release a c k.hold w.db w'.db k.held k.hold_type).0,
    (holds-release a c k.hold w.db w'.db k.held k.hold_type).1,
    share_parts a c k.hold.account_id e.depositor_account_id k.hold.currency e.currency
        k.hold.amount e.amount k.account k.currency k.amount,
    ap (outstanding a c) k.saved_as,
    outstanding-saved a c k.row e w.next_uuid w.db.escrow_contracts v.drawn h active k.same_id
        k.closed,
    v.backed a c,
  );
  drawn = Closes-Descending e w w' k v.drawn;
}

Untouched-IsBacked : (w w' : World) → Untouched w w' → IsBacked w → IsBacked w'
unfolding holds
Untouched-IsBacked w w' u v = record {
  backed = λ a c. rw (u.held, u.contracts) (v.backed a c);
  drawn = Untouched-Descending w w' u v.drawn;
}

pub IsBacked-Stable : Stable IsBacked
IsBacked-Stable = record {
  ordered = λ w v. v.drawn;
  opens = Opens-IsBacked;
  closes = Closes-IsBacked;
  untouched = Untouched-IsBacked;
}
