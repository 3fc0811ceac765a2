-- ===== src/Payments/Expiry.antt =====
-- Contracts past their time.
use stablecoin_infrastructur.Base.{◌<◌, ◌≡◌, refl, some, arith}
use stablecoin_infrastructur.Models.Enums.{EscrowStatus, release}
use stablecoin_infrastructur.Models.Refs.{Ref, minted}
use stablecoin_infrastructur.Models.Rows.{EscrowContract}
use stablecoin_infrastructur.Shared.Session.{World, err, http}
use stablecoin_infrastructur.Payments.{lower_reserved}
use stablecoin_infrastructur.Payments.Escrow.{
  ReleaseEscrowRequest, escrow_of, expired, expire_escrow, release_escrow,
}
use stablecoin_infrastructur.Payments.Release.{IsLifted, Held-IsLifted}

-- The expiry of a contract lifts its hold: no entry is written, the amount is available to the
-- depositor again, and the contract is expired.
pub expire_escrow-IsLifted :
    (e : EscrowContract) (w : World) → IsLifted e EscrowStatus.expired w.db (expire_escrow e w).1.db
unfolding expire_escrow lower_reserved
expire_escrow-IsLifted e w =
    Held-IsLifted e EscrowStatus.expired w.db (expire_escrow e w).1.db refl
      (record {
        hold = record {
          hold_ref = minted "REL" w.next_uuid;
          account_id = e.depositor_account_id;
          currency = e.currency;
          amount = e.amount;
          hold_type = release;
          related_entity_id = some e.id;
        };
        added = refl;
        account = refl;
        currency = refl;
        hold_type = refl;
        amount = refl;
      })
      (record {
        row = expired e;
        same_id = refl;
        same_contract_ref = refl;
        status = refl;
        saved = refl;
      })

-- A release that comes after the contract's time answers that the contract was refunded, and changes
-- nothing: the exception that carries the answer rolls the refund back.
pub release_escrow-late :
    (ref : Ref) (req : ReleaseEscrowRequest) (w : World) (e : EscrowContract)
    → escrow_of ref w.db ≡ some e
    → e.status ≡ EscrowStatus.active
    → e.expires_at < w.now
    → ((release_escrow ref req w).0 ≡ err (http 410 "Escrow has expired and been refunded"))
      × ((release_escrow ref req w).1.db ≡ w.db)
unfolding release_escrow expire_escrow
release_escrow-late ref req w e found active late = ground arith
