-- ===== src/Payments/Outstanding/Routes.antt =====
-- The routes of escrow contracts open and close contracts.
use stablecoin_infrastructur.Base.{
  ℕ, suc, String, ◌≡◌, ◌≤◌, inl, inr, ◌∷◌, [], refl, ap, false, Option, some, none, arith,
  Option-cases, Bool-cases, find, List,
}
use stablecoin_infrastructur.Models.Enums.{EscrowStatus, reserve, release}
use stablecoin_infrastructur.Models.Refs.{Ref, minted, truthy, same_ref}
use stablecoin_infrastructur.Models.Rows.{EscrowContract, EscrowHold}
use stablecoin_infrastructur.Models.Database.{Database}
use stablecoin_infrastructur.Shared.Session.{World, ok, Result-cases}
use stablecoin_infrastructur.Shared.Money.{quantize_8}
use stablecoin_infrastructur.Payments.{lower_reserved, locked_transfer}
use stablecoin_infrastructur.Payments.Escrow.{
  CreateEscrowRequest, existing_escrow, create_new, create_escrow, ReleaseTo, beneficiary,
  depositor, ReleaseEscrowRequest, ReleaseResult, escrow_of, expired, expire_escrow, close_paid,
  pay_beneficiary, refund_depositor, pay_or_refund, release_escrow,
}
use stablecoin_infrastructur.Payments.Reserve.{create_escrow-known, create_escrow-err}
use stablecoin_infrastructur.Payments.Transfer.{transferred}
use stablecoin_infrastructur.Payments.Release.{
  pay-paid, release_escrow-branch, release_escrow-err, release_escrow-unknown,
}
use stablecoin_infrastructur.Payments.Outstanding.{is_active, Has, saved}
use stablecoin_infrastructur.Payments.Outstanding.Effects.{Opens, Closes, Untouched, Stable}

-- A world with the same database, whose counter is not behind.
pub same-Untouched : (v w : World) → w.db ≡ v.db → v.next_uuid ≤ w.next_uuid → Untouched v w
same-Untouched v w same later = record {
  held = ap (λ (d : Database). d.escrow_holds) same;
  contracts = ap (λ (d : Database). d.escrow_contracts) same;
  drawn = later;
}

module _ (req : CreateEscrowRequest) (w : World) where
  create_new-Opens :
      (e : EscrowContract) → (create_new req w).0 ≡ ok e → Opens w (create_new req w).1
  unfolding create_new
  create_new-Opens e h = elim (Option-cases (quantize_8 req.amount)) [
    | inl refused ↦ absurd (ground arith)
    | inr (n, en) ↦ record {
      contract = e;
      hold = record {
        hold_ref = minted "HOLD" w.next_uuid;
        account_id = req.depositor_account_id;
        currency = req.currency;
        amount = n;
        hold_type = reserve;
        related_entity_id = none;
      };
      held = ground arith;
      hold_type = refl;
      account = ground arith;
      currency = ground arith;
      amount = ground arith;
      saved_as = ground arith;
      active = ground arith;
      unique = ground arith;
      fresh = ground arith;
      drawn = ground arith;
    }
  ]

  create_escrow-grows : w.next_uuid ≤ (create_escrow req w).1.next_uuid
  unfolding create_escrow create_new
  create_escrow-grows = ground arith

  create_escrow-next :
      (e : EscrowContract)
      → existing_escrow (truthy req.idempotency_key) w.db ≡ none
      → (create_escrow req w).0 ≡ ok e
      → ((create_new req w).0 ≡ ok e)
        × ((create_escrow req w).1.db ≡ (create_new req w).1.db)
        × ((create_escrow req w).1.next_uuid ≡ (create_new req w).1.next_uuid)
  unfolding create_escrow
  create_escrow-next e fresh h = (ground arith, ground arith, ground arith)

pub create_escrow-Stable :
    {I : World → Type 0}
    → (s : Stable I) (req : CreateEscrowRequest) (w : World) → I w
    → I (create_escrow req w).1
create_escrow-Stable s req w v =
    let w' = (create_escrow req w).1 in
    elim (Option-cases (existing_escrow (truthy req.idempotency_key) w.db)) [
      | inr (e, known) ↦
          s.untouched w w'
            (same-Untouched w w' (create_escrow-known req w e known) (create_escrow-grows req w)) v
      | inl fresh ↦ elim (Result-cases (create_escrow req w).0) [
        | inl (e, returned) ↦
            let (new, same, counter) = create_escrow-next req w e fresh returned in
            let u = (create_new req w).1 in
            s.untouched u w' (same-Untouched u w' same (omega (arith, counter)))
              (s.opens w u (create_new-Opens req w e new) v)
        | inr (x, raised) ↦
            s.untouched w w'
              (same-Untouched w w' (create_escrow-err req w x raised) (create_escrow-grows req w)) v
      ]
    ]

-- What is found is there.
find-Has :
    (ref : Ref) (e : EscrowContract) (es : List EscrowContract)
    → find (λ r. same_ref r.contract_ref ref) es ≡ some e
    → Has e es
find-Has ref e [] h = absurd (ground arith)
find-Has ref e (r ∷ rs) h = elim (Bool-cases (same_ref r.contract_ref ref)) [
  | inl same ↦ inl (ground arith)
  | inr other ↦ inr (find-Has ref e rs (ground arith))
]

-- The hold that is written when a contract ends.
abbrev release_of : EscrowContract → (hold_id : ℕ) → Option ℕ → EscrowHold
release_of e hold_id related_entity_id = record {
  hold_ref = minted "REL" hold_id;
  account_id = e.depositor_account_id;
  currency = e.currency;
  amount = e.amount;
  hold_type = release;
  related_entity_id = related_entity_id;
}

closing :
    (e row : EscrowContract) (hold_id : ℕ) (related : Option ℕ) (w w' : World)
    → w'.db.escrow_holds ≡ release_of e hold_id related ∷ w.db.escrow_holds
    → w'.db.escrow_contracts ≡ saved row w.db.escrow_contracts
    → row.id ≡ e.id
    → row.contract_ref ≡ e.contract_ref
    → is_active row ≡ false
    → w.next_uuid ≤ w'.next_uuid
    → Closes e w w'
closing e row hold_id related w w' held saved_as same_id same_contract_ref closed drawn = record {
  row = row;
  hold = release_of e hold_id related;
  held = held;
  hold_type = refl;
  account = refl;
  currency = refl;
  amount = refl;
  same_id = same_id;
  same_contract_ref = same_contract_ref;
  closed = closed;
  saved_as = saved_as;
  drawn = drawn;
}

module _ (e : EscrowContract) (triggered_by : String) (w : World) where
  abbrev pays : World
  pays =
      (close_paid e triggered_by (suc w.next_uuid) w.now (
        transferred e.depositor_account_id e.beneficiary_account_id e.currency e.amount
          "escrow_release" w)).1

  paid-Closes : Closes e w pays
  unfolding close_paid lower_reserved
  paid-Closes =
      closing e
        (record e {
          status = EscrowStatus.released;
          release_txn_id = some (suc w.next_uuid);
          released_at = some w.now;
          release_triggered_by = some triggered_by;
        })
        (suc (suc (suc w.next_uuid))) none w pays refl refl refl refl refl (omega arith)

  pay-Closes :
      (x : ReleaseResult)
      → (pay_beneficiary e triggered_by w).0 ≡ ok x
      → Closes e w (pay_beneficiary e triggered_by w).1
  pay-Closes x h = rw ((pay-paid e triggered_by w x h).1) paid-Closes

  refund-Closes : Closes e w (refund_depositor e triggered_by w).1
  unfolding refund_depositor lower_reserved
  refund-Closes =
      closing e
        (record e {
          status = EscrowStatus.refunded;
          released_at = some w.now;
          release_triggered_by = some triggered_by;
        })
        w.next_uuid (some e.id) w (refund_depositor e triggered_by w).1 refl refl refl refl refl
        (omega arith)

pub expire_escrow-Closes : (e : EscrowContract) (w : World) → Closes e w (expire_escrow e w).1
unfolding expire_escrow lower_reserved
expire_escrow-Closes e w =
    closing e (expired e) w.next_uuid (some e.id) w (expire_escrow e w).1 refl refl refl refl refl
      (omega arith)

pay_or_refund-Closes :
    (to : ReleaseTo) (e : EscrowContract) (by : String) (w : World) (x : ReleaseResult)
    → (pay_or_refund to e by w).0 ≡ ok x
    → Closes e w (pay_or_refund to e by w).1
pay_or_refund-Closes beneficiary e by w x h = pay-Closes e by w x h
pay_or_refund-Closes depositor e by w x h = refund-Closes e by w

pay_or_refund-grows :
    (to : ReleaseTo) (e : EscrowContract) (by : String) (w : World)
    → w.next_uuid ≤ (pay_or_refund to e by w).1.next_uuid
unfolding pay_beneficiary refund_depositor locked_transfer close_paid
pay_or_refund-grows beneficiary e by w = ground arith
pay_or_refund-grows depositor e by w = ground arith

module _ (ref : Ref) (req : ReleaseEscrowRequest) (w : World) where
  release_escrow-grows : w.next_uuid ≤ (release_escrow ref req w).1.next_uuid
  unfolding release_escrow expire_escrow
  release_escrow-grows = elim (Option-cases (escrow_of ref w.db)) [
    | inl unknown ↦ ground arith
    | inr (e, found) ↦
        ground (arith, found, pay_or_refund-grows req.release_to e req.triggered_by w)
  ]

  release_escrow-counter :
      (e : EscrowContract) (x : ReleaseResult)
      → escrow_of ref w.db ≡ some e
      → (release_escrow ref req w).0 ≡ ok x
      → (release_escrow ref req w).1.next_uuid
        ≡ (pay_or_refund req.release_to e req.triggered_by w).1.next_uuid
  unfolding release_escrow
  release_escrow-counter e x found h = ground arith

  pub release_escrow-Stable :
      {I : World → Type 0} → (s : Stable I) → I w → I (release_escrow ref req w).1
  release_escrow-Stable s v =
      let w' = (release_escrow ref req w).1 in
      elim (Option-cases (escrow_of ref w.db)) [
        | inl unknown ↦
            s.untouched w w'
              (same-Untouched w w' (release_escrow-unknown ref req w unknown) release_escrow-grows)
              v
        | inr (e, found) ↦ elim (Result-cases (release_escrow ref req w).0) [
          | inl (x, returned) ↦
              let branch = release_escrow-branch ref req w e x found returned in
              let u = (pay_or_refund req.release_to e req.triggered_by w).1 in
              s.untouched u w'
                (same-Untouched u w' branch.3
                  (omega (arith, release_escrow-counter e x found returned)))
                (s.closes e w u
                  (pay_or_refund-Closes req.release_to e req.triggered_by w x branch.2)
                  (find-Has ref e w.db.escrow_contracts found) (rw branch.0 refl) v)
          | inr (x, raised) ↦
              s.untouched w w'
                (same-Untouched w w' (release_escrow-err ref req w x raised) release_escrow-grows) v
        ]
      ]
