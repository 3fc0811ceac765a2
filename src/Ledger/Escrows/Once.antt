-- ===== src/Ledger/Escrows/Once.antt =====
-- An escrow contract is released once, whatever the services do behind the release.
use stablecoin_infrastructur.Base.{
  ◌≡◌, ◌<◌, ℕ, inl, inr, List, [], ◌∷◌, true, false, refl, ap, sym, subst, ◌∙◌, some, arith, find,
  exists, update, ◌==◌, Bool-cases, eq_iff,
}
use stablecoin_infrastructur.Models.Enums.{EscrowStatus, is_escrow}
use stablecoin_infrastructur.Models.Refs.{Ref, key, minted, same_ref}
use stablecoin_infrastructur.Models.Rows.{EscrowContract}
use stablecoin_infrastructur.Models.Database.{Database}
use stablecoin_infrastructur.Shared.Session.{World, ok, err, http}
use stablecoin_infrastructur.Payments.Escrow.{
  ReleaseTo, beneficiary, depositor, ReleaseEscrowRequest, ReleaseResult, escrow_of, release_escrow,
}
use stablecoin_infrastructur.Payments.Release.{Closed, IsReleased, release_escrow-IsReleased}
use stablecoin_infrastructur.Payments.Outstanding.{
  is_active, Descending, Has, Has-lt, saved, saved-head, saved-later,
}
use stablecoin_infrastructur.Payments.Outstanding.Effects.{
  Stable, IsOrdered, Opens-Descending, Closes-Descending, Untouched-Descending,
}
use stablecoin_infrastructur.Payments.Outstanding.Routes.{release_escrow-Stable}
use stablecoin_infrastructur.Ledger.Escrows.Platform.{Reached, Reached-Stable}

-- A row saved under its id and with its reference is the one that is found.
find-update :
    (ref : Ref) (e row : EscrowContract) (rows : List EscrowContract)
    → find (λ r. same_ref r.contract_ref ref) rows ≡ some e
    → row.id ≡ e.id
    → row.contract_ref ≡ e.contract_ref
    → find (λ r. same_ref r.contract_ref ref) (update (λ r. r.id == row.id) (λ _. row) rows)
      ≡ some row
find-update ref e row [] h i c = cc
find-update ref e row (r ∷ rows) h i c = ground (arith, find-update ref e row rows)

found-same_ref :
    (ref : Ref) (e : EscrowContract) (rows : List EscrowContract)
    → find (λ r. same_ref r.contract_ref ref) rows ≡ some e
    → same_ref e.contract_ref ref ≡ true
found-same_ref ref e [] h = cc
found-same_ref ref e (r ∷ rows) h = ground (arith, found-same_ref ref e rows)

-- A closed contract is found with its final status.
Closed-found :
    (ref : Ref) (e : EscrowContract) (s : EscrowStatus) (db db' : Database)
    → escrow_of ref db ≡ some e
    → Closed e s db db'
    → (row : EscrowContract) × (escrow_of ref db' ≡ some row) × (row.status ≡ s)
Closed-found ref e s db db' found c = (
  c.row,
  ap (find (λ r. same_ref r.contract_ref ref)) c.saved
      ∙ find-update ref e c.row db.escrow_contracts found c.same_id c.same_contract_ref,
  c.status,
)

IsReleased-found :
    (to : ReleaseTo) (ref : Ref) (e : EscrowContract) (db db' : Database)
    → escrow_of ref db ≡ some e
    → IsReleased to e db db'
    → (row : EscrowContract) × (escrow_of ref db' ≡ some row)
      × (is_escrow row.status EscrowStatus.active ≡ false)
IsReleased-found beneficiary ref e db db' found p =
    let (row, again, s) = Closed-found ref e EscrowStatus.released db db' found p.closed in
    (row, again, rw s refl)
IsReleased-found depositor ref e db db' found p =
    let (row, again, s) = Closed-found ref e EscrowStatus.refunded db db' found p.closed in
    (row, again, rw s refl)

release_escrow-closed :
    (ref : Ref) (req : ReleaseEscrowRequest) (v : World) (row : EscrowContract)
    → escrow_of ref v.db ≡ some row
    → is_escrow row.status EscrowStatus.active ≡ false
    → ((release_escrow ref req v).0 ≡ err (http 409 "Escrow is not active"))
      × ((release_escrow ref req v).1.db ≡ v.db)
unfolding release_escrow
release_escrow-closed ref req v row found closed = ground arith

-- The first row with the reference is not active.
abbrev pub IsSpent : Ref → List EscrowContract → Type 0
IsSpent ref rows =
    (row : EscrowContract) × (find (λ r. same_ref r.contract_ref ref) rows ≡ some row)
    × (is_active row ≡ false)

IsSpent-head :
    (ref : Ref) (row : EscrowContract) (rows : List EscrowContract)
    → same_ref row.contract_ref ref ≡ true
    → is_active row ≡ false
    → IsSpent ref (row ∷ rows)
IsSpent-head ref row rows h closed = (row, ground (arith, h), closed)

IsSpent-later :
    (ref : Ref) (r : EscrowContract) (rows : List EscrowContract)
    → same_ref r.contract_ref ref ≡ false
    → IsSpent ref rows
    → IsSpent ref (r ∷ rows)
IsSpent-later ref r rows h p = (p.0, ground (arith, h, p.1), p.2)

IsSpent-tail :
    (ref : Ref) (r : EscrowContract) (rows : List EscrowContract)
    → same_ref r.contract_ref ref ≡ false
    → IsSpent ref (r ∷ rows)
    → IsSpent ref rows
IsSpent-tail ref r rows h p = (p.0, ground (arith, h, p.1), p.2)

IsSpent-same_head :
    (ref : Ref) (r : EscrowContract) (rows rows' : List EscrowContract)
    → same_ref r.contract_ref ref ≡ true
    → IsSpent ref (r ∷ rows)
    → IsSpent ref (r ∷ rows')
IsSpent-same_head ref r rows rows' h p = (p.0, ground (arith, h, p.1), p.2)

-- A contract that is closed has an id of its own, so no other row changes.
IsSpent-saved :
    (ref : Ref) (row e : EscrowContract) (n : ℕ) (rows : List EscrowContract)
    → Descending n rows
    → Has e rows
    → row.id ≡ e.id
    → row.contract_ref ≡ e.contract_ref
    → is_active row ≡ false
    → IsSpent ref rows
    → IsSpent ref (saved row rows)
IsSpent-saved ref row e n [] d h same_id same_text closed p = elim h [ ]
IsSpent-saved ref row e n (r ∷ rs) d (inl q) same_id same_text closed p =
    let at_head : row.id ≡ r.id = same_id ∙ ap (λ (x : EscrowContract). x.id) (sym q) in
    let text : row.contract_ref ≡ r.contract_ref =
      same_text ∙ ap (λ (x : EscrowContract). x.contract_ref) (sym q) in
    subst (IsSpent ref) (sym (saved-head row r rs at_head d.1))
      (elim (Bool-cases (same_ref r.contract_ref ref)) [
        | inl yes_ ↦ IsSpent-head ref row rs (ap (λ x. same_ref x ref) text ∙ yes_) closed
        | inr no_ ↦
            IsSpent-later ref row rs (ap (λ x. same_ref x ref) text ∙ no_)
              (IsSpent-tail ref r rs no_ p)
      ])
IsSpent-saved ref row e n (r ∷ rs) d (inr h) same_id same_text closed p =
    let lower : e.id < r.id = Has-lt e rs d.1 h in
    subst (IsSpent ref) (sym (saved-later row r rs (λ q. absurd (omega arith))))
      (elim (Bool-cases (same_ref r.contract_ref ref)) [
        | inl yes_ ↦ IsSpent-same_head ref r rs (saved row rs) yes_ p
        | inr no_ ↦ IsSpent-later ref r (saved row rs) no_ (
            IsSpent-saved ref row e r.id rs d.1 h same_id same_text closed
              (IsSpent-tail ref r rs no_ p))
      ])

same_ref-eq : (a b : Ref) → same_ref a b ≡ true → a ≡ b
same_ref-eq (key s) (key t) h = ap key ((eq_iff s t).0 h)
same_ref-eq (minted p m) (minted q n) h =
    let text : p ≡ q = (eq_iff p q).0 (ground arith) in let number : m ≡ n = ground arith in cc
same_ref-eq (key s) (minted q n) h = absurd (ground arith)
same_ref-eq (minted p m) (key t) h = absurd (ground arith)

find-exists :
    (ref : Ref) (row : EscrowContract) (rows : List EscrowContract)
    → find (λ r. same_ref r.contract_ref ref) rows ≡ some row
    → exists (λ r. same_ref r.contract_ref ref) rows ≡ true
find-exists ref row [] h = absurd (ground arith)
find-exists ref row (r ∷ rows) h = ground (arith, find-exists ref row rows)

-- A new contract has a reference of its own.
IsSpent-opened :
    (ref : Ref) (contract : EscrowContract) (rows : List EscrowContract)
    → exists (λ r. same_ref r.contract_ref contract.contract_ref) rows ≡ false
    → IsSpent ref rows
    → IsSpent ref (contract ∷ rows)
IsSpent-opened ref contract rows unique p = elim (Bool-cases (same_ref contract.contract_ref ref)) [
  | inr other ↦ IsSpent-later ref contract rows other p
  | inl same ↦
      let there = find-exists ref p.0 rows p.1 in
      let gone =
        subst (λ x. exists (λ (r : EscrowContract). same_ref r.contract_ref x) rows ≡ false)
          (same_ref-eq contract.contract_ref ref same) unique in
      absurd (cc (there, gone))
]

IsSpent-Stable : (ref : Ref) → Stable (λ w. IsOrdered w × IsSpent ref w.db.escrow_contracts)
IsSpent-Stable ref = record {
  ordered = λ w v. v.0;
  opens = λ w w' o v. (
    Opens-Descending w w' o v.0,
    subst (IsSpent ref) (sym o.saved_as)
        (IsSpent-opened ref o.contract w.db.escrow_contracts o.unique v.1),
  );
  closes = λ e w w' k h active v. (
    Closes-Descending e w w' k v.0,
    subst (IsSpent ref) (sym k.saved_as) (
        IsSpent-saved ref k.row e w.next_uuid w.db.escrow_contracts v.0 h k.same_id
          k.same_contract_ref k.closed v.1),
  );
  untouched =
      λ w w' u v. (Untouched-Descending w w' u v.0, subst (IsSpent ref) (sym u.contracts) v.1);
}

IsOrdered-Stable : Stable IsOrdered
IsOrdered-Stable = record {
  ordered = λ w v. v;
  opens = Opens-Descending;
  closes = λ e w w' k h active v. Closes-Descending e w w' k v;
  untouched = Untouched-Descending;
}

-- Let the contracts stand newest first, with ids that fall and lie below the next uuid, and let a
-- release return. Then, whatever the services do behind it, one transaction at a time, and however
-- many other contracts they open, release or let expire, every further release of the contract is
-- refused and changes nothing: it is paid out or refunded once.
pub release_escrow-once :
    (ref : Ref) (req req' : ReleaseEscrowRequest) (w v : World) (e : EscrowContract)
    (x : ReleaseResult)
    → IsOrdered w
    → escrow_of ref w.db ≡ some e
    → (release_escrow ref req w).0 ≡ ok x
    → Reached (release_escrow ref req w).1 v
    → ((release_escrow ref req' v).0 ≡ err (http 409 "Escrow is not active"))
      × ((release_escrow ref req' v).1.db ≡ v.db)
release_escrow-once ref req req' w v e x ordered found h past =
    let w' = (release_escrow ref req w).1 in
    let released = release_escrow-IsReleased ref req w e x found h in
    let spent = IsReleased-found req.release_to ref e w.db w'.db found released.2 in
    let kept =
      Reached-Stable (IsSpent-Stable ref) w' v
        (release_escrow-Stable ref req w IsOrdered-Stable ordered, spent) past in
    release_escrow-closed ref req' v kept.1.0 kept.1.1 kept.1.2
