-- ===== src/Rtgs/FourEyes.antt =====
-- Dual control: the actors who approve and who sign settlements.
use stablecoin_infrastructur.Base.{
  ℕ, ◌≡◌, ◌≢◌, refl, sym, ◌∙◌, Option, List, [], ◌∷◌, Bool, true, false, some, none, arith,
  Bool-cases, Option-cases, inl, inr, ◌⊎◌, ◌==◌, update,
}
use stablecoin_infrastructur.Models.Enums.{SettlementStatus, is_settlement}
use stablecoin_infrastructur.Models.Refs.{Ref}
use stablecoin_infrastructur.Models.Rows.{RtgsSettlement}
use stablecoin_infrastructur.Models.Database.{Database}
use stablecoin_infrastructur.Shared.Session.{
  World, ok, err, integrity_error, get_db_session-rollback, get_db_session-commit,
}
use stablecoin_infrastructur.Shared.Access.{Request, same_actor}
use stablecoin_infrastructur.Rtgs.{save, process_one_settlement}
use stablecoin_infrastructur.Rtgs.Routes.{
  SubmitRequest, settlement_of, submit_settlement, approve_settlement, sign_settlement,
}
use stablecoin_infrastructur.Rtgs.Queue.{dequeue}
use stablecoin_infrastructur.Rtgs.Queue.Order.{All, signed_rows, dequeue-All}
use stablecoin_infrastructur.Rtgs.Worker.{process_batch, worker_cycle}
use stablecoin_infrastructur.Rtgs.Outcome.{process_one_settlement-Outcome}

-- The statuses that a settlement has from its signature on.
abbrev pub is_past_signing : SettlementStatus → Bool
is_past_signing SettlementStatus.signed = true
is_past_signing SettlementStatus.processing = true
is_past_signing SettlementStatus.broadcasted = true
is_past_signing SettlementStatus.confirmed = true
is_past_signing SettlementStatus.settled = true
is_past_signing SettlementStatus.failed = true
is_past_signing _ = false

-- The approver and the signer are not the same, nor both unknown.
abbrev pub HasTwoActors : RtgsSettlement → Type 0
HasTwoActors s = is_past_signing s.status ≡ true → s.approved_by ≢ s.signed_by

abbrev pub UnderDualControl : Database → Type 0
UnderDualControl db = All HasTwoActors db.rtgs_settlements

same_actor-false : (a b : Option ℕ) → same_actor a b ≡ false → a ≢ b
same_actor-false none none h = λ e. cc
same_actor-false none (some b) h = λ e. cc
same_actor-false (some a) none h = λ e. cc
same_actor-false (some a) (some b) h = λ e. ground arith

update-All :
    {A : Type 0} (P : A → Type 0) (p : A → Bool) (a : A) (xs : List A)
    → P a
    → All P xs
    → All P (update p (λ _. a) xs)
update-All P p a [] h k = tt
update-All P p a (x ∷ xs) h k = elim (Bool-cases (p x)) [
  | inl e ↦ rw e (h, update-All P p a xs h k.1)
  | inr e ↦ rw e (k.0, update-All P p a xs h k.1)
]

submit-UnderDualControl :
    (req : SubmitRequest) (w : World)
    → UnderDualControl w.db
    → UnderDualControl (submit_settlement req w).1.db
unfolding submit_settlement
submit-UnderDualControl req w h = ground arith

-- The rows as approved and as signed.
abbrev approved_row : RtgsSettlement → Request → ℕ → RtgsSettlement
approved_row s request now = record s {
  status = SettlementStatus.approved;
  approved_by = request.actor_id;
  approved_at = some now;
}

abbrev signed_row : RtgsSettlement → Request → ℕ → RtgsSettlement
signed_row s request now = record s {
  status = SettlementStatus.signed;
  signed_by = request.actor_id;
  signed_at = some now;
}

module _ (ref : Ref) (request : Request) (w : World) where
  approve-unknown :
      settlement_of ref w.db ≡ none
      → (approve_settlement ref request w).1.db.rtgs_settlements ≡ w.db.rtgs_settlements
  unfolding approve_settlement
  approve-unknown h = ground arith

  -- An approval leaves the table, or saves the approved row.
  approve-rows :
      (s : RtgsSettlement)
      → settlement_of ref w.db ≡ some s
      → ((approve_settlement ref request w).1.db.rtgs_settlements ≡ w.db.rtgs_settlements)
        ⊎ ((approve_settlement ref request w).1.db.rtgs_settlements
            ≡ (save (approved_row s request w.now) w.db).rtgs_settlements)
  unfolding approve_settlement
  approve-rows s e = ground arith

  sign-unknown :
      settlement_of ref w.db ≡ none
      → (sign_settlement ref request w).1.db.rtgs_settlements ≡ w.db.rtgs_settlements
  unfolding sign_settlement
  sign-unknown h = ground arith

  -- A signature too, by another actor than the approver.
  sign-rows :
      (s : RtgsSettlement)
      → settlement_of ref w.db ≡ some s
      → ((sign_settlement ref request w).1.db.rtgs_settlements ≡ w.db.rtgs_settlements)
        ⊎ ((same_actor s.approved_by request.actor_id ≡ false)
            × ((sign_settlement ref request w).1.db.rtgs_settlements
                ≡ (save (signed_row s request w.now) w.db).rtgs_settlements))
  unfolding sign_settlement
  sign-rows s e = ground arith

  approve-UnderDualControl :
      UnderDualControl w.db → UnderDualControl (approve_settlement ref request w).1.db
  approve-UnderDualControl h = elim (Option-cases (settlement_of ref w.db)) [
    | inl e ↦ rw (approve-unknown e) h
    | inr (s, e) ↦ elim (approve-rows s e) [
      | inl kept ↦ rw kept h
      | inr saved ↦ rw saved (
          update-All HasTwoActors (λ r. r.id == s.id) (approved_row s request w.now)
            w.db.rtgs_settlements (λ k. cc) h)
    ]
  ]

  sign-UnderDualControl :
      UnderDualControl w.db → UnderDualControl (sign_settlement ref request w).1.db
  sign-UnderDualControl h = elim (Option-cases (settlement_of ref w.db)) [
    | inl e ↦ rw (sign-unknown e) h
    | inr (s, e) ↦ elim (sign-rows s e) [
      | inl kept ↦ rw kept h
      | inr (differ, saved) ↦ rw saved (
          update-All HasTwoActors (λ r. r.id == s.id) (signed_row s request w.now)
            w.db.rtgs_settlements (λ k. same_actor-false s.approved_by request.actor_id differ) h)
    ]
  ]

-- A settlement keeps its actors, so a row that was signed by two stays so.
process-UnderDualControl :
    (s : RtgsSettlement) (w : World)
    → s.approved_by ≢ s.signed_by
    → UnderDualControl w.db
    → ((process_one_settlement s w).0 ≡ err integrity_error)
      ⊎ ((b : Bool) × ((process_one_settlement s w).0 ≡ ok b)
          × UnderDualControl (process_one_settlement s w).1.db)
process-UnderDualControl s w differ h = elim (process_one_settlement-Outcome s w) [
  | inl done ↦ inr (
    true,
    done.returned,
    rw done.saved (
        update-All HasTwoActors _ done.row _ (λ k e. differ (sym done.actors.0 ∙ e ∙ done.actors.1))
          h),
  )
  | inr (inl short) ↦ inr (
    false,
    short.returned,
    rw short.saved (
        update-All HasTwoActors _ short.row _
          (λ k e. differ (sym short.actors.0 ∙ e ∙ short.actors.1)) h),
  )
  | inr (inr refused) ↦ inl refused
]

abbrev DifferentActors : RtgsSettlement → Type 0
DifferentActors s = s.approved_by ≢ s.signed_by

signed_rows-DifferentActors :
    (ss : List RtgsSettlement) → All HasTwoActors ss → All DifferentActors (signed_rows ss)
signed_rows-DifferentActors [] h = tt
signed_rows-DifferentActors (s ∷ ss) h =
    elim (Bool-cases (is_settlement s.status SettlementStatus.signed)) [
      | inl e ↦ rw e (h.0 (signed_is_past s.status e), signed_rows-DifferentActors ss h.1)
      | inr e ↦ rw e (signed_rows-DifferentActors ss h.1)
    ]
  where
    signed_is_past :
        (t : SettlementStatus)
        → is_settlement t SettlementStatus.signed ≡ true
        → is_past_signing t ≡ true
    signed_is_past t e = ground arith

pub batch-raises_on :
    (s : RtgsSettlement) (rest : List RtgsSettlement) (w : World)
    → (process_one_settlement s w).0 ≡ err integrity_error
    → (process_batch (s ∷ rest) w).0 ≡ err integrity_error
unfolding process_batch
batch-raises_on s rest w h = ground arith

pub batch-goes_on :
    (s : RtgsSettlement) (rest : List RtgsSettlement) (w : World) (b : Bool)
    → (process_one_settlement s w).0 ≡ ok b
    → process_batch (s ∷ rest) w ≡ process_batch rest (process_one_settlement s w).1
unfolding process_batch
batch-goes_on s rest w b h = ground arith

batch-UnderDualControl :
    (batch : List RtgsSettlement) (w : World)
    → All DifferentActors batch
    → UnderDualControl w.db
    → ((process_batch batch w).0 ≡ err integrity_error)
      ⊎ (((process_batch batch w).0 ≡ ok tt) × UnderDualControl (process_batch batch w).1.db)
batch-UnderDualControl [] w k h = unfold process_batch in inr (refl, h)
batch-UnderDualControl (s ∷ rest) w k h = elim (process-UnderDualControl s w k.0 h) [
  | inl refused ↦ inl (batch-raises_on s rest w refused)
  | inr (b, returned, kept) ↦
      rw (batch-goes_on s rest w b returned) (batch-UnderDualControl rest _ k.1 kept)
]

cycle-UnderDualControl : (w : World) → UnderDualControl w.db → UnderDualControl (worker_cycle w).db
unfolding worker_cycle
cycle-UnderDualControl w h =
    let batch = dequeue w.db in
    elim (batch-UnderDualControl batch w
      (dequeue-All DifferentActors w.db (signed_rows-DifferentActors w.db.rtgs_settlements h)) h) [
        | inl refused ↦
            rw (get_db_session-rollback (process_batch batch) w integrity_error refused) h
        | inr (returned, kept) ↦ rw (get_db_session-commit (process_batch batch) w tt returned) kept
      ]

-- What the service does to the world: a request to one of its writing routes, or a worker cycle.
-- Between two of them time passes and other services write, but not in `rtgs_settlements`.
pub data Step (w : World) : World → Type 0 where
  submits : (req : SubmitRequest) → Step w (submit_settlement req w).1
  approves : (ref : Ref) (request : Request) → Step w (approve_settlement ref request w).1
  signs : (ref : Ref) (request : Request) → Step w (sign_settlement ref request w).1
  cycles : Step w (worker_cycle w)
  others : {w' : World} → w'.db.rtgs_settlements ≡ w.db.rtgs_settlements → Step w w'

pub data Reached (w₀ : World) : World → Type 0 where
  at_start : Reached w₀ w₀
  after : {w w' : World} → Reached w₀ w → Step w w' → Reached w₀ w'

Step-UnderDualControl : (w w' : World) → Step w w' → UnderDualControl w.db → UnderDualControl w'.db
Step-UnderDualControl w _ (submits req) h = submit-UnderDualControl req w h
Step-UnderDualControl w _ (approves ref request) h = approve-UnderDualControl ref request w h
Step-UnderDualControl w _ (signs ref request) h = sign-UnderDualControl ref request w h
Step-UnderDualControl w _ cycles h = cycle-UnderDualControl w h
Step-UnderDualControl w _ (others e) h = rw e h

-- From an empty table, every settlement that was signed, whatever became of it since, has an
-- approver and a signer that are not the same actor, and not both unknown, however requests, worker
-- cycles and other services follow each other. One of the two may be unknown: a request with the legacy
-- key carries no actor.
pub Reached-UnderDualControl :
    (w₀ w : World) → w₀.db.rtgs_settlements ≡ [] → Reached w₀ w → UnderDualControl w.db
Reached-UnderDualControl w₀ _ e at_start = rw e tt
Reached-UnderDualControl w₀ w e (after past step) =
    Step-UnderDualControl _ w step (Reached-UnderDualControl w₀ _ e past)
