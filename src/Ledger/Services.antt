-- ===== src/Ledger/Services.antt =====
-- The totals of the journal, through the operations of the services.
use stablecoin_infrastructur.Base.{
  ℕ, String, Option, ◌≡◌, ◌⊎◌, inl, inr, List, [], ◌∷◌, Bool, true, false, refl, arith,
  Option-cases,
}
use stablecoin_infrastructur.Models.Enums.{CurrencyCode}
use stablecoin_infrastructur.Models.Refs.{Ref, truthy}
use stablecoin_infrastructur.Models.Rows.{RtgsSettlement, EscrowContract}
use stablecoin_infrastructur.Models.Database.{Database}
use stablecoin_infrastructur.Shared.Session.{
  World, Action, ok, err, Error, integrity_error, get_db_session-rollback, get_db_session-commit,
  Result-cases,
}
use stablecoin_infrastructur.Shared.Access.{Request}
use stablecoin_infrastructur.Issuance.{Issued, IssueRequest, RedeemRequest, issue}
use stablecoin_infrastructur.Issuance.Redeem.{redeem}
use stablecoin_infrastructur.Issuance.Routes.{answer, issue_tokens, redeem_tokens}
use stablecoin_infrastructur.Issuance.Effects.{issue_tokens-IsMint, redeem_tokens-IsBurn}
use stablecoin_infrastructur.Rtgs.{process_one_settlement}
use stablecoin_infrastructur.Rtgs.Routes.{
  SubmitRequest, submit_settlement, approve_settlement, sign_settlement,
}
use stablecoin_infrastructur.Rtgs.Queue.{dequeue}
use stablecoin_infrastructur.Rtgs.Worker.{process_batch, worker_cycle}
use stablecoin_infrastructur.Rtgs.Outcome.{process_one_settlement-Outcome}
use stablecoin_infrastructur.Rtgs.FourEyes.{batch-raises_on, batch-goes_on}
use stablecoin_infrastructur.Payments.Escrow.{
  CreateEscrowRequest, ReleaseTo, beneficiary, depositor, ReleaseEscrowRequest, existing_escrow,
  escrow_of, create_escrow, release_escrow,
}
use stablecoin_infrastructur.Payments.Reserve.{
  create_escrow-IsReserved, create_escrow-known, create_escrow-err,
}
use stablecoin_infrastructur.Payments.Release.{
  IsReleased, release_escrow-IsReleased, release_escrow-err, release_escrow-unknown,
}
use stablecoin_infrastructur.Payments.Conditional.{
  CreateConditionalPaymentRequest, create_conditional_payment, TriggerRequest,
  trigger_conditional_payment,
}
use stablecoin_infrastructur.Payments.Checker.{checker_cycle}
use stablecoin_infrastructur.Fx.Rates.{FxRateUpdated, rate_update_handler}
use stablecoin_infrastructur.Fx.Routes.{InitiateFxSettlementRequest, initiate_fx_settlement}
use stablecoin_infrastructur.Fx.Worker.{fx_worker_cycle}
use stablecoin_infrastructur.Ledger.Conditionals.{
  create_conditional-Unposted, trigger-IsBalanced, checker_cycle-IsBalanced,
}
use stablecoin_infrastructur.Ledger.Exchanges.{
  fx_worker_cycle-IsBalanced, initiate-Unposted, rate-journal,
}
use stablecoin_infrastructur.Ledger.{
  IsBalanced, IsBalanced-Posted, IsBalanced-same, IsBalanced-start,
}

answer-err :
    (a : ℕ) (c : CurrencyCode) (m : Action Issued) (w : World) (e : Error)
    → (answer a c m w).0 ≡ err e
    → (answer a c m w).1.db ≡ w.db
unfolding answer
answer-err a c m w e h = ground arith

submit-journal :
    (req : SubmitRequest) (w : World)
    → (submit_settlement req w).1.db.journal_entries ≡ w.db.journal_entries
unfolding submit_settlement
submit-journal req w = ground arith

approve-journal :
    (ref : Ref) (request : Request) (w : World)
    → (approve_settlement ref request w).1.db.journal_entries ≡ w.db.journal_entries
unfolding approve_settlement
approve-journal ref request w = ground arith

sign-journal :
    (ref : Ref) (request : Request) (w : World)
    → (sign_settlement ref request w).1.db.journal_entries ≡ w.db.journal_entries
unfolding sign_settlement
sign-journal ref request w = ground arith

module _ (o : Database) where
  -- A database that an error left as it was.
  kept : (db db' : Database) → db' ≡ db → IsBalanced o db → IsBalanced o db'
  kept db db' e h = rw e h

  issue_tokens-IsBalanced :
      (req : IssueRequest) (w : World) → IsBalanced o w.db → IsBalanced o (issue_tokens req w).1.db
  issue_tokens-IsBalanced req w h = elim (Result-cases (issue_tokens req w).0) [
    | inl (resp, e) ↦
        IsBalanced-Posted o _ w.db (issue_tokens req w).1.db
          (issue_tokens-IsMint req w resp e).posted h
    | inr (x, e) ↦
        kept w.db (issue_tokens req w).1.db
          (unfold issue_tokens in answer-err req.account_id req.currency (issue req) w x e) h
  ]

  redeem_tokens-IsBalanced :
      (req : RedeemRequest) (w : World)
      → IsBalanced o w.db
      → IsBalanced o (redeem_tokens req w).1.db
  redeem_tokens-IsBalanced req w h = elim (Result-cases (redeem_tokens req w).0) [
    | inl (resp, e) ↦
        IsBalanced-Posted o _ w.db (redeem_tokens req w).1.db
          (redeem_tokens-IsBurn req w resp e).posted h
    | inr (x, e) ↦
        kept w.db (redeem_tokens req w).1.db
          (unfold redeem_tokens in answer-err req.account_id req.currency (redeem req) w x e) h
  ]

  process-IsBalanced :
      (s : RtgsSettlement) (w : World)
      → IsBalanced o w.db
      → ((process_one_settlement s w).0 ≡ err integrity_error)
        ⊎ ((b : Bool) × ((process_one_settlement s w).0 ≡ ok b)
            × IsBalanced o (process_one_settlement s w).1.db)
  process-IsBalanced s w h = elim (process_one_settlement-Outcome s w) [
    | inl done ↦ inr (
      true,
      done.returned,
      IsBalanced-Posted o _ w.db (process_one_settlement s w).1.db done.posted h,
    )
    | inr (inl short) ↦ inr (
      false,
      short.returned,
      IsBalanced-same o w.db (process_one_settlement s w).1.db short.unposted h,
    )
    | inr (inr refused) ↦ inl refused
  ]

  batch-IsBalanced :
      (batch : List RtgsSettlement) (w : World)
      → IsBalanced o w.db
      → ((process_batch batch w).0 ≡ err integrity_error)
        ⊎ (((process_batch batch w).0 ≡ ok tt) × IsBalanced o (process_batch batch w).1.db)
  batch-IsBalanced [] w h = unfold process_batch in inr (refl, h)
  batch-IsBalanced (s ∷ rest) w h = elim (process-IsBalanced s w h) [
    | inl refused ↦ inl (batch-raises_on s rest w refused)
    | inr (b, returned, still) ↦
        rw (batch-goes_on s rest w b returned) (batch-IsBalanced rest _ still)
  ]

  worker_cycle-IsBalanced : (w : World) → IsBalanced o w.db → IsBalanced o (worker_cycle w).db
  unfolding worker_cycle
  worker_cycle-IsBalanced w h =
      let batch = dequeue w.db in
      elim (batch-IsBalanced batch w h) [
        | inl refused ↦
            rw (get_db_session-rollback (process_batch batch) w integrity_error refused) h
        | inr (returned, still) ↦
            rw (get_db_session-commit (process_batch batch) w tt returned) still
      ]

  create_escrow-IsBalanced :
      (req : CreateEscrowRequest) (w : World)
      → IsBalanced o w.db
      → IsBalanced o (create_escrow req w).1.db
  create_escrow-IsBalanced req w h =
      elim (Option-cases (existing_escrow (truthy req.idempotency_key) w.db)) [
        | inr (e, known) ↦
            kept w.db (create_escrow req w).1.db (create_escrow-known req w e known) h
        | inl fresh ↦ elim (Result-cases (create_escrow req w).0) [
          | inl (e, returned) ↦
              IsBalanced-same o w.db (create_escrow req w).1.db
                (create_escrow-IsReserved req w e fresh returned).unposted h
          | inr (x, raised) ↦
              kept w.db (create_escrow req w).1.db (create_escrow-err req w x raised) h
        ]
      ]

  IsReleased-IsBalanced :
      (to : ReleaseTo) (e : EscrowContract) (db db' : Database)
      → IsReleased to e db db'
      → IsBalanced o db
      → IsBalanced o db'
  IsReleased-IsBalanced beneficiary e db db' p h = IsBalanced-Posted o _ db db' p.posted h
  IsReleased-IsBalanced depositor e db db' p h = IsBalanced-same o db db' p.unposted h

  release_escrow-IsBalanced :
      (ref : Ref) (req : ReleaseEscrowRequest) (w : World)
      → IsBalanced o w.db
      → IsBalanced o (release_escrow ref req w).1.db
  release_escrow-IsBalanced ref req w h = elim (Option-cases (escrow_of ref w.db)) [
    | inl unknown ↦
        kept w.db (release_escrow ref req w).1.db (release_escrow-unknown ref req w unknown) h
    | inr (e, found) ↦ elim (Result-cases (release_escrow ref req w).0) [
      | inl (x, returned) ↦
          IsReleased-IsBalanced req.release_to e w.db (release_escrow ref req w).1.db
            (release_escrow-IsReleased ref req w e x found returned).2 h
      | inr (x, raised) ↦
          kept w.db (release_escrow ref req w).1.db (release_escrow-err ref req w x raised) h
    ]
  ]

-- What the services do to the world that they share. Time passes and other tables change between two
-- of these steps.
pub data Step (w : World) : World → Type 0 where
  issues : (req : IssueRequest) → Step w (issue_tokens req w).1
  redeems : (req : RedeemRequest) → Step w (redeem_tokens req w).1
  submits : (req : SubmitRequest) → Step w (submit_settlement req w).1
  approves : (ref : Ref) (request : Request) → Step w (approve_settlement ref request w).1
  signs : (ref : Ref) (request : Request) → Step w (sign_settlement ref request w).1
  cycles : Step w (worker_cycle w)
  creates : (req : CreateEscrowRequest) → Step w (create_escrow req w).1
  releases : (ref : Ref) (req : ReleaseEscrowRequest) → Step w (release_escrow ref req w).1
  requests : (req : CreateConditionalPaymentRequest) → Step w (create_conditional_payment req w).1
  triggers :
      (fromisoformat : String → Option ℕ) (ref : Ref) (req : TriggerRequest)
      → Step w (trigger_conditional_payment fromisoformat ref req w).1
  checks : (fromisoformat : String → Option ℕ) → Step w (checker_cycle fromisoformat w)
  initiates : (req : InitiateFxSettlementRequest) → Step w (initiate_fx_settlement req w).1
  exchanges : Step w (fx_worker_cycle w)
  updates : (payload : FxRateUpdated) → Step w (rate_update_handler payload w)
  others : {w' : World} → w'.db.journal_entries ≡ w.db.journal_entries → Step w w'

pub data Reached (w₀ : World) : World → Type 0 where
  at_start : Reached w₀ w₀
  after : {w w' : World} → Reached w₀ w → Step w w' → Reached w₀ w'

module _ (o : Database) where
  Step-IsBalanced : (w w' : World) → Step w w' → IsBalanced o w.db → IsBalanced o w'.db
  Step-IsBalanced w _ (issues req) h = issue_tokens-IsBalanced o req w h
  Step-IsBalanced w _ (redeems req) h = redeem_tokens-IsBalanced o req w h
  Step-IsBalanced w _ (submits req) h =
      IsBalanced-same o w.db (submit_settlement req w).1.db (submit-journal req w) h
  Step-IsBalanced w _ (approves ref request) h =
      IsBalanced-same o w.db (approve_settlement ref request w).1.db (approve-journal ref request w)
        h
  Step-IsBalanced w _ (signs ref request) h =
      IsBalanced-same o w.db (sign_settlement ref request w).1.db (sign-journal ref request w) h
  Step-IsBalanced w _ cycles h = worker_cycle-IsBalanced o w h
  Step-IsBalanced w _ (creates req) h = create_escrow-IsBalanced o req w h
  Step-IsBalanced w _ (releases ref req) h = release_escrow-IsBalanced o ref req w h
  Step-IsBalanced w _ (requests req) h =
      IsBalanced-same o w.db (create_conditional_payment req w).1.db
        (create_conditional-Unposted req w) h
  Step-IsBalanced w _ (triggers iso ref req) h = trigger-IsBalanced o iso ref req w h
  Step-IsBalanced w _ (checks iso) h = checker_cycle-IsBalanced o iso w h
  Step-IsBalanced w _ (initiates req) h =
      IsBalanced-same o w.db (initiate_fx_settlement req w).1.db (initiate-Unposted req w) h
  Step-IsBalanced w _ exchanges h = fx_worker_cycle-IsBalanced o w h
  Step-IsBalanced w _ (updates payload) h =
      IsBalanced-same o w.db (rate_update_handler payload w).db (rate-journal payload w) h
  Step-IsBalanced w w' (others e) h = IsBalanced-same o w.db w'.db e h

-- However issuances, redemptions, settlements, escrows, conditional payments and exchanges, with the
-- workers and the condition checker, follow each other, one transaction at a time, succeed or fail:
-- what they debit beyond the entries that were there at the start, in every currency, under every
-- journal id, and in any choice of both, they credit too.
pub Reached-IsBalanced : (w₀ w : World) → Reached w₀ w → IsBalanced w₀.db w.db
Reached-IsBalanced w₀ _ at_start = IsBalanced-start w₀.db
Reached-IsBalanced w₀ w (after past step) =
    Step-IsBalanced w₀.db _ w step (Reached-IsBalanced w₀ _ past)
