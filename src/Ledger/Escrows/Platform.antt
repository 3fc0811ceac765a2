-- ===== src/Ledger/Escrows/Platform.antt =====
-- However the operations of the services follow each other, what is held is what the active contracts
-- bind.
use stablecoin_infrastructur.Base.{ℕ, String, ◌≡◌, Option}
use stablecoin_infrastructur.Base.Int.{pos, ◌-ℤ◌, int_laws}
use stablecoin_infrastructur.Models.Enums.{CurrencyCode, institution_liability}
use stablecoin_infrastructur.Models.Refs.{Ref}
use stablecoin_infrastructur.Shared.Session.{World}
use stablecoin_infrastructur.Shared.Journal.{get_balance, get_available_balance}
use stablecoin_infrastructur.Payments.Escrow.{
  CreateEscrowRequest, create_escrow, ReleaseEscrowRequest, release_escrow,
}
use stablecoin_infrastructur.Payments.Conditional.{
  CreateConditionalPaymentRequest, create_conditional_payment, TriggerRequest,
  trigger_conditional_payment,
}
use stablecoin_infrastructur.Payments.Checker.{checker_cycle}
use stablecoin_infrastructur.Shared.Access.{Request}
use stablecoin_infrastructur.Issuance.{IssueRequest, RedeemRequest}
use stablecoin_infrastructur.Issuance.Routes.{issue_tokens, redeem_tokens}
use stablecoin_infrastructur.Rtgs.Routes.{
  SubmitRequest, submit_settlement, approve_settlement, sign_settlement,
}
use stablecoin_infrastructur.Rtgs.Worker.{worker_cycle}
use stablecoin_infrastructur.Fx.Worker.{fx_worker_cycle}
use stablecoin_infrastructur.Fx.Rates.{FxRateUpdated, rate_update_handler}
use stablecoin_infrastructur.Fx.Routes.{InitiateFxSettlementRequest, initiate_fx_settlement}
use stablecoin_infrastructur.Ledger.Escrows.{
  issue_tokens-Untouched, redeem_tokens-Untouched, submit-Leaves, approve-Leaves, sign-Leaves,
  worker_cycle-Untouched, initiate-Leaves, fx_worker_cycle-Untouched, rate-Leaves,
}
use stablecoin_infrastructur.Payments.Outstanding.{IsBacked, outstanding}
use stablecoin_infrastructur.Payments.Outstanding.Effects.{Untouched, Stable, IsBacked-Stable}
use stablecoin_infrastructur.Payments.Outstanding.Routes.{
  create_escrow-Stable, release_escrow-Stable,
}
use stablecoin_infrastructur.Payments.Outstanding.Checker.{
  create_conditional-Leaves, trigger-Leaves,
}
use stablecoin_infrastructur.Payments.Outstanding.Due.{checker_cycle-Stable}

-- What the services do to the world that they share. Time passes, and other tables change, between two
-- of these steps.
pub data Step (w : World) : World → Type 0 where
  creates : (req : CreateEscrowRequest) → Step w (create_escrow req w).1
  releases : (ref : Ref) (req : ReleaseEscrowRequest) → Step w (release_escrow ref req w).1
  requests : (req : CreateConditionalPaymentRequest) → Step w (create_conditional_payment req w).1
  triggers :
      (fromisoformat : String → Option ℕ) (ref : Ref) (req : TriggerRequest)
      → Step w (trigger_conditional_payment fromisoformat ref req w).1
  checks : (fromisoformat : String → Option ℕ) → Step w (checker_cycle fromisoformat w)
  issues : (req : IssueRequest) → Step w (issue_tokens req w).1
  redeems : (req : RedeemRequest) → Step w (redeem_tokens req w).1
  submits : (req : SubmitRequest) → Step w (submit_settlement req w).1
  approves : (ref : Ref) (request : Request) → Step w (approve_settlement ref request w).1
  signs : (ref : Ref) (request : Request) → Step w (sign_settlement ref request w).1
  cycles : Step w (worker_cycle w)
  initiates : (req : InitiateFxSettlementRequest) → Step w (initiate_fx_settlement req w).1
  exchanges : Step w (fx_worker_cycle w)
  updates : (payload : FxRateUpdated) → Step w (rate_update_handler payload w)
  others : {w' : World} → Untouched w w' → Step w w'

pub data Reached (w₀ : World) : World → Type 0 where
  at_start : Reached w₀ w₀
  after : {w w' : World} → Reached w₀ w → Step w w' → Reached w₀ w'

module _ {I : World → Type 0} (s : Stable I) where
  Step-Stable : (w w' : World) → Step w w' → I w → I w'
  Step-Stable w _ (creates req) v = create_escrow-Stable s req w v
  Step-Stable w _ (releases ref req) v = release_escrow-Stable ref req w s v
  Step-Stable w _ (requests req) v =
      s.untouched w (create_conditional_payment req w).1 (create_conditional-Leaves req w) v
  Step-Stable w _ (triggers iso ref req) v =
      s.untouched w (trigger_conditional_payment iso ref req w).1 (trigger-Leaves iso ref req w) v
  Step-Stable w _ (checks iso) v = checker_cycle-Stable s iso w v
  Step-Stable w _ (issues req) v =
      s.untouched w (issue_tokens req w).1 (issue_tokens-Untouched w req) v
  Step-Stable w _ (redeems req) v =
      s.untouched w (redeem_tokens req w).1 (redeem_tokens-Untouched w req) v
  Step-Stable w _ (submits req) v =
      s.untouched w (submit_settlement req w).1 (submit-Leaves req w) v
  Step-Stable w _ (approves ref request) v =
      s.untouched w (approve_settlement ref request w).1 (approve-Leaves ref request w) v
  Step-Stable w _ (signs ref request) v =
      s.untouched w (sign_settlement ref request w).1 (sign-Leaves ref request w) v
  Step-Stable w _ cycles v = s.untouched w (worker_cycle w) (worker_cycle-Untouched w) v
  Step-Stable w _ (initiates req) v =
      s.untouched w (initiate_fx_settlement req w).1 (initiate-Leaves req w) v
  Step-Stable w _ exchanges v = s.untouched w (fx_worker_cycle w) (fx_worker_cycle-Untouched w) v
  Step-Stable w _ (updates payload) v =
      s.untouched w (rate_update_handler payload w) (rate-Leaves payload w) v
  Step-Stable w w' (others u) v = s.untouched w w' u v

  pub Reached-Stable : (w₀ w : World) → I w₀ → Reached w₀ w → I w
  Reached-Stable w₀ _ v at_start = v
  Reached-Stable w₀ w v (after past step) = Step-Stable _ w step (Reached-Stable w₀ _ v past)

-- Let holds match the active contracts at the start: for each account and currency, what is held and not
-- released amounts to them; and let the contracts stand newest first, with ids that fall and lie below
-- the next uuid. Then, however issuances, redemptions, settlements, escrows, conditional payments and
-- exchanges, with the workers and the condition checker, follow each other, one transaction at a time,
-- succeed or fail, what is available to an account in a currency is its balance less the amounts of
-- its active escrow contracts: no hold is lost and none outlives its contract.
pub Reached-available :
    (w₀ w : World) (a : ℕ) (c : CurrencyCode)
    → IsBacked w₀
    → Reached w₀ w
    → get_available_balance a c w.db
      ≡ get_balance a c institution_liability w.db -ℤ pos (outstanding a c w.db.escrow_contracts)
unfolding get_available_balance
Reached-available w₀ w a c v past =
    rw ((Reached-Stable IsBacked-Stable w₀ w v past).backed a c) (omega int_laws)
