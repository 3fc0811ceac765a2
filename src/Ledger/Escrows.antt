-- ===== src/Ledger/Escrows.antt =====
-- The escrow contracts and their holds, through the operations of the other services.
pub mod Platform
pub mod Once
use stablecoin_infrastructur.Base.{
  ℕ, ◌≡◌, ◌≤◌, inl, inr, refl, sym, subst, List, [], ◌∷◌, arith, Option, none, some, Option-cases,
  Bool-cases,
}
use stablecoin_infrastructur.Models.Rows.{RtgsSettlement, FxSettlement}
use stablecoin_infrastructur.Models.Refs.{Ref, truthy}
use stablecoin_infrastructur.Shared.Access.{Request}
use stablecoin_infrastructur.Shared.Session.{
  World, Action, Result-cases, get_db_session, ok, err, pure,
}
use stablecoin_infrastructur.Issuance.{
  IssueRequest, RedeemRequest, Issued, issue, issue_new, book_issuance,
}
use stablecoin_infrastructur.Issuance.Redeem.{redeem, redeem_new, book_redemption}
use stablecoin_infrastructur.Issuance.Routes.{answer, issue_tokens, redeem_tokens}
use stablecoin_infrastructur.Rtgs.{
  transfer_balances, settle, give_up, start_processing, process_one_settlement,
}
use stablecoin_infrastructur.Rtgs.Routes.{
  SubmitRequest, submit_settlement, approve_settlement, sign_settlement,
}
use stablecoin_infrastructur.Rtgs.Queue.{dequeue}
use stablecoin_infrastructur.Rtgs.Worker.{process_batch, worker_cycle}
use stablecoin_infrastructur.Fx.{
  process_fx_settlement, start_exchange, exchange, fail, run_leg, finalise,
}
use stablecoin_infrastructur.Fx.Worker.{queued, process_all, fx_worker_cycle}
use stablecoin_infrastructur.Fx.Rates.{
  get_live_rate, FxRateUpdated, rate_update_handler, replace_rate,
}
use stablecoin_infrastructur.Fx.Routes.{
  InitiateFxSettlementRequest, existing_settlement, settled_rate, buy_amount_of, queue_settlement,
  initiate_new, or_initiate, initiate_fx_settlement,
}
use stablecoin_infrastructur.Shared.Money.{quantize}
use stablecoin_infrastructur.Models.Enums.{CurrencyCode}
use stablecoin_infrastructur.Payments.Outstanding.Effects.{Untouched}
use stablecoin_infrastructur.Payments.Outstanding.Checker.{Leaves, bind-Leaves}

session-Leaves : {A : Type 0} (m : Action A) → Leaves m → Leaves (get_db_session m)
unfolding get_db_session
session-Leaves m l w = let u = l w in ground (arith, u.held, u.contracts, u.drawn)

pub submit-Leaves : (req : SubmitRequest) → Leaves (submit_settlement req)
unfolding submit_settlement
submit-Leaves req w = ground arith

pub approve-Leaves : (ref : Ref) (request : Request) → Leaves (approve_settlement ref request)
unfolding approve_settlement
approve-Leaves ref request w = ground arith

pub sign-Leaves : (ref : Ref) (request : Request) → Leaves (sign_settlement ref request)
unfolding sign_settlement
sign-Leaves ref request w = ground arith

issue-Leaves : (req : IssueRequest) → Leaves (issue req)
unfolding issue issue_new book_issuance
issue-Leaves req w = ground arith

redeem-Leaves : (req : RedeemRequest) → Leaves (redeem req)
unfolding redeem redeem_new book_redemption
redeem-Leaves req w = ground arith

process-Leaves : (s : RtgsSettlement) → Leaves (process_one_settlement s)
unfolding process_one_settlement start_processing settle give_up transfer_balances
process-Leaves s w = ground arith

pub rate-Leaves :
    (payload : FxRateUpdated) (w : World) → Untouched w (rate_update_handler payload w)
unfolding rate_update_handler replace_rate get_db_session
rate-Leaves payload w = ground arith

leg-Leaves : (fx : FxSettlement) → Leaves (process_fx_settlement fx)
unfolding process_fx_settlement start_exchange exchange fail run_leg finalise
leg-Leaves fx w = ground arith

answer-Leaves : (a : ℕ) (c : CurrencyCode) (m : Action Issued) → Leaves m → Leaves (answer a c m)
unfolding answer
answer-Leaves a c m l w = let u = l w in ground (arith, u.held, u.contracts, u.drawn)

batch-Leaves : (batch : List RtgsSettlement) → Leaves (process_batch batch)
unfolding process_batch
batch-Leaves [] = λ w. record { held = refl; contracts = refl; drawn = omega arith }
batch-Leaves (s ∷ rest) =
    bind-Leaves (process_one_settlement s) (λ _. process_batch rest) (process-Leaves s)
      (λ _. batch-Leaves rest)

all-Leaves : (batch : List FxSettlement) → Leaves (process_all batch)
unfolding process_all
all-Leaves [] = λ w. record { held = refl; contracts = refl; drawn = omega arith }
all-Leaves (s ∷ rest) =
    bind-Leaves (process_fx_settlement s) (λ _. process_all rest) (leg-Leaves s)
      (λ _. all-Leaves rest)

queue-Leaves :
    (req : InitiateFxSettlementRequest) (a id s b : ℕ) → Leaves (queue_settlement req a id s b)
unfolding queue_settlement
queue-Leaves req a id s b w = ground arith

initiate_new-Leaves : (req : InitiateFxSettlementRequest) → Leaves (initiate_new req)
unfolding initiate_new
initiate_new-Leaves req w =
    elim (Result-cases (
      settled_rate (get_live_rate req.sell_currency req.buy_currency w.db)
        (get_live_rate req.buy_currency req.sell_currency w.db))) [
          | inr (e, raised) ↦ ground arith
          | inl (x, found) ↦ elim (Option-cases (quantize 8 req.sell_amount)) [
            | inl missing ↦ ground arith
            | inr (s, sold) ↦ elim (Option-cases (buy_amount_of s x.0)) [
              | inl missing ↦ ground arith
              | inr (b, bought) ↦
                  let u = queue-Leaves req x.0 x.1 s b w in
                  ground (arith, u.held, u.contracts, u.drawn)
            ]
          ]
        ]

or_initiate-Leaves :
    (o : Option FxSettlement) (m : Action FxSettlement) → Leaves m → Leaves (or_initiate o m)
or_initiate-Leaves none m l = l
or_initiate-Leaves (some s) m l = λ w. record { held = refl; contracts = refl; drawn = omega arith }

pub initiate-Leaves : (req : InitiateFxSettlementRequest) → Leaves (initiate_fx_settlement req)
unfolding initiate_fx_settlement
initiate-Leaves req w =
    let found = existing_settlement (truthy req.idempotency_key) w.db in
    let u = or_initiate-Leaves found (initiate_new req) (initiate_new-Leaves req) w in
    ground (arith, u.held, u.contracts, u.drawn)

module _ (w : World) where
  pub issue_tokens-Untouched : (req : IssueRequest) → Untouched w (issue_tokens req w).1
  unfolding issue_tokens
  issue_tokens-Untouched req =
      answer-Leaves req.account_id req.currency (issue req) (issue-Leaves req) w

  redeem_tokens-Untouched : (req : RedeemRequest) → Untouched w (redeem_tokens req w).1
  unfolding redeem_tokens
  redeem_tokens-Untouched req =
      answer-Leaves req.account_id req.currency (redeem req) (redeem-Leaves req) w

  worker_cycle-Untouched : Untouched w (worker_cycle w)
  unfolding worker_cycle
  worker_cycle-Untouched =
      session-Leaves (process_batch (dequeue w.db)) (batch-Leaves (dequeue w.db)) w

  fx_worker_cycle-Untouched : Untouched w (fx_worker_cycle w)
  unfolding fx_worker_cycle
  fx_worker_cycle-Untouched =
      session-Leaves (process_all (queued w.db)) (all-Leaves (queued w.db)) w
