-- ===== src/Ledger/Exchanges.antt =====
-- The totals of the journal, through exchanges.
use stablecoin_infrastructur.Base.{
  ℕ, ◌≡◌, inl, inr, refl, List, [], ◌∷◌, arith, Option, none, some, Option-cases,
}
use stablecoin_infrastructur.Models.Rows.{FxSettlement}
use stablecoin_infrastructur.Shared.Session.{World, Action, Result-cases, get_db_session}
use stablecoin_infrastructur.Fx.{process_fx_settlement}
use stablecoin_infrastructur.Fx.Outcome.{process_fx_settlement-Outcome}
use stablecoin_infrastructur.Fx.Worker.{queued, process_all, fx_worker_cycle}
use stablecoin_infrastructur.Fx.Rates.{
  get_live_rate, FxRateUpdated, rate_update_handler, replace_rate,
}
use stablecoin_infrastructur.Fx.Routes.{
  InitiateFxSettlementRequest, existing_settlement, settled_rate, buy_amount_of, queue_settlement,
  initiate_new, or_initiate, initiate_fx_settlement,
}
use stablecoin_infrastructur.Shared.Money.{quantize}
use stablecoin_infrastructur.Models.Refs.{truthy}
use stablecoin_infrastructur.Ledger.{
  IsBalanced, IsBalanced-Posted, IsBalanced-same, Preserves, bind-Preserves, session-IsBalanced,
  Unposted,
}
use stablecoin_infrastructur.Models.Database.{Database}

queue-Unposted :
    (req : InitiateFxSettlementRequest) (a id s b : ℕ) → Unposted (queue_settlement req a id s b)
unfolding queue_settlement
queue-Unposted req a id s b w = ground arith

initiate_new-Unposted : (req : InitiateFxSettlementRequest) → Unposted (initiate_new req)
unfolding initiate_new
initiate_new-Unposted req w =
    elim (Result-cases (
      settled_rate (get_live_rate req.sell_currency req.buy_currency w.db)
        (get_live_rate req.buy_currency req.sell_currency w.db))) [
          | inr (e, raised) ↦ ground arith
          | inl (x, found) ↦ elim (Option-cases (quantize 8 req.sell_amount)) [
            | inl missing ↦ ground arith
            | inr (s, sold) ↦ elim (Option-cases (buy_amount_of s x.0)) [
              | inl missing ↦ ground arith
              | inr (b, bought) ↦ ground (arith, queue-Unposted req x.0 x.1 s b w)
            ]
          ]
        ]

or_initiate-Unposted :
    (o : Option FxSettlement) (m : Action FxSettlement) → Unposted m → Unposted (or_initiate o m)
or_initiate-Unposted none m u = u
or_initiate-Unposted (some s) m u = λ w. refl

pub initiate-Unposted : (req : InitiateFxSettlementRequest) → Unposted (initiate_fx_settlement req)
unfolding initiate_fx_settlement
initiate-Unposted req w = ground (
  arith,
  or_initiate-Unposted (existing_settlement (truthy req.idempotency_key) w.db) (initiate_new req)
      (initiate_new-Unposted req) w,
)

pub rate-journal :
    (payload : FxRateUpdated) (w : World)
    → (rate_update_handler payload w).db.journal_entries ≡ w.db.journal_entries
unfolding rate_update_handler replace_rate get_db_session
rate-journal payload w = ground arith

module _ (o : Database) where
  process_fx-Preserves : (fx : FxSettlement) → Preserves o (process_fx_settlement fx)
  process_fx-Preserves fx w b returned h = elim (process_fx_settlement-Outcome fx w) [
    | inl both ↦
        IsBalanced-Posted o _ both.between (process_fx_settlement fx w).1.db both.bought
          (IsBalanced-Posted o _ w.db both.between both.sold h)
    | inr (inl unfunded) ↦
        IsBalanced-same o w.db (process_fx_settlement fx w).1.db unfunded.unposted h
    | inr (inr (inl one)) ↦ IsBalanced-Posted o _ w.db (process_fx_settlement fx w).1.db one.sold h
    | inr (inr (inr refused)) ↦ absurd (cc (refused, returned))
  ]

  process_all-Preserves : (batch : List FxSettlement) → Preserves o (process_all batch)
  unfolding process_all
  process_all-Preserves [] = λ w u returned h. h
  process_all-Preserves (s ∷ rest) =
      bind-Preserves o (process_fx_settlement s) (λ _. process_all rest) (process_fx-Preserves s)
        (λ _. process_all-Preserves rest)

  pub fx_worker_cycle-IsBalanced :
      (w : World) → IsBalanced o w.db → IsBalanced o (fx_worker_cycle w).db
  unfolding fx_worker_cycle
  fx_worker_cycle-IsBalanced w h =
      session-IsBalanced o (process_all (queued w.db)) w (process_all-Preserves (queued w.db)) h
