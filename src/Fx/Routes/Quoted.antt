-- ===== src/Fx/Routes/Quoted.antt =====
-- What is quoted against what is settled.
use stablecoin_infrastructur.Base.{
  ℕ, ◌*◌, ◌^◌, ◌≡◌, sym, ap, ◌∙◌, Option, none, some, arith, inl, inr, Option-cases, select,
}
use stablecoin_infrastructur.Models.Enums.{CurrencyCode, SettlementStatus}
use stablecoin_infrastructur.Models.Refs.{truthy}
use stablecoin_infrastructur.Models.Rows.{FxRate, FxSettlement}
use stablecoin_infrastructur.Shared.Session.{World, Result, ok, Result-cases}
use stablecoin_infrastructur.Shared.Money.{quantize}
use stablecoin_infrastructur.Fx.Rates.{newest, is_live, get_live_rate}
use stablecoin_infrastructur.Fx.Routes.{
  FxQuoteRequest, FxQuoteResponse, Priced, quoted_rate, settled_rate, buy_amount_of, get_fx_quote,
  InitiateFxSettlementRequest, existing_settlement, queue_settlement, initiate_new,
  initiate_fx_settlement,
}

abbrev pub quote_request : InitiateFxSettlementRequest → FxQuoteRequest
quote_request req = record {
  sell_currency = req.sell_currency;
  sell_amount = req.sell_amount;
  buy_currency = req.buy_currency;
}

some_injective : (a b : ℕ) → some a ≡ some b → a ≡ b
some_injective a b h = cc

same_applied :
    (direct inverse : Option FxRate) (p : Priced) (rate : ℕ × ℕ)
    → quoted_rate direct inverse ≡ ok p
    → settled_rate direct inverse ≡ ok rate
    → p.applied ≡ rate.0
same_applied (some r) inverse p rate h k = ground arith
same_applied none (some r) p rate h k = ground arith
same_applied none none p rate h k = cc

queue_facts :
    (req : InitiateFxSettlementRequest) (a id s b : ℕ) (w : World) (fx : FxSettlement)
    → (queue_settlement req a id s b w).0 ≡ ok fx
    → (fx.sell_amount ≡ s * 10 ^ 10)
      × (fx.buy_amount ≡ b * 10 ^ 10)
      × (fx.applied_rate ≡ a)
      × (fx.status ≡ SettlementStatus.queued)
unfolding queue_settlement
queue_facts req a id s b w fx h = (ground arith, ground arith, ground arith, ground arith)

module _ (req : InitiateFxSettlementRequest) (w : World) (fx : FxSettlement)
    (fresh : existing_settlement (truthy req.idempotency_key) w.db ≡ none)
    (h : (initiate_fx_settlement req w).0 ≡ ok fx) where
  abbrev rate : Result (ℕ × ℕ)
  rate =
      settled_rate (get_live_rate req.sell_currency req.buy_currency w.db)
        (get_live_rate req.buy_currency req.sell_currency w.db)

  rate_found : (x : ℕ × ℕ) × (rate ≡ ok x)
  unfolding initiate_fx_settlement initiate_new
  rate_found = elim (Result-cases rate) [
    | inl found ↦ found
    | inr (e, raised) ↦ absurd (ground arith)
  ]

  sold : (s : ℕ) × (quantize 8 req.sell_amount ≡ some s)
  unfolding initiate_fx_settlement initiate_new
  sold = elim (Option-cases (quantize 8 req.sell_amount)) [
    | inr found ↦ found
    | inl missing ↦ absurd (ground (arith, rate_found.1))
  ]

  bought : (b : ℕ) × (buy_amount_of sold.0 rate_found.0.0 ≡ some b)
  unfolding initiate_fx_settlement initiate_new
  bought = elim (Option-cases (buy_amount_of sold.0 rate_found.0.0)) [
    | inr found ↦ found
    | inl missing ↦ absurd (ground (arith, rate_found.1, sold.1))
  ]

  was_queued : (queue_settlement req rate_found.0.0 rate_found.0.1 sold.0 bought.0 w).0 ≡ ok fx
  unfolding initiate_fx_settlement initiate_new
  was_queued = ground (arith, rate_found.1, sold.1, bought.1)

module _ (req : FxQuoteRequest) (v : World) (q : FxQuoteResponse)
    (h : (get_fx_quote req v).0 ≡ ok q) where
  abbrev price : Result Priced
  price =
      quoted_rate (get_live_rate req.sell_currency req.buy_currency v.db)
        (get_live_rate req.buy_currency req.sell_currency v.db)

  price_found : (x : Priced) × (price ≡ ok x)
  unfolding get_fx_quote
  price_found = elim (Result-cases price) [
    | inl found ↦ found
    | inr (e, raised) ↦ absurd (ground arith)
  ]

  quote_facts :
      (s : ℕ)
      → quantize 8 req.sell_amount ≡ some s
      → (q.sell_amount ≡ s)
        × (buy_amount_of s price_found.0.applied ≡ some q.buy_amount)
        × (q.applied_rate ≡ price_found.0.applied)
  unfolding get_fx_quote
  quote_facts s sells = elim (Option-cases (buy_amount_of s price_found.0.applied)) [
    | inr (b, found) ↦ (
      ground (arith, price_found.1),
      ground (arith, price_found.1),
      ground (arith, price_found.1),
    )
    | inl missing ↦ absurd (ground (arith, price_found.1))
  ]

same_live :
    (w v : World) (b q : CurrencyCode)
    → v.db.fx_rates ≡ w.db.fx_rates
    → get_live_rate b q v.db ≡ get_live_rate b q w.db
unfolding get_live_rate
same_live w v b q e = ap (λ rs. newest (select (is_live b q) rs)) e

-- What is quoted is what is settled: a settlement that is initiated under no known key is queued with
-- the rate and the amounts that a quote for the same exchange has, as long as the table of rates is the
-- same.
pub get_fx_quote-initiate_fx_settlement :
    (req : InitiateFxSettlementRequest) (w v : World) (fx : FxSettlement) (q : FxQuoteResponse)
    → existing_settlement (truthy req.idempotency_key) w.db ≡ none
    → v.db.fx_rates ≡ w.db.fx_rates
    → (get_fx_quote (quote_request req) v).0 ≡ ok q
    → (initiate_fx_settlement req w).0 ≡ ok fx
    → (fx.applied_rate ≡ q.applied_rate)
      × (fx.sell_amount ≡ q.sell_amount * 10 ^ 10)
      × (fx.buy_amount ≡ q.buy_amount * 10 ^ 10)
      × (fx.status ≡ SettlementStatus.queued)
get_fx_quote-initiate_fx_settlement req w v fx q fresh rates quoted initiated =
    let (s, sells) = sold req w fx fresh initiated in
    let (b, buys) = bought req w fx fresh initiated in
    let (x, found) = rate_found req w fx fresh initiated in
    let (p, priced) = price_found (quote_request req) v q quoted in
    let facts = quote_facts (quote_request req) v q quoted s sells in
    let same : p.applied ≡ x.0 =
      same_applied _ _ p x
        (rw
          (
            ← same_live w v req.sell_currency req.buy_currency rates,
            ← same_live w v req.buy_currency req.sell_currency rates,
          )
          priced)
        found in
    let row = queue_facts req x.0 x.1 s b w fx (was_queued req w fx fresh initiated) in
    let paid : b ≡ q.buy_amount =
      some_injective b q.buy_amount (sym buys ∙ ap (buy_amount_of s) (sym same) ∙ facts.1) in
    (
      row.2 ∙ sym same ∙ sym facts.2,
      row.0 ∙ ap (λ n. n * 10 ^ 10) (sym facts.0),
      row.1 ∙ ap (λ n. n * 10 ^ 10) paid,
      row.3,
    )
