-- ===== src/Fx/Routes.antt =====
-- The routes of services/fx-settlement/main.py.
pub mod Quoted
use stablecoin_infrastructur.Base.{
  ℕ, ◌+◌, ◌*◌, ◌/◌, ◌^◌, String, Bool, true, false, not, ◌&&◌, ◌∷◌, Option, none, some, ltb,
  if◌then◌else◌, find, exists,
}
use stablecoin_infrastructur.Models.Enums.{
  CurrencyCode, same_currency, SettlementStatus, SettlementRails,
}
use stablecoin_infrastructur.Models.Refs.{Ref, truthy, same_ref}
use stablecoin_infrastructur.Models.Events.{Event}
use stablecoin_infrastructur.Models.Rows.{FxRate, FxSettlement, StatusHistory}
use stablecoin_infrastructur.Models.Database.{Database}
use stablecoin_infrastructur.Shared.Session.{
  Action, Result, ok, err, Error, http, invalid_operation, division_by_zero, pure, gets, or_raise,
  raise_if, insert, uuid4, get_db_session, ◌>>=◌, ◌>>◌,
}
use stablecoin_infrastructur.Shared.Money.{Decimal, quantize, context_precision}
use stablecoin_infrastructur.Shared.Status.{record_status, insert_outbox_event}
use stablecoin_infrastructur.Shared.Tables.{get_account, require_active, ref_or_mint}
use stablecoin_infrastructur.Fx.Rates.{
  get_live_rate, buy_quote, sell_quote, apply_spread, invert, in_context,
}

pub record FxQuoteRequest : Type 0 where
  pub sell_currency : CurrencyCode
  pub sell_amount : Decimal
  pub buy_currency : CurrencyCode

-- Amounts and rates are in units of 10^-8.
pub record FxQuoteResponse : Type 0 where
  pub sell_currency : CurrencyCode
  pub sell_amount : ℕ
  pub buy_currency : CurrencyCode
  pub buy_amount : ℕ
  pub applied_rate : ℕ
  pub mid_rate : ℕ
  pub spread_bps : Option ℕ
  pub quote_valid_until : ℕ

-- What a route finds out about the rate of a pair.
pub record Priced : Type 0 where
  pub applied : ℕ
  pub mid : ℕ
  pub spread : Option ℕ

abbrev inverted : Option ℕ → Option ℕ → Option ℕ → Result Priced
inverted (some applied) (some mid) spread =
    ok (record { applied = applied; mid = mid; spread = spread })
inverted _ _ spread = err division_by_zero

-- The rate of the pair, or else the rate of the inverse pair, inverted.
abbrev pub quoted_rate : (direct inverse : Option FxRate) → Result Priced
quoted_rate (some r) inverse =
    ok (record { applied = apply_spread r buy_quote; mid = r.mid_rate; spread = r.spread_bps })
quoted_rate none (some r) =
    inverted (invert (apply_spread r sell_quote)) (invert r.mid_rate) r.spread_bps
quoted_rate none none = err (http 404 "No FX rate available")

-- `(sell_amount * applied).quantize(PRECISION, rounding=ROUND_DOWN)`
unfoldable pub buy_amount_of : (sell_amount applied : ℕ) → Option ℕ
unfolding in_context
buy_amount_of sell_amount applied =
    let n = in_context (sell_amount * applied) / 10 ^ 8 in
    if ltb n context_precision then some n else none

abbrev pub lift : {A : Type 0} → Result A → Action A
lift r w = (r, w)

-- POST /fx/quote
unfoldable pub get_fx_quote : FxQuoteRequest → Action FxQuoteResponse
unfolding get_db_session
get_fx_quote req = get_db_session (do
  raise_if (same_currency req.sell_currency req.buy_currency)
      (http 400 "Sell and buy currencies must differ")
  direct ← gets (λ w. get_live_rate req.sell_currency req.buy_currency w.db)
  inverse ← gets (λ w. get_live_rate req.buy_currency req.sell_currency w.db)
  rate ← lift (quoted_rate direct inverse)
  sell_amount ← or_raise (quantize 8 req.sell_amount) invalid_operation
  buy_amount ← or_raise (buy_amount_of sell_amount rate.applied) invalid_operation
  now ← gets (λ w. w.now)
  pure (record {
    sell_currency = req.sell_currency;
    sell_amount = sell_amount;
    buy_currency = req.buy_currency;
    buy_amount = buy_amount;
    applied_rate = rate.applied;
    mid_rate = rate.mid;
    spread_bps = rate.spread;
    quote_valid_until = now + 30;
  }))

pub record InitiateFxSettlementRequest : Type 0 where
  pub sending_account_id : ℕ
  pub receiving_account_id : ℕ
  pub sell_currency : CurrencyCode
  pub sell_amount : Decimal
  pub buy_currency : CurrencyCode
  pub rails : SettlementRails
  pub idempotency_key : Option Ref

abbrev pub settlement_of : Ref → Database → Option FxSettlement
settlement_of r db = find (λ s. same_ref s.settlement_ref r) db.fx_settlements

abbrev pub existing_settlement : Option Ref → Database → Option FxSettlement
existing_settlement none db = none
existing_settlement (some r) db = settlement_of r db

-- The applied rate and the id of the row that it comes from.
abbrev inverted_of : ℕ → Option ℕ → Result (ℕ × ℕ)
inverted_of id (some applied) = ok (applied, id)
inverted_of id none = err division_by_zero

abbrev pub settled_rate : (direct inverse : Option FxRate) → Result (ℕ × ℕ)
settled_rate (some r) inverse = ok (apply_spread r buy_quote, r.id)
settled_rate none (some r) = inverted_of r.id (invert (apply_spread r sell_quote))
settled_rate none none = err (http 404 "No FX rate available")

-- The unique column and the CHECKs of `fx_settlements`.
abbrev insert_settlement : FxSettlement → Action (Unit {0})
insert_settlement s w =
    insert
      (not (exists (λ r. same_ref r.settlement_ref s.settlement_ref) w.db.fx_settlements)
        && ltb 0 s.sell_amount
        && ltb 0 s.buy_amount
        && not (same_currency s.sell_currency s.buy_currency))
      (λ db. record db { fx_settlements = s ∷ db.fx_settlements }) w

-- The amounts of the row are in units of the journal.
abbrev to_journal : ℕ → ℕ
to_journal n = n * 10 ^ 10

-- The part of `initiate_fx_settlement` that stores the settlement; the response is read off the row.
unfoldable pub queue_settlement :
    InitiateFxSettlementRequest
    → (applied_rate fx_rate_id sell_amount buy_amount : ℕ) → Action FxSettlement
unfolding record_status insert_outbox_event
queue_settlement req applied_rate fx_rate_id sell_amount buy_amount = do
  ref ← ref_or_mint (truthy req.idempotency_key) "FXS"
  id ← uuid4
  now ← gets (λ w. w.now)
  let fx : FxSettlement = record {
    id = id;
    settlement_ref = ref;
    sending_account_id = req.sending_account_id;
    receiving_account_id = req.receiving_account_id;
    sell_currency = req.sell_currency;
    sell_amount = to_journal sell_amount;
    buy_currency = req.buy_currency;
    buy_amount = to_journal buy_amount;
    applied_rate = applied_rate;
    fx_rate_id = fx_rate_id;
    rails = req.rails;
    status = SettlementStatus.queued;
    sell_txn_id = none;
    buy_txn_id = none;
    created_at = now;
    settled_at = none;
    token_leg = none;
    fiat_leg = none;
  }
  insert_settlement fx
  record_status StatusHistory.fx_settlement id "queued"
  insert_outbox_event ref "fx.settlement.initiated" (
      Event.fx_settlement_initiated ref req.sending_account_id req.receiving_account_id
        req.sell_currency (to_journal sell_amount) req.buy_currency (to_journal buy_amount)
        applied_rate req.rails)
  pure fx

-- What stands between the idempotency guard and that part.
unfoldable pub initiate_new : InitiateFxSettlementRequest → Action FxSettlement
unfolding require_active
initiate_new req = do
  sender ← gets (λ w. get_account req.sending_account_id w.db)
  receiver ← gets (λ w. get_account req.receiving_account_id w.db)
  require_active sender "Sending account not found"
  require_active receiver "Receiving account not found"
  direct ← gets (λ w. get_live_rate req.sell_currency req.buy_currency w.db)
  inverse ← gets (λ w. get_live_rate req.buy_currency req.sell_currency w.db)
  rate ← lift (settled_rate direct inverse)
  sell_amount ← or_raise (quantize 8 req.sell_amount) invalid_operation
  buy_amount ← or_raise (buy_amount_of sell_amount rate.0) invalid_operation
  queue_settlement req rate.0 rate.1 sell_amount buy_amount

abbrev pub or_initiate : Option FxSettlement → Action FxSettlement → Action FxSettlement
or_initiate (some s) m = pure s
or_initiate none m = m

-- POST /fx/settle
unfoldable pub initiate_fx_settlement : InitiateFxSettlementRequest → Action FxSettlement
unfolding get_db_session
initiate_fx_settlement req = get_db_session (do
  raise_if (same_currency req.sell_currency req.buy_currency) (http 400 "Currency pair must differ")
  found ← gets (λ w. existing_settlement (truthy req.idempotency_key) w.db)
  or_initiate found (initiate_new req))

-- GET /fx/settlements/{settlement_ref}
unfoldable pub get_fx_settlement : Ref → Action FxSettlement
get_fx_settlement ref = get_db_session (do
  found ← gets (λ w. settlement_of ref w.db)
  or_raise found (http 404 "FX settlement not found"))
