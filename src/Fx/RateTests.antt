-- ===== src/Fx/RateTests.antt =====
-- Runs of the rates of fx-settlement.
use stablecoin_infrastructur.Base.{ℕ, ◌*◌, ◌^◌, ◌≡◌, refl, [], ◌∷◌, true, false, some, none, select}
use stablecoin_infrastructur.Models.Enums.{CurrencyCode, usd, eur, SettlementStatus, blockchain}
use stablecoin_infrastructur.Models.Refs.{key}
use stablecoin_infrastructur.Models.Rows.{Account, FxRate, FxSettlement}
use stablecoin_infrastructur.Models.Database.{empty_database}
use stablecoin_infrastructur.Shared.Session.{World, ok, get_db_session}
use stablecoin_infrastructur.Shared.Money.{half_even, quantize}
use stablecoin_infrastructur.Fx.Rates.{
  is_live, newest, get_live_rate, buy_quote, apply_spread, in_context, invert, FxRateUpdated,
  new_rate, replace_rate, rate_update_handler,
}
use stablecoin_infrastructur.Fx.Rates.Live.{same_pair, rate_update_handler-live}
use stablecoin_infrastructur.Fx.Routes.{
  FxQuoteResponse, buy_amount_of, get_fx_quote, InitiateFxSettlementRequest, queue_settlement,
  initiate_new, initiate_fx_settlement,
}
use stablecoin_infrastructur.Fx.Routes.Quoted.{quote_request, get_fx_quote-initiate_fx_settlement}

-- USD/EUR at 0.918, with a spread of 10.9 basis points.
abbrev usd_eur : FxRate
usd_eur = record {
  id = 1;
  base_currency = usd;
  quote_currency = eur;
  mid_rate = 91800000;
  bid_rate = none;
  ask_rate = none;
  spread_bps = some 109000;
  source = "internal";
  is_active = true;
  valid_from = 3;
}

-- 0.918 + 0.918 · 10.9 / 20000 = 0.91850031
ask-run : apply_spread usd_eur buy_quote ≡ 91850031
unfolding apply_spread half_even
ask-run = refl

-- 1 / 0.91749969
inverse-run : invert 91749969 ≡ some 108991862
unfolding invert
inverse-run = refl

abbrev bank : ℕ → Account
bank id = record {
  id = id;
  entity_name = "Bank";
  account_type = "institutional";
  is_active = true;
  kyc_verified = true;
  aml_cleared = true;
}

abbrev start : World
start = record {
  db = record empty_database { accounts = bank 12 ∷ bank 13 ∷ []; fx_rates = usd_eur ∷ [] };
  now = 7;
  next_uuid = 10;
  block_counter = 0;
  locks = [];
}

abbrev update_message : FxRateUpdated
update_message = record {
  base_currency = usd;
  quote_currency = eur;
  mid_rate = 92000000;
  bid_rate = none;
  ask_rate = none;
  source = "kafka";
}

abbrev UpdateLive : World → FxRate → Type 0
UpdateLive w r =
    (r.mid_rate ≡ 92000000)
    × (select (is_live usd eur) w.db.fx_rates ≡ r ∷ [])
    × (get_live_rate usd eur w.db ≡ some r)
    × ((b q : CurrencyCode)
        → same_pair usd eur b q ≡ false
        → get_live_rate b q w.db ≡ get_live_rate b q start.db)

rate_update_handler-live_example :
    UpdateLive (rate_update_handler update_message start) (new_rate update_message 10 7)
unfolding replace_rate get_db_session is_live
rate_update_handler-live_example =
    rate_update_handler-live update_message start (new_rate update_message 10 7) refl

abbrev request : InitiateFxSettlementRequest
request = record {
  sending_account_id = 12;
  receiving_account_id = 13;
  sell_currency = usd;
  sell_amount = record { digits = 100; scale = 0 };
  buy_currency = eur;
  rails = blockchain;
  idempotency_key = some (key "F1");
}

abbrev quote : FxQuoteResponse
quote = record {
  sell_currency = usd;
  sell_amount = 100 * 10 ^ 8;
  buy_currency = eur;
  buy_amount = 9185003100;
  applied_rate = 91850031;
  mid_rate = 91800000;
  spread_bps = some 109000;
  quote_valid_until = 37;
}

abbrev settlement : FxSettlement
settlement = record {
  id = 10;
  settlement_ref = key "F1";
  sending_account_id = 12;
  receiving_account_id = 13;
  sell_currency = usd;
  sell_amount = 100 * 10 ^ 18;
  buy_currency = eur;
  buy_amount = 9185003100 * 10 ^ 10;
  applied_rate = 91850031;
  fx_rate_id = 1;
  rails = blockchain;
  status = SettlementStatus.queued;
  sell_txn_id = none;
  buy_txn_id = none;
  created_at = 7;
  settled_at = none;
  token_leg = none;
  fiat_leg = none;
}

quote-run : (get_fx_quote (quote_request request) start).0 ≡ ok quote
unfolding get_fx_quote get_live_rate newest is_live apply_spread half_even quantize buy_amount_of
    in_context
quote-run = refl

settlement-run : (initiate_fx_settlement request start).0 ≡ ok settlement
unfolding initiate_fx_settlement initiate_new queue_settlement get_live_rate newest is_live
    apply_spread half_even quantize buy_amount_of in_context
settlement-run = refl

get_fx_quote-initiate_fx_settlement_example :
    (settlement.applied_rate ≡ quote.applied_rate)
    × (settlement.sell_amount ≡ quote.sell_amount * 10 ^ 10)
    × (settlement.buy_amount ≡ quote.buy_amount * 10 ^ 10)
    × (settlement.status ≡ SettlementStatus.queued)
get_fx_quote-initiate_fx_settlement_example =
    get_fx_quote-initiate_fx_settlement request start start settlement quote refl refl quote-run
      settlement-run
