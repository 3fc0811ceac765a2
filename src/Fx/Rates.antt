-- ===== src/Fx/Rates.antt =====
-- The rates of services/fx-settlement/main.py: the live rate of a pair, its spread, and the handler of
-- rate updates. Rates are in units of 10^-8, and spreads, in basis points, in units of 10^-4.
pub mod Spread
pub mod Live
use stablecoin_infrastructur.Base.{
  ℕ, suc, zero, ◌+◌, ◌-◌, ◌*◌, ◌/◌, ◌^◌, String, Bool, true, false, not, ◌&&◌, List, [], ◌∷◌,
  Option, none, some, ltb, leb, ◌==◌, if◌then◌else◌, select, update, exists,
}
use stablecoin_infrastructur.Models.Enums.{CurrencyCode, same_currency}
use stablecoin_infrastructur.Models.Rows.{FxRate}
use stablecoin_infrastructur.Models.Database.{Database}
use stablecoin_infrastructur.Shared.Session.{
  World, Action, pure, gets, modify, insert, uuid4, get_db_session, ◌>>=◌, ◌>>◌,
}
use stablecoin_infrastructur.Shared.Money.{half_even, context_precision}

-- ORDER BY valid_from DESC LIMIT 1; no two rates of a pair are valid from the same time.
unfoldable pub newest : List FxRate → Option FxRate
newest [] = none
newest (r ∷ rs) = elim (newest rs) [
  | none ↦ some r
  | some t ↦ if ltb r.valid_from t.valid_from then some t else some r
]

unfoldable pub is_live : (base quote : CurrencyCode) → FxRate → Bool
is_live base quote r =
    same_currency r.base_currency base && same_currency r.quote_currency quote && r.is_active

unfoldable pub get_live_rate : (base quote : CurrencyCode) → Database → Option FxRate
unfolding newest
get_live_rate base quote db = newest (select (is_live base quote) db.fx_rates)

pub data Direction : Type 0 where
  buy_quote sell_quote : Direction

-- 10 basis points, unless the rate has a spread other than 0.
abbrev pub spread_of : FxRate → ℕ
spread_of r = elim r.spread_bps [ none ↦ 10 * 10 ^ 4 | some s ↦ if s == 0 then 10 * 10 ^ 4 else s ]

-- `_apply_spread`. With the digits of its columns, mid ± mid · spread / 20000 is exact in the decimal
-- context, so that only `quantize` rounds. A spread is below 10000 bps, so the bid is positive.
unfoldable pub apply_spread : FxRate → Direction → ℕ
apply_spread r buy_quote = half_even (r.mid_rate * (2 * 10 ^ 8 + spread_of r)) (2 * 10 ^ 8)
apply_spread r sell_quote = half_even (r.mid_rate * (2 * 10 ^ 8 - spread_of r)) (2 * 10 ^ 8)

-- How many digits of n lie beyond the 28 of the decimal context; the fuel bounds them.
unfoldable pub excess : (fuel : ℕ) → ℕ → ℕ
excess zero n = 0
excess (suc fuel) n =
    let rest = excess fuel (n / 10) in if ltb n context_precision then 0 else suc rest

-- A number in the decimal context: rounded to 28 digits, half to even. A product of two numbers of 28
-- digits has 56 at most.
unfoldable pub in_context : ℕ → ℕ
unfolding half_even excess
in_context n = half_even n (10 ^ excess 28 n) * 10 ^ excess 28 n

-- The places at which n / d has 28 digits, if it has fewer before the point.
unfoldable pub places_of : (fuel : ℕ) → (n d places : ℕ) → ℕ
places_of zero n d places = places
places_of (suc fuel) n d places =
    let more = places_of fuel n d (suc places) in
    if leb (d * 10 ^ 27) (n * 10 ^ places) then places else more

-- `(Decimal("1") / rate).quantize(RATE_PREC)`: rounded to 28 digits, and then to 8 places. A rate has at
-- most 18 digits, so 45 places are enough.
unfoldable pub invert : ℕ → Option ℕ
unfolding half_even places_of
invert rate =
    if rate == 0
    then none
    else let k = places_of 45 (10 ^ 8) rate 0 in
      some (half_even (half_even (10 ^ 8 * 10 ^ k) rate * 10 ^ 8) (10 ^ k))

-- The message that updates a rate.
pub record FxRateUpdated : Type 0 where
  pub base_currency : CurrencyCode
  pub quote_currency : CurrencyCode
  pub mid_rate : ℕ
  pub bid_rate : Option ℕ
  pub ask_rate : Option ℕ
  pub source : String

abbrev pub deactivated : FxRate → FxRate
deactivated r = record r { is_active = false }

-- UNIQUE (base_currency, quote_currency, valid_from)
abbrev pub insert_rate : FxRate → Action (Unit {0})
insert_rate r w =
    insert
      (not (
        exists
          (λ t.
            same_currency t.base_currency r.base_currency
            && same_currency t.quote_currency r.quote_currency
            && t.valid_from == r.valid_from)
          w.db.fx_rates))
      (λ db. record db { fx_rates = r ∷ db.fx_rates }) w

abbrev pub new_rate : FxRateUpdated → (id now : ℕ) → FxRate
new_rate payload id now = record {
  id = id;
  base_currency = payload.base_currency;
  quote_currency = payload.quote_currency;
  mid_rate = payload.mid_rate;
  bid_rate = payload.bid_rate;
  ask_rate = payload.ask_rate;
  spread_bps = none;
  source = payload.source;
  is_active = true;
  valid_from = now;
}

-- The body of the handler's session.
unfoldable pub replace_rate : FxRateUpdated → Action FxRate
replace_rate payload = do
  modify (λ db. record db {
    fx_rates =
        update (is_live payload.base_currency payload.quote_currency) deactivated db.fx_rates;
  })
  id ← uuid4
  now ← gets (λ w. w.now)
  insert_rate (new_rate payload id now)
  pure (new_rate payload id now)

-- `_rate_update_handler`: an exception is rolled back and logged.
unfoldable pub rate_update_handler : FxRateUpdated → World → World
rate_update_handler payload w = (get_db_session (replace_rate payload) w).1

-- GET /fx/rates, newest first.
unfoldable pub insert_newest : FxRate → List FxRate → List FxRate
insert_newest r [] = r ∷ []
insert_newest r (t ∷ ts) =
    let rest = insert_newest r ts in if leb t.valid_from r.valid_from then r ∷ t ∷ ts else t ∷ rest

unfoldable pub newest_first : List FxRate → List FxRate
unfolding insert_newest
newest_first [] = []
newest_first (r ∷ rs) = insert_newest r (newest_first rs)

unfoldable pub get_fx_rates : Database → List FxRate
unfolding newest_first
get_fx_rates db = newest_first (select (λ r. r.is_active) db.fx_rates)
