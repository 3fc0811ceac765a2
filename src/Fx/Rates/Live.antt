-- ===== src/Fx/Rates/Live.antt =====
-- Which rates are live after an update.
use stablecoin_infrastructur.Base.{
  ℕ, ◌≡◌, refl, sym, ap, Bool, true, false, ◌&&◌, List, [], ◌∷◌, some, inl, inr, arith, ◌==◌,
  if◌then◌else◌, select, update, Bool-cases,
}
use stablecoin_infrastructur.Models.Enums.{CurrencyCode, currency_ordinal, same_currency}
use stablecoin_infrastructur.Models.Rows.{FxRate}
use stablecoin_infrastructur.Shared.Session.{World, ok, get_db_session}
use stablecoin_infrastructur.Fx.Rates.{
  newest, is_live, get_live_rate, FxRateUpdated, deactivated, new_rate, replace_rate,
  rate_update_handler,
}

select_updated :
    (p : FxRate → Bool) (f : FxRate → FxRate) (rs : List FxRate)
    → ((r : FxRate) → p (f r) ≡ false)
    → select p (update p f rs) ≡ []
select_updated p f [] gone = refl
select_updated p f (r ∷ rs) gone = elim (Bool-cases (p r)) [
  | inl y ↦ rw (y, gone r) (select_updated p f rs gone)
  | inr n ↦ rw (n, n) (select_updated p f rs gone)
]

select_others :
    (p q : FxRate → Bool) (f : FxRate → FxRate) (rs : List FxRate)
    → ((r : FxRate) → p r ≡ true → q r ≡ false)
    → ((r : FxRate) → q (f r) ≡ false)
    → select q (update p f rs) ≡ select q rs
select_others p q f [] apart gone = refl
select_others p q f (r ∷ rs) apart gone = elim (Bool-cases (p r)) [
  | inl y ↦ rw (y, gone r, apart r y) (select_others p q f rs apart gone)
  | inr n ↦ rw n (ap (λ l. if q r then r ∷ l else l) (select_others p q f rs apart gone))
]

and_false : (a b : Bool) → (a && b && false) ≡ false
and_false a b = ground arith

deactivated-live : (b q : CurrencyCode) (r : FxRate) → is_live b q (deactivated r) ≡ false
unfolding is_live
deactivated-live b q r =
    and_false (same_currency r.base_currency b) (same_currency r.quote_currency q)

abbrev pub same_pair : (b q b' q' : CurrencyCode) → Bool
same_pair b q b' q' = same_currency b b' && same_currency q q'

apart_ordinals :
    (x y b q b' q' : ℕ) (a : Bool)
    → (x == b && y == q && a) ≡ true
    → (b == b' && q == q') ≡ false
    → (x == b' && y == q' && a) ≡ false
apart_ordinals x y b q b' q' a h d = ground arith

live_apart :
    (b q b' q' : CurrencyCode) (r : FxRate)
    → same_pair b q b' q' ≡ false
    → is_live b q r ≡ true
    → is_live b' q' r ≡ false
unfolding is_live
live_apart b q b' q' r d h =
    apart_ordinals (currency_ordinal r.base_currency) (currency_ordinal r.quote_currency)
      (currency_ordinal b) (currency_ordinal q) (currency_ordinal b') (currency_ordinal q')
      r.is_active h d

new_rate-live :
    (payload : FxRateUpdated) (id now : ℕ)
    → is_live payload.base_currency payload.quote_currency (new_rate payload id now) ≡ true
unfolding is_live
new_rate-live payload id now =
    same_ordinals (currency_ordinal payload.base_currency) (currency_ordinal payload.quote_currency)
  where
    same_ordinals : (x y : ℕ) → (x == x && y == y && true) ≡ true
    same_ordinals x y = ground arith

-- What the table holds after an update.
updated :
    (payload : FxRateUpdated) (w : World) (r : FxRate)
    → (get_db_session (replace_rate payload) w).0 ≡ ok r
    → (r ≡ new_rate payload w.next_uuid w.now)
      × ((rate_update_handler payload w).db.fx_rates
          ≡ new_rate payload w.next_uuid w.now
            ∷ update
                (is_live payload.base_currency payload.quote_currency)
                deactivated
                w.db.fx_rates)
unfolding rate_update_handler replace_rate get_db_session
updated payload w r h = (ground arith, ground arith)

module _ (payload : FxRateUpdated) (w : World) (r : FxRate)
    (h : (get_db_session (replace_rate payload) w).0 ≡ ok r) where
  one_live :
      select
        (is_live payload.base_currency payload.quote_currency)
        (rate_update_handler payload w).db.fx_rates
      ≡ r ∷ []
  one_live =
      rw
        (
          (updated payload w r h).1,
          new_rate-live payload w.next_uuid w.now,
          select_updated (is_live payload.base_currency payload.quote_currency) deactivated
              w.db.fx_rates (deactivated-live payload.base_currency payload.quote_currency),
        )
        (ap (λ t. t ∷ []) (sym (updated payload w r h).0))

  others_live :
      (b q : CurrencyCode)
      → same_pair payload.base_currency payload.quote_currency b q ≡ false
      → select (is_live b q) (rate_update_handler payload w).db.fx_rates
        ≡ select (is_live b q) w.db.fx_rates
  others_live b q d =
      rw
        (
          (updated payload w r h).1,
          live_apart payload.base_currency payload.quote_currency b q
              (new_rate payload w.next_uuid w.now) d (new_rate-live payload w.next_uuid w.now),
        )
        (select_others (is_live payload.base_currency payload.quote_currency) (is_live b q)
          deactivated w.db.fx_rates
          (λ t. live_apart payload.base_currency payload.quote_currency b q t d)
          (deactivated-live b q))

-- An update that is carried out leaves one live rate of its pair, which has the mid rate of the message
-- and is the one that is found; the live rates of every other pair stay as they were.
pub rate_update_handler-live :
    (payload : FxRateUpdated) (w : World) (r : FxRate)
    → (get_db_session (replace_rate payload) w).0 ≡ ok r
    → (r.mid_rate ≡ payload.mid_rate)
      × (select
            (is_live payload.base_currency payload.quote_currency)
            (rate_update_handler payload w).db.fx_rates
          ≡ r ∷ [])
      × (get_live_rate payload.base_currency payload.quote_currency
            (rate_update_handler payload w).db
          ≡ some r)
      × ((b q : CurrencyCode)
          → same_pair payload.base_currency payload.quote_currency b q ≡ false
          → get_live_rate b q (rate_update_handler payload w).db ≡ get_live_rate b q w.db)
unfolding get_live_rate
rate_update_handler-live payload w r h = (
  ap (λ t. t.mid_rate) (updated payload w r h).0,
  one_live payload w r h,
  ap newest (one_live payload w r h),
  λ b q d. ap newest (others_live payload w r h b q d),
)
