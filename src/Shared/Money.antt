-- ===== src/Shared/Money.antt =====
-- Decimal amounts and `quantize`, as the services call it on the amount of a request. A request's
-- amount is positive (`Field(gt=0)`), so a decimal is a number of digits and a scale.
pub mod Rounding
use stablecoin_infrastructur.Base.{
  ℕ, ◌+◌, ◌-◌, ◌*◌, ◌/◌, ◌%◌, ◌^◌, Option, none, some, ltb, leb, if◌then◌else◌,
}

-- The value is digits / 10 ^ scale.
pub record Decimal : Type 0 where
  pub digits : ℕ
  pub scale : ℕ

-- n / d, rounded to the nearest, and to the even neighbour on a tie: ROUND_HALF_EVEN.
unfoldable pub half_even : ℕ → ℕ → ℕ
half_even n d =
    if ltb (2 * (n % d)) d
    then n / d
    else if ltb d (2 * (n % d))
    then n / d + 1
    else n / d + (n / d) % 2

-- The number of units of 10 ^ -places that `quantize` rounds to.
unfoldable pub rounded : ℕ → Decimal → ℕ
unfolding half_even
rounded places d =
    if leb d.scale places
    then d.digits * 10 ^ (places - d.scale)
    else half_even d.digits (10 ^ (d.scale - places))

-- The precision of Python's default decimal context.
abbrev pub context_precision : ℕ
context_precision = 10 ^ 28

-- `none` is `decimal.InvalidOperation`: the result has more digits than the context's precision.
unfoldable pub quantize : ℕ → Decimal → Option ℕ
unfolding rounded
quantize places d =
    if ltb (rounded places d) context_precision then some (rounded places d) else none

-- `normalize` of token-issuance: 18 decimal places.
unfoldable pub normalize : Decimal → Option ℕ
unfolding quantize
normalize = quantize 18

abbrev to_journal_units : Option ℕ → Option ℕ
to_journal_units none = none
to_journal_units (some n) = some (n * 10 ^ 10)

-- `quantize(Decimal("0.00000001"), ROUND_HALF_EVEN)` of the other services, in units of 10^-18.
unfoldable pub quantize_8 : Decimal → Option ℕ
unfolding quantize
quantize_8 d = to_journal_units (quantize 8 d)
