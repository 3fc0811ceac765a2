-- ===== src/Shared/Money/Rounding.antt =====
-- What rounding promises.
use native.Mathlib.Nat.{div-add-mod', mod-lt, one-le-pow}
use stablecoin_infrastructur.Base.{
  ℕ, ◌+◌, ◌-◌, ◌*◌, ◌/◌, ◌%◌, ◌^◌, ◌≤◌, ◌<◌, ◌≡◌, subst, ◌⊎◌, inl, inr, some, arith,
}
use stablecoin_infrastructur.Shared.Money.{
  Decimal, half_even, rounded, quantize, normalize, context_precision,
}

-- The result is the quotient or the next number, by where twice the remainder lies.
half_even_cases :
    (n d : ℕ)
    → ((half_even n d ≡ n / d) × (2 * (n % d) ≤ d))
      ⊎ ((half_even n d ≡ n / d + 1) × (d ≤ 2 * (n % d)))
unfolding half_even
half_even_cases n d = grind arith

pub half_even_nearest :
    (n d : ℕ)
    → 0 < d
    → (2 * (half_even n d * d) ≤ 2 * n + d) × (2 * n ≤ 2 * (half_even n d * d) + d)
half_even_nearest n d h = elim (half_even_cases n d) [
  | inl (e, low) ↦ rw e (omega (arith, div-add-mod' n d))
  | inr (e, high) ↦ rw e (omega (arith, div-add-mod' n d, mod-lt n {m = d} h))
]

pub half_even_tie : (n d : ℕ) → 0 < d → 2 * (n % d) ≡ d → half_even n d % 2 ≡ 0
unfolding half_even
half_even_tie n d p h = ground arith

-- What a quantized amount is: within the context's precision; exact when the places suffice; and
-- otherwise within half a unit of the decimal, and even where the decimal lies half way.
pub record IsRounding (places : ℕ) (d : Decimal) (q : ℕ) : Type 0 where
  pub fits : q < context_precision
  pub exact : d.scale ≤ places → q ≡ d.digits * 10 ^ (places - d.scale)
  pub above :
      places < d.scale → 2 * (q * 10 ^ (d.scale - places)) ≤ 2 * d.digits + 10 ^ (d.scale - places)
  pub below :
      places < d.scale → 2 * d.digits ≤ 2 * (q * 10 ^ (d.scale - places)) + 10 ^ (d.scale - places)
  pub even :
      places < d.scale
      → 2 * (d.digits % 10 ^ (d.scale - places)) ≡ 10 ^ (d.scale - places)
      → q % 2 ≡ 0

pow-pos : (k : ℕ) → 0 < 10 ^ k
pow-pos k = one-le-pow k 10 (omega arith)

rounded-IsRounding :
    (places : ℕ) (d : Decimal)
    → rounded places d < context_precision
    → IsRounding places d (rounded places d)
unfolding rounded
rounded-IsRounding places d h = record {
  fits = h;
  exact = λ e. ground arith;
  above = λ e. ground (arith, (half_even_nearest d.digits (10 ^ (d.scale - places)) (pow-pos _)).0);
  below = λ e. ground (arith, (half_even_nearest d.digits (10 ^ (d.scale - places)) (pow-pos _)).1);
  even = λ e tie. ground (arith, half_even_tie d.digits (10 ^ (d.scale - places)) (pow-pos _) tie);
}

quantize-eq :
    (places : ℕ) (d : Decimal) (q : ℕ)
    → quantize places d ≡ some q
    → (rounded places d < context_precision) × (rounded places d ≡ q)
unfolding quantize
quantize-eq places d q h = ground arith

quantize-IsRounding :
    (places : ℕ) (d : Decimal) (q : ℕ) → quantize places d ≡ some q → IsRounding places d q
quantize-IsRounding places d q h =
    let (lt, e) = quantize-eq places d q h in
    subst (IsRounding places d) e (rounded-IsRounding places d lt)

-- An amount that token-issuance normalizes is below 10^28, counted in units of the 18th place; it is exact
-- when the decimal has 18 places at most, and otherwise within half a unit of the 18th place, and even
-- where the decimal lies half way between two units.
pub normalize-IsRounding : (d : Decimal) (q : ℕ) → normalize d ≡ some q → IsRounding 18 d q
unfolding normalize
normalize-IsRounding d q h = quantize-IsRounding 18 d q h
