-- ===== src/Fx/Rates/Spread.antt =====
-- The two sides of a rate.
use stablecoin_infrastructur.Base.{ℕ, ◌+◌, ◌*◌, ◌^◌, ◌≤◌, arith}

le_of_scaled : (q m : ℕ) → 2 * (q * (2 * 10 ^ 8)) ≤ 2 * (m * (2 * 10 ^ 8)) + 2 * 10 ^ 8 → q ≤ m
le_of_scaled q m h = omega arith
