-- ===== src/Gateway/Limiter.antt =====
-- `SimpleRateLimiter` of services/api-gateway/main.py. The readings of `time.monotonic()` are numbers
-- in the unit of the window.
pub mod Window
pub mod Bound
use stablecoin_infrastructur.Base.{
  ℕ, ◌+◌, String, Bool, true, false, List, [], ◌∷◌, ◌++◌, ltb, leb, str_eq, if◌then◌else◌, length,
  select,
}

-- `dict[str, list[float]]`; a key without an entry has the empty list.
abbrev pub Buckets : Type 0
Buckets = List (String × List ℕ)

abbrev pub bucket : String → Buckets → List ℕ
bucket k [] = []
bucket k ((j, ts) ∷ b) = if str_eq j k then ts else bucket k b

unfoldable pub put : String → List ℕ → Buckets → Buckets
put k ts [] = (k, ts) ∷ []
put k ts ((j, us) ∷ b) = let rest = put k ts b in if str_eq j k then (k, ts) ∷ b else (j, us) ∷ rest

pub record SimpleRateLimiter : Type 0 where
  pub window : ℕ
  pub max_req : ℕ
  pub buckets : Buckets

-- 1000 requests per 60 seconds.
abbrev pub limiter : SimpleRateLimiter
limiter = record { window = 60; max_req = 1000; buckets = [] }

-- `t > now - self.window`, where the cutoff may be negative.
abbrev pub is_recent : (window now : ℕ) → ℕ → Bool
is_recent window now t = ltb now (t + window)

abbrev pub purged : String → ℕ → SimpleRateLimiter → List ℕ
purged k now l = select (is_recent l.window now) (bucket k l.buckets)

unfoldable pub is_allowed : String → ℕ → SimpleRateLimiter → Bool × SimpleRateLimiter
unfolding put
is_allowed k now l =
    if leb l.max_req (length (purged k now l))
    then (false, record l { buckets = put k (purged k now l) l.buckets })
    else (true, record l { buckets = put k (purged k now l ++ (now ∷ [])) l.buckets })

-- The answers to a sequence of requests, each with its key and its time.
unfoldable pub answers : List (String × ℕ) → SimpleRateLimiter → List Bool
unfolding is_allowed
answers [] l = []
answers ((k, now) ∷ rest) l = (is_allowed k now l).0 ∷ answers rest (is_allowed k now l).1
