-- ===== src/Compliance.antt =====
-- services/compliance-monitor/main.py: the rules, and the screening of one transaction. Amounts are in
-- units of 10^-18; the rounding of a product of more than 28 digits is left out.
pub mod Handler
mod Tests
use Prim.Native.Char.{code}
use stablecoin_infrastructur.Base.{
  ℕ, suc, ◌+◌, ◌-◌, ◌*◌, ◌^◌, String, Bool, true, false, not, ◌&&◌, ◌||◌, List, [], ◌∷◌, ◌++◌, map,
  Option, none, some, ltb, leb, ◌==◌, str_eq, if◌then◌else◌, length, select,
}

pub data Flag : Type 0 where
  large_transaction potential_structuring : (amount : ℕ) (currency : String) → Flag
  high_velocity : (transactions : ℕ) (account_id : String) → Flag
  sanctions_hit : (pattern : String) → Flag

-- `amount * fx_approx.get(currency, 1)`, in units of 10^-20.
abbrev pub usd_equiv : ℕ → String → ℕ
usd_equiv amount currency =
    if str_eq currency "EUR"
    then amount * 109
    else if str_eq currency "GBP"
    then amount * 127
    else amount * 100

abbrev pub large_transaction_usd : ℕ
large_transaction_usd = 1000000 * 10 ^ 20

abbrev pub structuring_window_usd : ℕ
structuring_window_usd = 9500 * 10 ^ 20

unfoldable pub check_large_transaction : ℕ → String → List Flag
check_large_transaction amount currency =
    if leb large_transaction_usd (usd_equiv amount currency)
    then large_transaction amount currency ∷ []
    else []

unfoldable pub check_structuring : ℕ → String → List Flag
check_structuring amount currency =
    if leb structuring_window_usd (usd_equiv amount currency)
      && ltb (usd_equiv amount currency) large_transaction_usd
    then potential_structuring amount currency ∷ []
    else []

-- `_velocity_tracker`; times are in seconds, and stand oldest first.
abbrev pub Tracker : Type 0
Tracker = List (String × List ℕ)

abbrev pub history : String → Tracker → List ℕ
history a [] = []
history a ((b, ts) ∷ t) = if str_eq b a then ts else history a t

unfoldable pub set_history : String → List ℕ → Tracker → Tracker
set_history a ts [] = (a, ts) ∷ []
set_history a ts ((b, us) ∷ t) =
    let rest = set_history a ts t in if str_eq b a then (a, ts) ∷ t else (b, us) ∷ rest

-- `recent[-n:]`
unfoldable pub last_of : ℕ → List ℕ → List ℕ
last_of n [] = []
last_of n (x ∷ xs) = let rest = last_of n xs in if leb (length (x ∷ xs)) n then x ∷ xs else rest

abbrev pub recent : String → ℕ → Tracker → List ℕ
recent a now t = select (λ x. ltb now (x + 3600)) (history a t) ++ (now ∷ [])

abbrev pub velocity_per_hour : ℕ
velocity_per_hour = 20

unfoldable pub check_velocity : String → ℕ → Tracker → List Flag × Tracker
unfolding set_history last_of
check_velocity a now t = (
  if ltb velocity_per_hour (length (recent a now t))
      then high_velocity (length (recent a now t)) a ∷ []
      else [],
  set_history a (last_of 100 (recent a now t)) t,
)

-- `str.upper` on ASCII letters, as code points.
abbrev to_upper : ℕ → ℕ
to_upper c = if leb b'a' c && leb c b'z' then c - 32 else c

abbrev upper : String → List ℕ
upper String.[] = []
upper (String.◌∷◌ c s) = to_upper (code c) ∷ upper s

abbrev codes : String → List ℕ
codes String.[] = []
codes (String.◌∷◌ c s) = code c ∷ codes s

abbrev is_prefix : List ℕ → List ℕ → Bool
is_prefix [] s = true
is_prefix (a ∷ p) [] = false
is_prefix (a ∷ p) (b ∷ s) = a == b && is_prefix p s

abbrev is_infix : List ℕ → List ℕ → Bool
is_infix p [] = is_prefix p []
is_infix p (b ∷ s) = is_prefix p (b ∷ s) || is_infix p s

abbrev pub sanctions_patterns : List String
sanctions_patterns =
    "DPRK" ∷ "IRAN" ∷ "SUKHOI" ∷ "SBERBANK" ∷ "TETHER_FRAUD" ∷ "LAZARUS" ∷ "SANCTIONED"
    ∷ "BLOCKED_ENTITY" ∷ []

unfoldable pub check_sanctions : String → List Flag
check_sanctions entity_name =
    map sanctions_hit (select (λ p. is_infix (codes p) (upper entity_name)) sanctions_patterns)

pub record Screening : Type 0 where
  pub entity_type : String
  pub account_id : String
  pub amount : ℕ
  pub currency : String
  pub event_type : String

-- What is written to `compliance_events`, and published through the outbox.
pub record ComplianceEvent : Type 0 where
  pub screening : Screening
  pub flags : List Flag
  pub result : String
  pub score : ℕ

-- `_stats`, and the events written.
pub record Monitor : Type 0 where
  pub tracker : Tracker
  pub processed : List String
  pub events : List ComplianceEvent
  pub events_processed : ℕ
  pub alerts_raised : ℕ
  pub passes : ℕ

abbrev pub is_clean : List Flag → Bool
is_clean [] = true
is_clean (f ∷ fs) = false

abbrev min : ℕ → ℕ → ℕ
min a b = if leb a b then a else b

unfoldable pub verdict : Screening → List Flag → ComplianceEvent
verdict s flags = record {
  screening = s;
  flags = flags;
  result = if is_clean flags then "pass" else "fail";
  score = min 100 (length flags * 25);
}

-- The rules in their order.
unfoldable pub all_flags : (entity_name : String) (now : ℕ) → Screening → Tracker → List Flag
unfolding check_large_transaction check_structuring check_velocity check_sanctions
all_flags entity_name now s t =
    check_large_transaction s.amount s.currency
    ++ check_structuring s.amount s.currency
    ++ (check_velocity s.account_id now t).0
    ++ check_sanctions entity_name

-- `_run_screening`, with the name that `_resolve_account_name` found.
unfoldable pub run_screening : (entity_name : String) (now : ℕ) → Screening → Monitor → Monitor
unfolding all_flags verdict
run_screening entity_name now s m =
    let flags = all_flags entity_name now s m.tracker in
    record m {
      tracker = (check_velocity s.account_id now m.tracker).1;
      events = verdict s flags ∷ m.events;
      events_processed = suc m.events_processed;
      alerts_raised = if is_clean flags then m.alerts_raised else suc m.alerts_raised;
      passes = if is_clean flags then suc m.passes else m.passes;
    }
