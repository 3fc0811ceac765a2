-- ===== src/Payments/Condition.antt =====
-- `evaluate_condition` of services/payment-engine/main.py. `datetime.fromisoformat` is a parameter:
-- the instant of a text, if the text is in the ISO format.
pub mod Signers
use stablecoin_infrastructur.Base.{
  ℕ, suc, String, Bool, true, false, not, ◌&&◌, List, [], ◌∷◌, Option, none, some, ltb, leb, ◌==◌,
  str_eq, if◌then◌else◌, length, exists, select,
}
use stablecoin_infrastructur.Models.Enums.{
  ConditionType, time_lock, oracle_trigger, multi_sig, delivery_confirmation, kyc_verified,
}
use stablecoin_infrastructur.Models.Json.{Json, JsonDict, get, same_value}
use stablecoin_infrastructur.Shared.Session.{
  Result, ok, err, key_error, type_error, value_error, not_iso_format,
}

-- `params["release_at"]`, read by `fromisoformat`.
abbrev instant : (String → Option ℕ) → Option Json → Result ℕ
instant iso none = err key_error
instant iso (some (Json.text s)) = elim (iso s) [
  | none ↦ err (value_error not_iso_format)
  | some t ↦ ok t
]
instant iso (some _) = err type_error

-- The elements that `set(v)` has: a text gives its letters.
abbrev letters : String → List String
letters String.[] = []
letters (String.◌∷◌ c s) = String.◌∷◌ c String.[] ∷ letters s

abbrev pub elements : Option Json → Result (List String)
elements none = ok []
elements (some (Json.texts ss)) = ok ss
elements (some (Json.text s)) = ok (letters s)
elements (some (Json.num n)) = err type_error
elements (some (Json.bool b)) = err type_error

abbrev pub mem : String → List String → Bool
mem s ss = exists (λ t. str_eq s t) ss

-- A set has each element once.
unfoldable pub to_set : List String → List String
to_set [] = []
to_set (s ∷ ss) = let rest = to_set ss in if mem s ss then rest else s ∷ rest

-- `len(required & received)`
unfoldable pub common : List String → List String → ℕ
unfolding to_set
common required received = length (select (λ s. mem s received) (to_set required))

abbrev to_num : Bool → ℕ
to_num true = 1
to_num false = 0

-- `params.get("threshold", len(required))`, as the right side of `>=`.
abbrev pub threshold : Option Json → List String → Result ℕ
threshold none required = ok (length (to_set required))
threshold (some (Json.num n)) required = ok n
threshold (some (Json.bool b)) required = ok (to_num b)
threshold (some _) required = err type_error

abbrev compare_signers : Result (List String) → Result (List String) → Option Json → Result Bool
compare_signers (err e) received limit = err e
compare_signers (ok required) (err e) limit = err e
compare_signers (ok required) (ok received) limit = elim (threshold limit required) [
  | ok n ↦ ok (leb n (common required received))
  | err e ↦ err e
]

-- `v is True`
abbrev is_true : Option Json → Bool
is_true (some (Json.bool b)) = b
is_true _ = false

-- `bool(v)`
abbrev truth : Option Json → Bool
truth none = false
truth (some (Json.bool b)) = b
truth (some (Json.num n)) = not (n == 0)
truth (some (Json.text s)) = not (str_eq s "")
truth (some (Json.texts [])) = false
truth (some (Json.texts (s ∷ ss))) = true

abbrev pub is_empty : JsonDict → Bool
is_empty [] = true
is_empty (x ∷ d) = false

unfoldable pub evaluate_condition :
    (fromisoformat : String → Option ℕ) (now : ℕ)
    → ConditionType
    → (params trigger_data : JsonDict) → Result Bool
unfolding common
evaluate_condition iso now time_lock params trigger = elim (instant iso (get "release_at" params)) [
  | ok t ↦ ok (leb t now)
  | err e ↦ err e
]
evaluate_condition iso now oracle_trigger params trigger =
    if is_empty trigger
    then ok false
    else ok (
        same_value (get "oracle_key" trigger) (get "oracle_key" params)
        && same_value (get "oracle_value" trigger) (get "expected_value" params))
evaluate_condition iso now multi_sig params trigger =
    if is_empty trigger
    then ok false
    else compare_signers (elements (get "required_signers" params))
        (elements (get "signatures" trigger)) (get "threshold" params)
evaluate_condition iso now delivery_confirmation params trigger =
    if is_empty trigger
    then ok false
    else ok (
        same_value (get "delivery_ref" trigger) (get "delivery_ref" params)
        && is_true (get "confirmed" trigger))
evaluate_condition iso now kyc_verified params trigger =
    ok (not (is_empty trigger) && truth (get "kyc_cleared" trigger))
