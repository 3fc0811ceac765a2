-- ===== src/Shared/Access.antt =====
-- shared/state_machine.py, shared/rbac.py and shared/context.py: which transitions are valid, who may
-- act, and who acts.
use Prim.Native.Char.{code}
use stablecoin_infrastructur.Base.{
  ℕ, ◌+◌, String, List, [], ◌∷◌, Bool, true, false, not, ◌&&◌, Option, none, some, ◌==◌, leb,
  str_eq, if◌then◌else◌, exists,
}
use stablecoin_infrastructur.Shared.Session.{Action, http, raise_if}

-- The code points of a text, in lower case (`str.lower` on ASCII letters).
abbrev to_lower : ℕ → ℕ
to_lower c = if leb b'A' c && leb c b'Z' then c + 32 else c

abbrev pub lower : String → List ℕ
lower String.[] = []
lower (String.◌∷◌ c s) = to_lower (code c) ∷ lower s

abbrev pub same_codes : List ℕ → List ℕ → Bool
same_codes [] [] = true
same_codes (a ∷ s) (b ∷ t) = a == b && same_codes s t
same_codes _ _ = false

-- A text among the members of a set, or among the keys of a dict, after `lower`.
abbrev pub member : List ℕ → List String → Bool
member s set = exists (λ t. same_codes s (lower t)) set

abbrev pub TransitionMap : Type 0
TransitionMap = List (String × List String)

-- `transition_map.get(current_lower, set())`
abbrev pub targets : List ℕ → TransitionMap → List String
targets s [] = []
targets s ((k, ts) ∷ m) = if same_codes s (lower k) then ts else targets s m

abbrev pub rtgs_valid_transitions : TransitionMap
rtgs_valid_transitions =
    ("pending", "approved" ∷ "cancelled" ∷ [])
    ∷ ("approved", "signed" ∷ "cancelled" ∷ [])
    ∷ ("signed", "processing" ∷ "cancelled" ∷ [])
    ∷ ("processing", "broadcasted" ∷ "failed" ∷ [])
    ∷ ("broadcasted", "confirmed" ∷ "failed" ∷ [])
    ∷ ("confirmed", "settled" ∷ [])
    ∷ ("settled", [])
    ∷ ("failed", "pending" ∷ [])
    ∷ ("cancelled", [])
    ∷ []

abbrev pub fx_valid_transitions : TransitionMap
fx_valid_transitions =
    ("queued", "processing" ∷ "cancelled" ∷ [])
    ∷ ("processing", "settled" ∷ "failed" ∷ [])
    ∷ ("settled", [])
    ∷ ("failed", "queued" ∷ [])
    ∷ ("cancelled", [])
    ∷ []

unfoldable pub is_valid_transition : String → String → TransitionMap → Bool
is_valid_transition current target m = member (lower target) (targets (lower current) m)

-- 409 unless the target is allowed.
unfoldable pub validate_transition : String → String → TransitionMap → Action (Unit {0})
validate_transition current target m =
    raise_if (not (is_valid_transition current target m)) (http 409 "Invalid transition")

-- The headers that the gateway sets. `actor_id` is the uuid of X-Actor-ID, if it parses.
pub record Request : Type 0 where
  pub actor_role : String
  pub actor_id : Option ℕ

-- The dependency `require_role(*allowed_roles)`.
unfoldable pub require_role : List String → Request → Action (Unit {0})
require_role allowed_roles request =
    raise_if (not (exists (λ r. str_eq request.actor_role r) allowed_roles))
      (http 403 "Role not authorized")

-- Two actors as texts: an absent actor is the empty text, which is no uuid's text.
abbrev pub same_actor : Option ℕ → Option ℕ → Bool
same_actor none none = true
same_actor (some a) (some b) = a == b
same_actor _ _ = false

unfoldable pub check_separation_of_duties : Option ℕ → Option ℕ → Action (Unit {0})
check_separation_of_duties approved_by signed_by =
    raise_if (same_actor approved_by signed_by)
      (http 403 "Separation of duties: approver and signer must differ")
