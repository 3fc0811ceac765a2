-- ===== src/Gateway/Keys.antt =====
-- `require_api_key` of services/api-gateway/main.py, with the keys and the roles of shared/rbac.py.
-- `hash_api_key` (SHA-256) is a parameter.
pub mod Authorized
use text.Mathlib.Text.{starts_with}
use stablecoin_infrastructur.Base.{
  ℕ, String, Bool, true, false, not, ◌||◌, List, [], ◌∷◌, Option, none, some, str_eq, if◌then◌else◌,
  find, exists,
}
use stablecoin_infrastructur.Models.Enums.{UserRole, role_value}
use stablecoin_infrastructur.Gateway.Limiter.{SimpleRateLimiter, is_allowed}

-- `p in s`
unfoldable pub contains : String → String → Bool
contains p String.[] = starts_with String.[] p
contains p (String.◌∷◌ c s) = starts_with (String.◌∷◌ c s) p || contains p s

abbrev pub route_role_map : List (String × List String)
route_role_map =
    ("/tokens/issue", "admin" ∷ "trader" ∷ [])
    ∷ ("/tokens/redeem", "admin" ∷ "trader" ∷ [])
    ∷ ("/tokens/balance", "admin" ∷ "trader" ∷ "auditor" ∷ [])
    ∷ ("/accounts", "admin" ∷ [])
    ∷ ("/settlements/submit", "admin" ∷ "trader" ∷ [])
    ∷ ("/payments/conditional", "admin" ∷ "trader" ∷ [])
    ∷ ("/payments/escrow", "admin" ∷ "trader" ∷ [])
    ∷ ("/fx/settle", "admin" ∷ "trader" ∷ [])
    ∷ ("/fx/quote", "admin" ∷ "trader" ∷ [])
    ∷ ("/fx/rates", "admin" ∷ "trader" ∷ "auditor" ∷ [])
    ∷ []

abbrev pub approve_roles : List String
approve_roles = "admin" ∷ "approver" ∷ []

abbrev pub sign_roles : List String
sign_roles = "admin" ∷ "signer" ∷ []

abbrev pub first_route : String → List (String × List String) → Option (List String)
first_route path [] = none
first_route path ((prefix, roles) ∷ more) =
    if contains prefix path then some roles else first_route path more

unfoldable pub match_route_role : String → Option (List String)
unfolding contains
match_route_role path =
    if contains "/approve" path
    then some approve_roles
    else if contains "/sign" path
    then some sign_roles
    else first_route path route_role_map

-- A row of `api_keys`.
pub record ApiKey : Type 0 where
  pub key_hash : String
  pub actor_id : ℕ
  pub actor_name : String
  pub role : UserRole
  pub is_active : Bool
  pub expires_at : Option ℕ

-- `request.state`, as the dependency leaves it.
pub record Actor : Type 0 where
  pub actor_id : Option ℕ
  pub actor_role : String
  pub actor_name : String

pub data AuthError : Type 0 where
  missing_key invalid_key not_authorized rate_limit_exceeded : AuthError

abbrev pub auth_status : AuthError → ℕ
auth_status missing_key = 401
auth_status invalid_key = 401
auth_status not_authorized = 403
auth_status rate_limit_exceeded = 429

pub data Auth : Type 0 where
  granted : String → Actor → Auth
  denied : AuthError → Auth

-- A header or a query parameter, where the empty text counts as missing.
abbrev pub or_else : Option String → Option String → Option String
or_else (some s) other = if str_eq s "" then other else some s
or_else none other = other

abbrev present : Option String → Option String
present (some s) = if str_eq s "" then none else some s
present none = none

abbrev pub raw_key_of : (header query : Option String) → Option String
raw_key_of header query = present (or_else header query)

abbrev pub legacy : Actor
legacy = record { actor_id = none; actor_role = "admin"; actor_name = "legacy-key" }

abbrev pub actor_of : ApiKey → Actor
actor_of k = record {
  actor_id = some k.actor_id;
  actor_role = role_value k.role;
  actor_name = k.actor_name;
}

-- `if allowed_roles and role not in allowed_roles`
abbrev pub permits : Option (List String) → String → Bool
permits none role = true
permits (some []) role = true
permits (some (r ∷ roles)) role = exists (λ t. str_eq t role) (r ∷ roles)

-- The row's `expires_at` is not looked at. A table that does not exist yet gives no row.
abbrev pub resolve_api_key :
    (sha256 : String → String) → Option (List ApiKey) → String → Option ApiKey
resolve_api_key sha256 none raw_key = none
resolve_api_key sha256 (some keys) raw_key =
    find (λ k. if k.is_active then str_eq k.key_hash (sha256 raw_key) else false) keys

module _ (sha256 : String → String) (gateway_api_key : String) where
  abbrev pub identify : Option ApiKey → String → String → Auth
  identify none raw_key path =
      if str_eq raw_key gateway_api_key then granted raw_key legacy else denied invalid_key
  identify (some k) raw_key path =
      if permits (match_route_role path) (role_value k.role)
      then granted raw_key (actor_of k)
      else denied not_authorized

  -- Only a request that is let through so far is counted.
  abbrev pub limit : Auth → ℕ → SimpleRateLimiter → Auth × SimpleRateLimiter
  limit (denied e) now l = (denied e, l)
  limit (granted key actor) now l = (
    if (is_allowed key now l).0 then granted key actor else denied rate_limit_exceeded,
    (is_allowed key now l).1,
  )

  abbrev pub authenticate :
      Option String
      → Option (List ApiKey)
      → (path : String) (now : ℕ) → SimpleRateLimiter
      → Auth × SimpleRateLimiter
  authenticate none keys path now l = (denied missing_key, l)
  authenticate (some raw_key) keys path now l =
      limit (identify (resolve_api_key sha256 keys raw_key) raw_key path) now l

  unfoldable pub require_api_key :
      (header query : Option String)
      → Option (List ApiKey)
      → (path : String) (now : ℕ) → SimpleRateLimiter
      → Auth × SimpleRateLimiter
  require_api_key header query keys path now l =
      authenticate (raw_key_of header query) keys path now l
