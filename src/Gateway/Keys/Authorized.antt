-- ===== src/Gateway/Keys/Authorized.antt =====
-- Who gets through `require_api_key`.
use stablecoin_infrastructur.Base.{
  ℕ, String, ◌≡◌, ◌⊎◌, inl, inr, refl, ap, subst, true, List, [], ◌∷◌, Option, none, some, str_eq,
  eq_iff, arith, Bool-cases,
}
use stablecoin_infrastructur.Models.Enums.{role_value}
use stablecoin_infrastructur.Gateway.Limiter.{SimpleRateLimiter, is_allowed}
use stablecoin_infrastructur.Gateway.Keys.{
  match_route_role, ApiKey, Actor, Auth, granted, denied, raw_key_of, legacy, actor_of, permits,
  resolve_api_key, identify, limit, authenticate, require_api_key,
}

-- The key of a row that is active, whose role the path permits.
pub record HasKey (sha256 : String → String) (rows : List ApiKey) (path key : String)
    (actor : Actor) : Type 0 where
  pub row : ApiKey
  pub resolved : resolve_api_key sha256 (some rows) key ≡ some row
  pub active : row.is_active ≡ true
  pub hashed : row.key_hash ≡ sha256 key
  pub permitted : permits (match_route_role path) (role_value row.role) ≡ true
  pub acts : actor ≡ actor_of row

-- The one key of the deployment, which no active row has, and which may do everything.
pub record HasLegacyKey (sha256 : String → String) (gateway : String) (rows : List ApiKey)
    (key : String) (actor : Actor) : Type 0 where
  pub is_gateway_key : key ≡ gateway
  pub unlisted : resolve_api_key sha256 (some rows) key ≡ none
  pub acts : actor ≡ legacy

found-row :
    (sha256 : String → String) (rows : List ApiKey) (key : String) (row : ApiKey)
    → resolve_api_key sha256 (some rows) key ≡ some row
    → (row.is_active ≡ true) × (row.key_hash ≡ sha256 key)
found-row sha256 [] key row h = cc
found-row sha256 (r ∷ rows) key row h =
    ground (arith, found-row sha256 rows key row, eq_iff r.key_hash (sha256 key))

module _ (sha256 : String → String) (gateway : String) (rows : List ApiKey) (path : String) where
  identify-granted :
      (o : Option ApiKey) (raw key : String) (actor : Actor)
      → resolve_api_key sha256 (some rows) raw ≡ o
      → identify sha256 gateway o raw path ≡ granted key actor
      → (raw ≡ key)
        × (HasLegacyKey sha256 gateway rows raw actor ⊎ HasKey sha256 rows path raw actor)
  identify-granted none raw key actor r h = elim (Bool-cases (str_eq raw gateway)) [
    | inl e ↦ (
      ground arith,
      inl (record { is_gateway_key = (eq_iff raw gateway).0 e; unlisted = r; acts = ground arith }),
    )
    | inr n ↦ absurd (ground arith)
  ]
  identify-granted (some k) raw key actor r h =
      elim (Bool-cases (permits (match_route_role path) (role_value k.role))) [
        | inl p ↦ (
          ground arith,
          inr (record {
            row = k;
            resolved = r;
            active = (found-row sha256 rows raw k r).0;
            hashed = (found-row sha256 rows raw k r).1;
            permitted = p;
            acts = ground arith;
          }),
        )
        | inr n ↦ absurd (ground arith)
      ]

  limit-granted :
      (a : Auth) (key : String) (actor : Actor) (now : ℕ) (l : SimpleRateLimiter)
      → (limit sha256 gateway a now l).0 ≡ granted key actor
      → (a ≡ granted key actor) × ((is_allowed key now l).0 ≡ true)
  limit-granted (denied e) key actor now l h = cc
  limit-granted (granted k b) key actor now l h = ground arith

  authenticate-granted :
      (o : Option String) (now : ℕ) (l : SimpleRateLimiter) (key : String) (actor : Actor)
      → (authenticate sha256 gateway o (some rows) path now l).0 ≡ granted key actor
      → (o ≡ some key)
        × (HasLegacyKey sha256 gateway rows key actor ⊎ HasKey sha256 rows path key actor)
        × ((is_allowed key now l).0 ≡ true)
  authenticate-granted none now l key actor h = cc
  authenticate-granted (some raw) now l key actor h =
      let (known, allowed) =
        limit-granted (identify sha256 gateway (resolve_api_key sha256 (some rows) raw) raw path)
          key actor now l h in
      let (same, who) =
        identify-granted (resolve_api_key sha256 (some rows) raw) raw key actor refl known in
      (
        ap some same,
        subst (λ k. HasLegacyKey sha256 gateway rows k actor ⊎ HasKey sha256 rows path k actor) same
            who,
        allowed,
      )

  -- A request that gets through carried either the key of an active row, whose role its path permits,
  -- and acts as that row's actor; or, where no active row has its key, the key of the deployment, and
  -- acts as an administrator. In both cases its key was within the rate limit.
  pub require_api_key-granted :
      (header query : Option String) (now : ℕ) (l : SimpleRateLimiter) (key : String)
      (actor : Actor)
      → (require_api_key sha256 gateway header query (some rows) path now l).0 ≡ granted key actor
      → (raw_key_of header query ≡ some key)
        × (HasLegacyKey sha256 gateway rows key actor ⊎ HasKey sha256 rows path key actor)
        × ((is_allowed key now l).0 ≡ true)
  unfolding require_api_key
  require_api_key-granted header query now l key actor h =
      authenticate-granted (raw_key_of header query) now l key actor h
