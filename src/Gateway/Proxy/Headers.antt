-- ===== src/Gateway/Proxy/Headers.antt =====
-- What a service reads from the headers that the gateway sends it.
use Prim.Native.Char.{code}
use stablecoin_infrastructur.Base.{
  ℕ, String, ◌≡◌, refl, ap, ◌∙◌, Bool, true, false, not, List, [], ◌∷◌, Option, none, some, str_eq,
  eq_iff, if◌then◌else◌, select, exists, arith, Bool-cases, inl, inr,
}
use stablecoin_infrastructur.Shared.Access.{lower, same_codes, member, require_role}
use stablecoin_infrastructur.Shared.Session.{World, ok}
use stablecoin_infrastructur.Gateway.Keys.{Actor}
use stablecoin_infrastructur.Gateway.Proxy.{
  Headers, set_item, to_dict, excluded, client_headers, set_optional, proxy_headers, received,
}

-- The value of the first header of that name, whatever the case of either.
unfoldable pub first_value : String → Headers → Option String
first_value name [] = none
first_value name ((k, v) ∷ hs) =
    if same_codes (lower k) (lower name) then some v else first_value name hs

abbrev has_name : String → Headers → Bool
has_name k [] = false
has_name k ((j, v) ∷ hs) = if str_eq j k then true else has_name k hs

-- A name that the dict does not have, in that case, is set behind all others.
first_value-set_item :
    (name k v x : String) (hs : Headers)
    → has_name k hs ≡ false
    → first_value name hs ≡ some x
    → first_value name (set_item k v hs) ≡ some x
unfolding first_value set_item
first_value-set_item name k v x [] n h = cc
first_value-set_item name k v x ((j, u) ∷ hs) n h =
    ground (arith, first_value-set_item name k v x hs)

has_name-set_item :
    (i k v : String) (hs : Headers)
    → str_eq k i ≡ false
    → has_name i hs ≡ false
    → has_name i (set_item k v hs) ≡ false
unfolding set_item
has_name-set_item i k v [] d h = ground arith
has_name-set_item i k v ((j, u) ∷ hs) d h = ground (arith, has_name-set_item i k v hs)

-- The server hands the names of a request's headers over in lower case.
abbrev codes : String → List ℕ
codes String.[] = []
codes (String.◌∷◌ c s) = code c ∷ codes s

abbrev pub is_lower_case : String → Bool
is_lower_case s = same_codes (codes s) (lower s)

abbrev pub AllLower : List (String × String) → Type 0
AllLower [] = Unit {0}
AllLower ((k, v) ∷ items) = (is_lower_case k ≡ true) × AllLower items

lower_differs :
    (j k : String) → is_lower_case j ≡ true → is_lower_case k ≡ false → str_eq j k ≡ false
lower_differs j k a b = elim (Bool-cases (str_eq j k)) [
  | inl e ↦ absurd (cc (a, b, ap is_lower_case ((eq_iff j k).0 e)))
  | inr n ↦ n
]

select-AllLower :
    (p : (String × String) → Bool) (items : List (String × String))
    → AllLower items
    → AllLower (select p items)
select-AllLower p [] h = tt
select-AllLower p ((k, v) ∷ items) h = elim (Bool-cases (p (k, v))) [
  | inl y ↦ rw y (h.0, select-AllLower p items h.1)
  | inr n ↦ rw n (select-AllLower p items h.1)
]

has_name-to_dict :
    (i : String) (items : List (String × String)) (d : Headers)
    → is_lower_case i ≡ false
    → AllLower items
    → has_name i d ≡ false
    → has_name i (to_dict items d) ≡ false
has_name-to_dict i [] d n h e = e
has_name-to_dict i ((k, v) ∷ items) d n h e =
    has_name-to_dict i items (set_item k v d) n h.1
      (has_name-set_item i k v d (lower_differs k i h.0 n) e)

has_name-client_headers :
    (i : String) (items : List (String × String))
    → is_lower_case i ≡ false
    → AllLower items
    → has_name i (client_headers items) ≡ false
unfolding client_headers
has_name-client_headers i items n h =
    has_name-to_dict i (select (λ h. not (member (lower h.0) excluded)) items) [] n
      (select-AllLower (λ h. not (member (lower h.0) excluded)) items h) refl

has_name-set_optional :
    (i k : String) (o : Option ℕ) (show : ℕ → String) (hs : Headers)
    → str_eq k i ≡ false
    → has_name i hs ≡ false
    → has_name i (set_optional k o show hs) ≡ false
has_name-set_optional i k none show hs d h = h
has_name-set_optional i k (some n) show hs d h = has_name-set_item i k (show n) hs d h

first_value-set_optional :
    (name k x : String) (o : Option ℕ) (show : ℕ → String) (hs : Headers)
    → has_name k hs ≡ false
    → first_value name hs ≡ some x
    → first_value name (set_optional k o show hs) ≡ some x
first_value-set_optional name k x none show hs n h = h
first_value-set_optional name k x (some m) show hs n h =
    first_value-set_item name k (show m) x hs n h

module _ (show : ℕ → String) (items : List (String × String)) (rid : String) (actor : Actor)
    (lowered : AllLower items) where
  abbrev with_id : Headers
  with_id = set_item "X-Request-ID" rid (client_headers items)

  abbrev with_service : Headers
  with_service = set_item "X-Actor-Service" "api-gateway" with_id

  abbrev with_actor : Headers
  with_actor = set_optional "X-Actor-ID" actor.actor_id show with_service

  absent_through :
      (i : String)
      → is_lower_case i ≡ false
      → str_eq "X-Request-ID" i ≡ false
      → str_eq "X-Actor-Service" i ≡ false
      → has_name i with_service ≡ false
  absent_through i n a b = has_name-set_item i "X-Actor-Service" "api-gateway" with_id b (
      has_name-set_item i "X-Request-ID" rid (client_headers items) a
        (has_name-client_headers i items n lowered))

  -- The gateway's own headers come behind the client's.
  proxy_headers-client_headers :
      (name v : String)
      → first_value name (client_headers items) ≡ some v
      → first_value name (proxy_headers show items rid actor) ≡ some v
  unfolding proxy_headers
  proxy_headers-client_headers name v h =
      first_value-set_item name "X-Actor-Name" actor.actor_name v
        (set_item "X-Actor-Role" actor.actor_role with_actor)
        (has_name-set_item "X-Actor-Name" "X-Actor-Role" actor.actor_role with_actor refl (
          has_name-set_optional "X-Actor-Name" "X-Actor-ID" actor.actor_id show with_service refl
            (absent_through "X-Actor-Name" refl refl refl)))
        (first_value-set_item name "X-Actor-Role" actor.actor_role v with_actor
          (has_name-set_optional "X-Actor-Role" "X-Actor-ID" actor.actor_id show with_service refl
            (absent_through "X-Actor-Role" refl refl refl))
          (first_value-set_optional name "X-Actor-ID" v actor.actor_id show with_service
            (absent_through "X-Actor-ID" refl refl refl)
            (first_value-set_item name "X-Actor-Service" "api-gateway" v with_id
              (has_name-set_item "X-Actor-Service" "X-Request-ID" rid (client_headers items) refl
                (has_name-client_headers "X-Actor-Service" items refl lowered))
              (first_value-set_item name "X-Request-ID" rid v (client_headers items)
                (has_name-client_headers "X-Request-ID" items refl lowered) h))))

-- The client's word counts: suppose that a request's header names come in lower case and that a lookup
-- takes the first header of a name, whatever its case. If a client, whom the gateway knows as any
-- actor, sends an actor's id and a role of his own, then the service reads these and not the gateway's,
-- and `require_role` lets him pass wherever that role may.
pub received_forged :
    (get : String → Headers → Option String) (parse_uuid : String → Option ℕ) (show : ℕ → String)
    (items : List (String × String)) (rid role id : String) (actor : Actor) (roles : List String)
    (w : World)
    → ((name : String) (hs : Headers) → get name hs ≡ first_value name hs)
    → AllLower items
    → first_value "X-Actor-Role" (client_headers items) ≡ some role
    → first_value "X-Actor-ID" (client_headers items) ≡ some id
    → exists (λ r. str_eq role r) roles ≡ true
    → (received get parse_uuid (proxy_headers show items rid actor)
        ≡ record { actor_role = role; actor_id = parse_uuid id })
      × ((require_role roles (received get parse_uuid (proxy_headers show items rid actor)) w).0
          ≡ ok tt)
unfolding require_role
received_forged get parse_uuid show items rid role id actor roles w first lowered r i allowed =
    let as_role : get "X-Actor-Role" (proxy_headers show items rid actor) ≡ some role =
      first "X-Actor-Role" (proxy_headers show items rid actor)
      ∙ proxy_headers-client_headers show items rid actor lowered "X-Actor-Role" role r in
    let as_id : get "X-Actor-ID" (proxy_headers show items rid actor) ≡ some id =
      first "X-Actor-ID" (proxy_headers show items rid actor)
      ∙ proxy_headers-client_headers show items rid actor lowered "X-Actor-ID" id i in
    (rw (as_role, as_id) refl, rw (as_role, allowed) refl)
