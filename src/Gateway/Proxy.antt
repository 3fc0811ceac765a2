-- ===== src/Gateway/Proxy.antt =====
-- `_proxy` of services/api-gateway/main.py: the headers that reach a service, and its answer. The HTTP
-- client is a parameter.
pub mod Headers
use Prim.Native.Char.{code}
use stablecoin_infrastructur.Base.{
  ℕ, String, Bool, true, false, not, List, [], ◌∷◌, Option, none, some, str_eq, if◌then◌else◌,
  select,
}
use stablecoin_infrastructur.Shared.Access.{lower, member, Request}
use stablecoin_infrastructur.Gateway.Keys.{Actor}

-- A dict from names to values, in the order of insertion; its names differ in case also.
abbrev pub Headers : Type 0
Headers = List (String × String)

-- `headers[name] = value`
unfoldable pub set_item : String → String → Headers → Headers
set_item k v [] = (k, v) ∷ []
set_item k v ((j, u) ∷ hs) =
    let rest = set_item k v hs in if str_eq j k then (j, v) ∷ hs else (j, u) ∷ rest

-- A dict comprehension: of two items with one name, the last counts.
abbrev pub to_dict : List (String × String) → Headers → Headers
to_dict [] d = d
to_dict ((k, v) ∷ items) d = to_dict items (set_item k v d)

abbrev pub excluded : List String
excluded = "host" ∷ "x-api-key" ∷ "content-length" ∷ []

-- What the gateway keeps of the client's own headers.
unfoldable pub client_headers : List (String × String) → Headers
unfolding set_item
client_headers items = to_dict (select (λ h. not (member (lower h.0) excluded)) items) []

abbrev pub set_optional : String → Option ℕ → (ℕ → String) → Headers → Headers
set_optional k none show hs = hs
set_optional k (some n) show hs = set_item k (show n) hs

-- `show` gives the text of a uuid.
unfoldable pub proxy_headers :
    (show : ℕ → String) → List (String × String) → (request_id : String) → Actor → Headers
unfolding set_item client_headers
proxy_headers show items request_id actor = set_item "X-Actor-Name" actor.actor_name (
    set_item "X-Actor-Role" actor.actor_role (
      set_optional "X-Actor-ID" actor.actor_id show (
        set_item "X-Actor-Service" "api-gateway"
          (set_item "X-Request-ID" request_id (client_headers items)))))

pub record UpstreamRequest : Type 0 where
  pub method : String
  pub url : String
  pub content : String
  pub params : List (String × String)
  pub headers : Headers

pub record Response : Type 0 where
  pub status_code : ℕ
  pub content : String
  pub headers : Headers

pub data UpstreamAnswer : Type 0 where
  answered : Response → UpstreamAnswer
  connect_error timeout_exception : UpstreamAnswer

pub data ProxyResult : Type 0 where
  passed_on : Response → ProxyResult
  http_exception : (status_code : ℕ) → ProxyResult

abbrev pub pass_on : UpstreamAnswer → ProxyResult
pass_on (answered r) = passed_on r
pass_on connect_error = http_exception 503
pass_on timeout_exception = http_exception 504

pub record ClientRequest : Type 0 where
  pub method : String
  pub body : String
  pub query_params : List (String × String)
  pub headers : List (String × String)

unfoldable pub proxy :
    (client : UpstreamRequest → UpstreamAnswer) (show : ℕ → String)
    → ClientRequest
    → (url request_id : String) → Actor
    → ProxyResult
unfolding proxy_headers
proxy client show request url request_id actor = pass_on (
    client (record {
      method = request.method;
      url = url;
      content = request.body;
      params = to_dict request.query_params [];
      headers = proxy_headers show request.headers request_id actor;
    }))

-- `request.headers.get(name, "")`
abbrev pub or_empty : Option String → String
or_empty none = ""
or_empty (some s) = s

-- What `require_role` and `extract_context` read in a service; `get` is the lookup in its headers.
abbrev pub received :
    (get : String → Headers → Option String) (parse_uuid : String → Option ℕ) → Headers → Request
received get parse_uuid hs = record {
  actor_role = or_empty (get "X-Actor-Role" hs);
  actor_id = parse_uuid (or_empty (get "X-Actor-ID" hs));
}
