-- ===== src/Gateway/Tests.antt =====
-- Runs of api-gateway.
use Prim.Native.String.{◌++◌}
use stablecoin_infrastructur.Base.{
  ℕ, ◌≤◌, ◌≡◌, ◌⊎◌, refl, String, [], ◌∷◌, List, true, false, Option, some, none, arith, length,
  select,
}
use stablecoin_infrastructur.Models.Enums.{trader}
use stablecoin_infrastructur.Models.Database.{empty_database}
use stablecoin_infrastructur.Shared.Session.{World, ok}
use stablecoin_infrastructur.Shared.Access.{require_role}
use stablecoin_infrastructur.Gateway.Limiter.{put, limiter, is_allowed, answers}
use stablecoin_infrastructur.Gateway.Limiter.Window.{
  InOrder, fresh, times_of, log_answers, answers-log_answers,
}
use stablecoin_infrastructur.Gateway.Limiter.Bound.{passed, in_window, answers_bounded}
use stablecoin_infrastructur.Gateway.Keys.{
  contains, match_route_role, ApiKey, actor_of, granted, raw_key_of, require_api_key,
}
use stablecoin_infrastructur.Gateway.Keys.Authorized.{HasKey, HasLegacyKey, require_api_key-granted}
use stablecoin_infrastructur.Gateway.Proxy.{received, client_headers, set_item, proxy_headers}
use stablecoin_infrastructur.Gateway.Proxy.Headers.{first_value, received_forged}

-- Two requests in ten ticks are allowed; "a" asks four times.
abbrev requests : List (String × ℕ)
requests = ("a", 1) ∷ ("b", 2) ∷ ("a", 5) ∷ ("a", 9) ∷ ("a", 12) ∷ []

abbrev in_order : InOrder 0 requests
in_order = (omega arith, (omega arith, (omega arith, (omega arith, (omega arith, tt)))))

answers-run : answers requests (fresh 10 2) ≡ true ∷ true ∷ true ∷ false ∷ true ∷ []
unfolding answers is_allowed put
answers-run = refl

answers-log_answers_example : answers requests (fresh 10 2) ≡ log_answers 10 2 requests []
answers-log_answers_example = answers-log_answers 10 2 requests in_order

answers_bounded_example :
    length
      (select (in_window 10 3) (times_of "a" (passed (answers requests (fresh 10 2)) requests)))
    ≤ 2
answers_bounded_example = answers_bounded 10 2 3 "a" requests in_order

abbrev trader_key : ApiKey
trader_key = record {
  key_hash = "#k1";
  actor_id = 5;
  actor_name = "desk";
  role = trader;
  is_active = true;
  expires_at = some 1;
}

abbrev toy_hash : String → String
toy_hash s = "#" ++ s

granted-run :
    (require_api_key toy_hash "gw"
      (some "k1")
      none
      (some (trader_key ∷ []))
      "/v1/fx/settle"
      7
      limiter).0
    ≡ granted "k1" (actor_of trader_key)
unfolding require_api_key match_route_role contains is_allowed
granted-run = refl

require_api_key-granted_example :
    (raw_key_of (some "k1") none ≡ some "k1")
    × (HasLegacyKey toy_hash "gw" (trader_key ∷ []) "k1" (actor_of trader_key)
        ⊎ HasKey toy_hash (trader_key ∷ []) "/v1/fx/settle" "k1" (actor_of trader_key))
    × ((is_allowed "k1" 7 limiter).0 ≡ true)
require_api_key-granted_example =
    require_api_key-granted toy_hash "gw" (trader_key ∷ []) "/v1/fx/settle" (some "k1") none 7
      limiter "k1" (actor_of trader_key) granted-run

-- The trader signs a settlement as actor 9.
abbrev forged : List (String × String)
forged = ("host", "bank") ∷ ("x-actor-role", "signer") ∷ ("x-actor-id", "9") ∷ []

abbrev parse : String → Option ℕ
parse s = some 9

abbrev show : ℕ → String
show n = "5"

abbrev idle : World
idle = record { db = empty_database; now = 0; next_uuid = 0; block_counter = 0; locks = [] }

forged_role-run : first_value "X-Actor-Role" (client_headers forged) ≡ some "signer"
unfolding first_value client_headers set_item
forged_role-run = refl

forged_id-run : first_value "X-Actor-ID" (client_headers forged) ≡ some "9"
unfolding first_value client_headers set_item
forged_id-run = refl

received_forged_example :
    (received first_value parse (proxy_headers show forged "r1" (actor_of trader_key))
      ≡ record { actor_role = "signer"; actor_id = some 9 })
    × ((require_role
          ("signer" ∷ [])
          (received first_value parse (proxy_headers show forged "r1" (actor_of trader_key)))
          idle).0
        ≡ ok tt)
received_forged_example =
    received_forged first_value parse show forged "r1" "signer" "9" (actor_of trader_key)
      ("signer" ∷ []) idle (λ name hs. refl) (refl, (refl, (refl, tt))) forged_role-run
      forged_id-run refl
