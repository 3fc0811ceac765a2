-- ===== src/Signing/Node.antt =====
-- services/mpc-node/main.py. SHA-256 and `json.dumps(payload, sort_keys=True)` are parameters.
use Prim.Native.String.{◌++◌}
use stablecoin_infrastructur.Base.{String, Option, none, some, str_eq, if◌then◌else◌}
use stablecoin_infrastructur.Models.Json.{JsonDict}
use stablecoin_infrastructur.Signing.{NodeAnswer, answered}

module _ (sha256 : String → String) (dumps : JsonDict → String) where
  unfoldable pub compute_partial_signature : (node_id : String) → JsonDict → String
  compute_partial_signature node_id payload = sha256 (node_id ++ dumps payload)

  -- POST /sign, where `none` is a body that is not JSON; an answer with an error has no partial
  -- signature.
  unfoldable pub handle_node_sign : (node_id : String) → Option JsonDict → NodeAnswer
  unfolding compute_partial_signature
  handle_node_sign node_id request = if str_eq node_id "" then answered 500 none else elim request [
    | none ↦ answered 400 none
    | some payload ↦ answered 200 (some (compute_partial_signature node_id payload))
  ]
