-- ===== src/Signing.antt =====
-- services/signing-gateway/main.py, and `_sign_settlement`, its client in
-- services/fx-settlement/main.py. SHA-256 and the HTTP client that reaches a node are parameters.
pub mod Texts
pub mod Node
pub mod Majority
pub mod AnyOrder
mod Tests
use Prim.Native.String.{◌++◌}
use stablecoin_infrastructur.Base.{
  ℕ, String, Bool, true, false, not, List, [], ◌∷◌, Option, none, some, ◌+◌, ◌/◌, ◌==◌, ltb, str_eq,
  if◌then◌else◌, length, select, map,
}
use stablecoin_infrastructur.Models.Json.{JsonDict}
use stablecoin_infrastructur.Signing.Texts.{split, strip, rstrip_slash, concat, sort}

-- `none` is the RuntimeError of an empty list.
unfoldable pub parse_mpc_nodes : (mpc_nodes_raw : String) → Option (List String)
unfolding split strip
parse_mpc_nodes mpc_nodes_raw =
    let nodes = select (λ n. not (str_eq n "")) (map strip (split "," mpc_nodes_raw)) in
    elim nodes [ [] ↦ none | n ∷ ns ↦ some (n ∷ ns) ]

unfoldable pub compute_threshold : ℕ → ℕ
compute_threshold total_nodes = total_nodes / 2 + 1

unfoldable pub combine_signatures : (sha256 : String → String) → List String → String
unfolding sort concat
combine_signatures sha256 partials = sha256 (concat (sort partials))

-- What a POST to a node gives: a status with the partial signature that a JSON body has, or an
-- exception, of which a body that is not JSON is one.
pub data NodeAnswer : Type 0 where
  answered : (status : ℕ) → (partial_signature : Option String) → NodeAnswer
  failed : NodeAnswer

abbrev pub NodeClient : Type 0
NodeClient = (url : String) → JsonDict → NodeAnswer

abbrev pub partial_of : NodeAnswer → Option String
partial_of (answered status partial_signature) = if status == 200 then partial_signature else none
partial_of failed = none

unfoldable pub collect_partial : NodeClient → String → JsonDict → Option String
unfolding rstrip_slash
collect_partial client node_url payload =
    partial_of (client (rstrip_slash node_url ++ "/sign") payload)

-- `if result: partials.append(result)`
abbrev pub add_partial : Option String → List String → List String
add_partial none partials = partials
add_partial (some s) partials = if str_eq s "" then partials else s ∷ partials

-- The loop over the nodes, one call after another; the first node's answer stands first.
unfoldable pub collect_partials : NodeClient → JsonDict → List String → List String
unfolding collect_partial
collect_partials client payload [] = []
collect_partials client payload (node_url ∷ nodes) =
    add_partial (collect_partial client node_url payload) (collect_partials client payload nodes)

pub record Signed : Type 0 where
  pub transaction_id : String
  pub signature : String
  pub partials_collected : ℕ
  pub threshold : ℕ

-- The answer of the gateway's POST /sign; `runtime_error` is the uncaught one.
pub data SignAnswer : Type 0 where
  signed : Signed → SignAnswer
  invalid_json missing_field runtime_error : SignAnswer
  threshold_not_met : (received threshold total_nodes : ℕ) → SignAnswer

abbrev pub sign_status : SignAnswer → ℕ
sign_status (signed s) = 200
sign_status invalid_json = 400
sign_status missing_field = 400
sign_status runtime_error = 500
sign_status (threshold_not_met received threshold total_nodes) = 503

unfoldable pub fan_out_and_combine :
    (sha256 : String → String)
    → NodeClient
    → List String
    → (threshold : ℕ) (transaction_id : String) → JsonDict
    → SignAnswer
unfolding collect_partials combine_signatures
fan_out_and_combine sha256 client nodes threshold transaction_id payload =
    let partials = collect_partials client payload nodes in
    if ltb (length partials) threshold
    then threshold_not_met (length partials) threshold (length nodes)
    else signed (record {
      transaction_id = transaction_id;
      signature = combine_signatures sha256 partials;
      partials_collected = length partials;
      threshold = threshold;
    })

-- The fields of the JSON body that the handler reads; a missing field is null.
pub record SignBody : Type 0 where
  pub transaction_id : Option String
  pub payload : Option JsonDict

abbrev pub sign_with :
    (sha256 : String → String) → NodeClient → Option (List String) → String → JsonDict → SignAnswer
sign_with sha256 client none transaction_id payload = runtime_error
sign_with sha256 client (some nodes) transaction_id payload =
    fan_out_and_combine sha256 client nodes (compute_threshold (length nodes)) transaction_id
      payload

abbrev pub sign_fields :
    (sha256 : String → String)
    → NodeClient
    → (mpc_nodes_raw : String) → Option String
    → Option JsonDict
    → SignAnswer
sign_fields sha256 client mpc_nodes_raw none payload = missing_field
sign_fields sha256 client mpc_nodes_raw (some transaction_id) none = missing_field
sign_fields sha256 client mpc_nodes_raw (some transaction_id) (some payload) =
    if str_eq transaction_id ""
    then missing_field
    else sign_with sha256 client (parse_mpc_nodes mpc_nodes_raw) transaction_id payload

unfoldable pub handle_sign :
    (sha256 : String → String)
    → NodeClient
    → (mpc_nodes_raw : String) → Option SignBody
    → SignAnswer
unfolding parse_mpc_nodes fan_out_and_combine compute_threshold
handle_sign sha256 client mpc_nodes_raw none = invalid_json
handle_sign sha256 client mpc_nodes_raw (some body) =
    sign_fields sha256 client mpc_nodes_raw body.transaction_id body.payload

-- What the caller of the gateway reads of an answer.
abbrev pub signature_of : SignAnswer → String
signature_of (signed s) = s.signature
signature_of _ = ""

-- `_sign_settlement`: `gateway` is the POST to the gateway, and `none` an exception of it.
unfoldable pub sign_fx_settlement :
    (gateway : SignBody → Option SignAnswer) → (settlement_ref : String) → JsonDict → String
sign_fx_settlement gateway settlement_ref settlement_data =
    elim (gateway
      (record { transaction_id = some settlement_ref; payload = some settlement_data })) [
        | none ↦ ""
        | some answer ↦ signature_of answer
      ]
