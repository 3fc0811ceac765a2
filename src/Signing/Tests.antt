-- ===== src/Signing/Tests.antt =====
-- Runs of the signing gateway with three MPC nodes, one of which is down.
use Prim.Native.String.{◌++◌}
use mathlib.Core.List.Perm
use stablecoin_infrastructur.Base.{
  ◌≡◌, ◌≢◌, refl, String, true, ◌&&◌, List, [], ◌∷◌, some, exists, str_eq, if◌then◌else◌, ◌↔◌, ◌<◌,
  ◌*◌, length, select,
}
use stablecoin_infrastructur.Models.Json.{JsonDict, text}
use stablecoin_infrastructur.Signing.{
  NodeClient, failed, SignBody, signed, parse_mpc_nodes, sign_status, fan_out_and_combine,
  handle_sign, sign_fx_settlement,
}
use stablecoin_infrastructur.Signing.Node
use stablecoin_infrastructur.Signing.Majority.{
  gives_partial, handle_sign-overlap, handle_sign-majority,
}
use stablecoin_infrastructur.Signing.AnyOrder.{fan_out_and_combine-perm}

abbrev toy_sha : String → String
toy_sha s = "#" ++ s

abbrev toy_dumps : JsonDict → String
toy_dumps [] = "{}"
toy_dumps ((k, v) ∷ d) = k ++ ":"

abbrev payload : JsonDict
payload = ("sell_currency", text "EUR") ∷ []

-- Nodes a and b are up, in the first network, and b and c in the second.
abbrev first_network : NodeClient
first_network url p =
    if str_eq url "http://a/sign"
    then Node.handle_node_sign toy_sha toy_dumps "a" (some p)
    else if str_eq url "http://b/sign"
    then Node.handle_node_sign toy_sha toy_dumps "b" (some p)
    else failed

abbrev second_network : NodeClient
second_network url p =
    if str_eq url "http://c/sign"
    then Node.handle_node_sign toy_sha toy_dumps "c" (some p)
    else if str_eq url "http://b/sign"
    then Node.handle_node_sign toy_sha toy_dumps "b" (some p)
    else failed

abbrev mpc_nodes_raw : String
mpc_nodes_raw = " http://a/,http://b, ,http://c "

abbrev nodes : List String
nodes = "http://a/" ∷ "http://b" ∷ "http://c" ∷ []

parsed : parse_mpc_nodes mpc_nodes_raw ≡ some nodes
unfolding parse_mpc_nodes
parsed = refl

abbrev body : SignBody
body = record { transaction_id = some "tx-1"; payload = some payload }

handle_sign-run :
    handle_sign toy_sha first_network mpc_nodes_raw (some body)
    ≡ signed (record {
      transaction_id = "tx-1";
      signature = "##asell_currency:#bsell_currency:";
      partials_collected = 2;
      threshold = 2;
    })
unfolding handle_sign Node.handle_node_sign
handle_sign-run = refl

-- With one node of three, the gateway refuses, and `_sign_settlement` has no signature.
sign_fx_settlement-run :
    sign_fx_settlement
      (λ b. some (handle_sign toy_sha (λ url p. failed) mpc_nodes_raw (some b)))
      "FX-1"
      payload
    ≡ ""
unfolding sign_fx_settlement handle_sign
sign_fx_settlement-run = refl

named : ◌≢◌ {A = String} "tx-1" ""
named = λ e. cc

answered_200 : sign_status (handle_sign toy_sha first_network mpc_nodes_raw (some body)) ≡ 200
unfolding handle_sign Node.handle_node_sign
answered_200 = refl

answered_200_again :
    sign_status (handle_sign toy_sha second_network mpc_nodes_raw (some body)) ≡ 200
unfolding handle_sign Node.handle_node_sign
answered_200_again = refl

handle_sign-majority_example :
    (sign_status (
        handle_sign toy_sha first_network mpc_nodes_raw
          (some (record { transaction_id = some "tx-1"; payload = some payload })))
      ≡ 200)
    ↔ (length nodes < 2 * length (select (gives_partial first_network payload) nodes))
handle_sign-majority_example =
    handle_sign-majority toy_sha first_network mpc_nodes_raw "tx-1" payload parsed named

handle_sign-overlap_example :
    exists
      (λ n. gives_partial first_network payload n && gives_partial second_network payload n)
      nodes
    ≡ true
handle_sign-overlap_example =
    handle_sign-overlap toy_sha first_network second_network mpc_nodes_raw "tx-1" "tx-1" payload
      payload parsed named named answered_200 answered_200_again

fan_out_and_combine-perm_example :
    fan_out_and_combine toy_sha first_network
      ("http://b" ∷ "http://a/" ∷ "http://c" ∷ [])
      2
      "tx-1"
      payload
    ≡ fan_out_and_combine toy_sha first_network nodes 2 "tx-1" payload
fan_out_and_combine-perm_example =
    fan_out_and_combine-perm toy_sha first_network 2 "tx-1" payload
      (Perm.swap "http://a/" "http://b" ("http://c" ∷ []))
