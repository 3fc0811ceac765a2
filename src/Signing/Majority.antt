-- ===== src/Signing/Majority.antt =====
-- When the signing gateway gives a signature: the nodes that have to answer.
use stablecoin_infrastructur.Base.{
  ℕ, ◌≡◌, ◌≢◌, ◌↔◌, ◌<◌, ◌*◌, ◌+◌, ◌≤◌, refl, String, Bool, true, false, not, ◌&&◌, List, [], ◌∷◌,
  Option, some, none, arith, length, select, exists, str_eq, eq_iff, Bool-cases, inl, inr,
  if◌then◌else◌,
}
use stablecoin_infrastructur.Models.Json.{JsonDict}
use stablecoin_infrastructur.Signing.{
  NodeClient, collect_partial, collect_partials, add_partial, compute_threshold,
  fan_out_and_combine, sign_status, parse_mpc_nodes, handle_sign,
}

abbrev pub is_partial : Option String → Bool
is_partial none = false
is_partial (some s) = not (str_eq s "")

-- Whether a node gives a partial signature that counts.
abbrev pub gives_partial : NodeClient → JsonDict → String → Bool
gives_partial client payload node_url = is_partial (collect_partial client node_url payload)

length-add_partial :
    (r : Option String) (partials : List String)
    → length (add_partial r partials) ≡ (if is_partial r then 1 else 0) + length partials
length-add_partial none partials = omega arith
length-add_partial (some s) partials = elim (Bool-cases (str_eq s "")) [
  | inl e ↦ rw e (omega arith)
  | inr e ↦ rw e (omega arith)
]

length_if {ℓ} :
    {A : Type ℓ} (b : Bool) (x : A) (xs : List A)
    → length (if b then x ∷ xs else xs) ≡ (if b then 1 else 0) + length xs
length_if true x xs = omega arith
length_if false x xs = omega arith

pub length-collect_partials :
    (client : NodeClient) (payload : JsonDict) (nodes : List String)
    → length (collect_partials client payload nodes)
      ≡ length (select (gives_partial client payload) nodes)
unfolding collect_partials
length-collect_partials client payload [] = refl
length-collect_partials client payload (node_url ∷ nodes) = omega (
  arith,
  length-add_partial (collect_partial client node_url payload)
      (collect_partials client payload nodes),
  length_if (gives_partial client payload node_url) node_url
      (select (gives_partial client payload) nodes),
  length-collect_partials client payload nodes,
)

status-fan_out :
    (sha256 : String → String) (client : NodeClient) (nodes : List String) (threshold : ℕ)
    (transaction_id : String) (payload : JsonDict)
    → (sign_status (fan_out_and_combine sha256 client nodes threshold transaction_id payload) ≡ 200)
      ↔ (threshold ≤ length (collect_partials client payload nodes))
unfolding fan_out_and_combine
status-fan_out sha256 client nodes threshold transaction_id payload =
    (λ h. ground arith, λ h. ground arith)

module _ (sha256 : String → String) (client : NodeClient) (mpc_nodes_raw : String)
    (transaction_id : String) (payload : JsonDict) {nodes : List String}
    (parsed : parse_mpc_nodes mpc_nodes_raw ≡ some nodes) (named : transaction_id ≢ "") where
  handle_sign_parsed :
      handle_sign sha256 client mpc_nodes_raw
        (some (record { transaction_id = some transaction_id; payload = some payload }))
      ≡ fan_out_and_combine sha256 client nodes
          (compute_threshold (length nodes))
          transaction_id
          payload
  unfolding handle_sign
  handle_sign_parsed = elim (Bool-cases (str_eq transaction_id "")) [
    | inl e ↦ absurd (named ((eq_iff transaction_id "").0 e))
    | inr e ↦ rw (e, parsed)
  ]

  -- A request with a transaction id and a payload is answered 200 exactly when more than half of the
  -- configured nodes give a partial signature of the payload that is not empty.
  pub handle_sign-majority :
      (sign_status (
          handle_sign sha256 client mpc_nodes_raw
            (some (record { transaction_id = some transaction_id; payload = some payload })))
        ≡ 200)
      ↔ (length nodes < 2 * length (select (gives_partial client payload) nodes))
  unfolding compute_threshold
  handle_sign-majority =
      rw (handle_sign_parsed, ← length-collect_partials client payload nodes)
        (let k =
            status-fan_out sha256 client nodes (compute_threshold (length nodes)) transaction_id
              payload in
          (λ h. omega (arith, k.0 h), λ h. k.1 (omega arith)))

length-select-le :
    (p q : String → Bool) (nodes : List String)
    → length (select p nodes) + length (select q nodes)
      ≤ length nodes + length (select (λ n. p n && q n) nodes)
length-select-le p q [] = omega arith
length-select-le p q (n ∷ nodes) = ground (arith, length-select-le p q nodes)

exists-select :
    (p : String → Bool) (nodes : List String) → 0 < length (select p nodes) → exists p nodes ≡ true
exists-select p [] h = absurd (omega arith)
exists-select p (n ∷ nodes) h = ground (arith, exists-select p nodes)

module _ (sha256 : String → String) (client client' : NodeClient) (mpc_nodes_raw : String)
    (transaction_id transaction_id' : String) (payload payload' : JsonDict) {nodes : List String}
    (parsed : parse_mpc_nodes mpc_nodes_raw ≡ some nodes) (named : transaction_id ≢ "")
    (named' : transaction_id' ≢ "") where
  -- Of two requests with a transaction id that are both answered 200 by a gateway with the same
  -- configured nodes, whatever the nodes and the network do at each, some configured node gave a
  -- partial signature to both.
  pub handle_sign-overlap :
      sign_status (
          handle_sign sha256 client mpc_nodes_raw
            (some (record { transaction_id = some transaction_id; payload = some payload })))
        ≡ 200
      → sign_status (
          handle_sign sha256 client' mpc_nodes_raw
            (some (record { transaction_id = some transaction_id'; payload = some payload' })))
        ≡ 200
      → exists (λ n. gives_partial client payload n && gives_partial client' payload' n) nodes
        ≡ true
  handle_sign-overlap h h' =
      let p = gives_partial client payload in
      let q = gives_partial client' payload' in
      exists-select (λ n. p n && q n) nodes
        (omega (
          arith,
          (handle_sign-majority sha256 client mpc_nodes_raw transaction_id payload parsed named).0
              h,
          (handle_sign-majority sha256 client' mpc_nodes_raw transaction_id' payload' parsed
                named').0
              h',
          length-select-le p q nodes,
        ))
