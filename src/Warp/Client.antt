-- ===== src/Warp/Client.antt =====
-- The client of the warp service (warp/client.go). The JSON-RPC client of CometBFT, which also decodes an
-- answer, and the texts of JSON are parameters.
use slide_sdk.Common.{
  ◌≡◌, refl, ap, ◌∙◌, sym, Option, none, some, List, [], ◌∷◌, Bytes, Bytes-discrete, codes, drop,
  arith,
}
use slide_sdk.Common.Map.{lookup}
use slide_sdk.Common.Outcome.{Outcome, ok, >>=-eq-ok}
use slide_sdk.Jsonrpc.Handler.{
  Reflection, RpcFunc, map_param, map_params_to_args, json_params_to_args,
}
use slide_sdk.Jsonrpc.Functions.{Function, prepend, split, names_in, apply_options, new_rpc_func}
use slide_sdk.Rpc.Routes.{GoType, table, types_of, func_of, funcs_of, routes}

-- `Call`: a method and the map of its parameters, each as its JSON
pub record Caller : Type 1 where
  pub Error : Type 0
  pub call : Bytes → List (Bytes × Bytes) → Outcome Error Bytes
  pub json_id : Bytes → Bytes
  pub json_number : Bytes → Bytes
  pub json_string : Bytes → Bytes

module _ (c : Caller) where
  abbrev message_id : Bytes → List (Bytes × Bytes)
  message_id id = (codes "messageID", c.json_id id) ∷ []

  -- the parameters of the aggregate queries, for the key of the identifier
  unfoldable pub aggregate_params : Bytes → Bytes → Bytes → Bytes → List (Bytes × Bytes)
  aggregate_params key id quorum_num subnet =
      (key, c.json_id id)
      ∷ (codes "quorumNum", c.json_number quorum_num)
      ∷ (codes "subnetIDStr", c.json_string subnet)
      ∷ []

  unfoldable pub get_message : Bytes → Outcome c.Error Bytes
  get_message id = c.call (codes "warp_get_message") (message_id id)

  unfoldable pub get_message_signature : Bytes → Outcome c.Error Bytes
  get_message_signature id = c.call (codes "warp_get_message_signature") (message_id id)

  unfoldable pub get_message_aggregate_signature : Bytes → Bytes → Bytes → Outcome c.Error Bytes
  get_message_aggregate_signature id quorum_num subnet =
      c.call (codes "warp_get_message_aggregate_signature")
        (aggregate_params (codes "messageID") id quorum_num subnet)

  unfoldable pub get_block_signature : Bytes → Outcome c.Error Bytes
  get_block_signature id =
      c.call (codes "warp_get_block_signature") ((codes "blockID", c.json_id id) ∷ [])

  unfoldable pub get_block_aggregate_signature : Bytes → Bytes → Bytes → Outcome c.Error Bytes
  get_block_aggregate_signature id quorum_num subnet =
      c.call (codes "warp_get_block_aggregate_signature")
        (aggregate_params (codes "blockID") id quorum_num subnet)

  module _ (rf : Reflection) (type_of : GoType → rf.ArgType) (handlers : Bytes → Function rf) where
    -- the three arguments of an aggregate query
    three_args :
        (key id quorum_num subnet : Bytes) (t u v : rf.ArgType) {vs : List rf.Value}
        → lookup Bytes-discrete (codes "subnetID") (aggregate_params key id quorum_num subnet)
          ≡ none
        → map_params_to_args rf
            (key ∷ codes "quorumNum" ∷ codes "subnetID" ∷ [])
            (t ∷ u ∷ v ∷ [])
            (aggregate_params key id quorum_num subnet)
          ≡ ok vs
        → (a b : rf.Value) × (vs ≡ a ∷ b ∷ rf.zero_value v ∷ [])
    unfolding map_params_to_args map_param
    three_args key id quorum_num subnet t u v missing h =
        let params = aggregate_params key id quorum_num subnet in
        let (a, e1, k1) = >>=-eq-ok (map_param rf t (lookup Bytes-discrete key params)) _ h in
        let (xs, e2, k2) =
          >>=-eq-ok
            (map_params_to_args rf (codes "quorumNum" ∷ codes "subnetID" ∷ []) (u ∷ v ∷ []) params)
            _ k1 in
        let (b, e3, k3) =
          >>=-eq-ok (map_param rf u (lookup Bytes-discrete (codes "quorumNum") params)) _ e2 in
        let (ys, e4, k4) =
          >>=-eq-ok (map_params_to_args rf (codes "subnetID" ∷ []) (v ∷ []) params) _ k3 in
        let (z, e5, k5) =
          >>=-eq-ok (map_param rf v (lookup Bytes-discrete (codes "subnetID") params)) _ e4 in
        let zero : z ≡ rf.zero_value v = ground arith in (a, b, ground arith)

    abbrev three_types : List rf.ArgType
    three_types = type_of GoType.ids_id ∷ type_of GoType.uint64 ∷ type_of GoType.string ∷ []

    -- the function behind the aggregate query of a message
    func_of-message :
        {fn : RpcFunc rf}
        → lookup Bytes-discrete
            (codes "warp_get_message_aggregate_signature")
            (routes rf type_of handlers)
          ≡ some fn
        → (fn.arg_names ≡ codes "messageID" ∷ codes "quorumNum" ∷ codes "subnetID" ∷ [])
          × (drop 1 fn.args ≡ three_types)
    unfolding lookup Bytes-discrete routes funcs_of table func_of new_rpc_func apply_options
        types_of names_in split prepend
    func_of-message h = (ap (λ o. names o) (sym h), ap (λ o. types o) (sym h))
      where
        names : Option (RpcFunc rf) → List Bytes
        names none = []
        names (some fn) = fn.arg_names

        types : Option (RpcFunc rf) → List rf.ArgType
        types none = []
        types (some fn) = drop 1 fn.args

    read_as_map :
        (fn : RpcFunc rf) (raw : Bytes) {params : List (Bytes × Bytes)}
        → rf.params_map raw ≡ some params
        → json_params_to_args rf fn raw ≡ map_params_to_args rf fn.arg_names (drop 1 fn.args) params
    unfolding json_params_to_args
    read_as_map fn raw e = rw (json_params_to_args, e) refl

    -- Whatever subnet a client of the warp service asks GetMessageAggregateSignature for, the server calls
    -- the function of that route, if it reads the parameters as a map, with the zero value of a text as
    -- the subnet: the route has another name for it than the client.
    pub subnet_lost :
        (id quorum_num subnet raw : Bytes) (fn : RpcFunc rf) {vs : List rf.Value}
        → rf.params_map raw ≡ some (aggregate_params (codes "messageID") id quorum_num subnet)
        → lookup Bytes-discrete
            (codes "warp_get_message_aggregate_signature")
            (routes rf type_of handlers)
          ≡ some fn
        → json_params_to_args rf fn raw ≡ ok vs
        → (a b : rf.Value) × (vs ≡ a ∷ b ∷ rf.zero_value (type_of GoType.string) ∷ [])
    unfolding json_params_to_args aggregate_params lookup Bytes-discrete
    subnet_lost id quorum_num subnet raw fn read found h =
        let (names, types) = func_of-message found in
        let params = aggregate_params (codes "messageID") id quorum_num subnet in
        three_args (codes "messageID") id quorum_num subnet _ _ _ refl (
          sym (
            ap (λ ts. map_params_to_args rf fn.arg_names ts params) types
            ∙ ap (λ ns. map_params_to_args rf ns three_types params) names)
          ∙ (sym (read_as_map fn raw read) ∙ h))
