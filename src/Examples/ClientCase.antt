-- ===== src/Examples/ClientCase.antt =====
-- The theorem on the client of the warp service, at a server whose JSON library reads its parameters.
use slide_sdk.Common.{ℕ, ◌≡◌, refl, false, none, some, List, [], ◌∷◌, Bytes, Bytes-discrete, codes}
use slide_sdk.Common.Map.{lookup}
use slide_sdk.Common.Outcome.{ok}
use slide_sdk.Jsonrpc.Handler.{
  Reflection, RpcFunc, unmarshal_arg, map_param, map_params_to_args, json_params_to_args,
}
use slide_sdk.Jsonrpc.Functions.{
  Function, prepend, split, names_in, apply_option, apply_options, new_rpc_func,
}
use slide_sdk.Rpc.Routes.{GoType, Route, table, types_of, func_of, funcs_of, routes}
use slide_sdk.Warp.Client.{Caller, aggregate_params, subnet_lost}

-- the JSON of a value is the value, and a call is answered with its method
abbrev caller : Caller
caller = record {
  Error = ℕ;
  call = λ method params. ok method;
  json_id = λ x. x;
  json_number = λ x. x;
  json_string = λ x. x;
}

abbrev sent : List (Bytes × Bytes)
sent =
    (codes "messageID", 1 ∷ []) ∷ (codes "quorumNum", 2 ∷ []) ∷ (codes "subnetIDStr", 3 ∷ []) ∷ []

abbrev server : Reflection
server = record {
  Value = Bytes;
  ArgType = ℕ;
  Error = ℕ;
  State = ℕ;
  context = λ r. [];
  zero_value = λ t. [];
  is_zero = λ v. false;
  unmarshal = λ t raw. ok raw;
  params_map = λ raw. some sent;
  params_array = λ raw. none;
  requests_array = λ b. none;
  single_request = λ b. none;
}

abbrev type_of : GoType → ℕ
type_of t = 0

abbrev handlers : Bytes → Function server
handlers name args n = (ok name, n)

abbrev aggregate_query : Route
aggregate_query = record {
  name = codes "warp_get_message_aggregate_signature";
  params = GoType.ids_id ∷ GoType.uint64 ∷ GoType.string ∷ [];
  args = codes "messageID,quorumNum,subnetID";
  options = [];
}

abbrev asked : RpcFunc server
asked = func_of server type_of handlers aggregate_query

subnet_lost_example : (a b : Bytes) × ((1 ∷ []) ∷ (2 ∷ []) ∷ [] ∷ [] ≡ a ∷ b ∷ [] ∷ [])
unfolding Bytes-discrete lookup unmarshal_arg map_param map_params_to_args json_params_to_args
    prepend split names_in apply_option apply_options new_rpc_func table types_of func_of funcs_of
    routes aggregate_params
subnet_lost_example =
    subnet_lost caller server type_of handlers (1 ∷ []) (2 ∷ []) (3 ∷ []) (9 ∷ []) asked
      {vs = (1 ∷ []) ∷ (2 ∷ []) ∷ [] ∷ []} refl refl refl
