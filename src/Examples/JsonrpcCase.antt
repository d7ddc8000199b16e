-- ===== src/Examples/JsonrpcCase.antt =====
-- The theorems on the JSON-RPC server, at two functions and a batch of four requests.
use slide_sdk.Common.{
  drop, ◌⊎◌, ℕ, ◌≡◌, ◌↔◌, refl, false, true, List, [], ◌∷◌, Option, none, some, suc, Bytes,
  Bytes-discrete, arith, codes, ◌≢◌,
}
use slide_sdk.Common.Map.{lookup}
use slide_sdk.Common.Outcome.{ok}
use slide_sdk.Jsonrpc.Handler.{
  Request, Reflection, Response, Served, RpcFunc, unmarshal_arg, map_param, map_params_to_args,
  array_args, array_params_to_args, json_params_to_args, cacheable_args, cacheable_with_args, call,
  call_function, arguments, serve_function, serve_request, serve_all,
}
use slide_sdk.Jsonrpc.Replies.{response_ids, request_ids, serve_all-ids}
use slide_sdk.Jsonrpc.Typed.{Typed, arguments-Typed}
use slide_sdk.Jsonrpc.Crashes.{Returns}
use slide_sdk.Jsonrpc.Functions.{Function}
use slide_sdk.Rpc.Routes.{GoType, routes, routes-panic_iff}

program : Unit {0}
unfolding Bytes-discrete lookup unmarshal_arg map_param map_params_to_args array_args
    array_params_to_args json_params_to_args cacheable_args cacheable_with_args call call_function
    arguments serve_function serve_request serve_all
program = tt

-- values and raw messages are byte strings, parameters are an array of one message
abbrev reflection : Reflection
reflection = record {
  Value = Bytes;
  ArgType = ℕ;
  Error = ℕ;
  State = ℕ;
  context = λ r. r.method;
  zero_value = λ t. [];
  is_zero = λ v. false;
  unmarshal = λ t raw. ok raw;
  params_map = λ raw. none;
  params_array = λ raw. some (raw ∷ []);
  requests_array = λ b. none;
  single_request = λ b. none;
}

-- a function of one parameter, which counts its calls
abbrev echo : RpcFunc reflection
echo = record {
  function = λ args n. (ok (n ∷ []), suc n);
  args = 0 ∷ 0 ∷ [];
  arg_names = (5 ∷ []) ∷ [];
  cacheable = true;
  ws = false;
  no_cache_def_args = [];
}

abbrev funcs : List (Bytes × RpcFunc reflection)
funcs = (1 ∷ [], echo) ∷ []

abbrev request : Option Bytes → Bytes → Bytes → Request
request id method params = record { id = id; method = method; params = params }

-- a call, a notification, a call of no function and a second call
abbrev batch : List Request
batch =
    request (some (11 ∷ [])) (1 ∷ []) (8 ∷ [])
    ∷ request none (1 ∷ []) (8 ∷ [])
    ∷ request (some (12 ∷ [])) (2 ∷ []) []
    ∷ request (some (13 ∷ [])) (1 ∷ []) (9 ∷ [])
    ∷ []

abbrev answers : List (Response ℕ Bytes)
answers =
    Response.success (11 ∷ []) (0 ∷ [])
    ∷ Response.method_not_found (12 ∷ [])
    ∷ Response.success (13 ∷ []) (1 ∷ [])
    ∷ []

serve_all-ids_example : response_ids answers ≡ request_ids batch
unfolding program
serve_all-ids_example =
    serve_all-ids reflection funcs batch true 0 {answers = answers} {cache' = false} refl

returns : Returns reflection
unfolding program
returns t raw h = ground arith

-- a type for every parameter, and handlers that count their calls
abbrev type_of : GoType → ℕ
type_of t = 0

abbrev handlers : Bytes → Function reflection
handlers name args n = (ok name, suc n)

-- a call of `block` without its parameter
routes-panic_iff_example :
    ((serve_request reflection
        (routes reflection type_of handlers)
        (request (some (11 ∷ [])) (codes "block") [])
        true
        0).0
      ≡ Served.panicked)
    ↔ ((id : Bytes) × (fn : RpcFunc reflection) × (some (11 ∷ []) ≡ some id)
        × (lookup Bytes-discrete (codes "block") (routes reflection type_of handlers) ≡ some fn)
        × (fn.arg_names ≢ [])
        × (◌≡◌ {A = Bytes} [] []))
routes-panic_iff_example =
    routes-panic_iff reflection type_of handlers returns
      (request (some (11 ∷ [])) (codes "block") []) true 0

-- a type for every value
abbrev HasType : ℕ → Bytes → Type 0
HasType t v = Unit

arguments-Typed_example :
    ((◌≡◌ {A = Bytes} (8 ∷ []) []) × (◌≡◌ {A = List Bytes} ((8 ∷ []) ∷ []) []))
    ⊎ Typed reflection HasType (drop 1 echo.args) ((8 ∷ []) ∷ [])
unfolding program
arguments-Typed_example =
    arguments-Typed reflection HasType
      (record { unmarshal_type = λ t raw h. tt; zero_type = λ t. tt }) echo (8 ∷ [])
      {vs = (8 ∷ []) ∷ []} refl refl
