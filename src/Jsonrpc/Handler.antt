-- ===== src/Jsonrpc/Handler.antt =====
-- The handler of JSON-RPC requests (jsonrpc/http_json_handler.go) and the functions that it calls
-- (jsonrpc/rpc_func.go). Reflection and the JSON library are the fields of a record; the state is that
-- of the functions that are called.
use slide_sdk.Common.{
  ℕ, suc, Bool, true, false, ◌&&◌, ◌==◌, if◌then◌else◌, List, [], ◌∷◌, length, drop, Option, none,
  some, Bytes, Bytes-discrete, bytes_eq,
}
use slide_sdk.Common.Map.{lookup}
use slide_sdk.Common.Outcome.{Outcome, ok, err, panic, ◌>>=◌}

-- `types.RPCRequest`: a notification has no identifier; `params` is the raw JSON, empty where the
-- request has none.
pub record Request : Type 0 where
  pub id : Option Bytes
  pub method : Bytes
  pub params : Bytes

pub record Reflection : Type 1 where
  pub Value : Type 0
  pub ArgType : Type 0
  pub Error : Type 0
  pub State : Type 0
  -- `reflect.ValueOf` of the context of a request
  pub context : Request → Value
  pub zero_value : ArgType → Value
  pub is_zero : Value → Bool
  pub unmarshal : ArgType → Bytes → Outcome Error Value
  -- `json.Unmarshal` into a map of raw messages, and into a slice of them
  pub params_map : Bytes → Option (List (Bytes × Bytes))
  pub params_array : Bytes → Option (List Bytes)
  pub requests_array : Bytes → Option (List Request)
  pub single_request : Bytes → Option Request

-- Why a request is answered with an error. In the error on the number of parameters of a function the
-- first number counts the context too.
pub data Problem (E : Type 0) : Type 0 where
  given : E → Problem E
  number_of_params : ℕ → ℕ → Problem E
  unknown_type : Problem E
  internal_server_error : Problem E

pub data Response (E V : Type 0) : Type 0 where
  success : Bytes → V → Response E V
  method_not_found : Bytes → Response E V
  internal_error : Bytes → Problem E → Response E V
  invalid_params : Bytes → Problem E → Response E V

-- What becomes of one request: nothing for a notification, a response with the flag `cache` after it, or
-- a panic.
pub data Served (E V : Type 0) : Type 0 where
  skipped : Served E V
  answered : Response E V → Bool → Served E V
  panicked : Served E V

-- What the handler writes.
pub data Reply (E V : Type 0) : Type 0 where
  read_error : E → Reply E V
  list_of_endpoints : Reply E V
  parse_error : Reply E V
  silence : Reply E V
  responses : Bool → List (Response E V) → Reply E V
  crash : Reply E V

abbrev pub member : Bytes → List Bytes → Bool
member n [] = false
member n (k ∷ ks) = if bytes_eq n k then true else member n ks

module _ (rf : Reflection) where
  abbrev pub Args : Type 0
  Args = Outcome (Problem rf.Error) (List rf.Value)

  -- `RPCFunc`: `function` is the function before `panicRecoveryMiddleware`, `args` are the types of its
  -- arguments, the context first
  pub record RpcFunc : Type 0 where
    pub function : List rf.Value → rf.State → Outcome rf.Error rf.Value × rf.State
    pub args : List rf.ArgType
    pub arg_names : List Bytes
    pub cacheable : Bool
    pub ws : Bool
    pub no_cache_def_args : List Bytes

  -- an argument from its raw JSON
  unfoldable pub unmarshal_arg : rf.ArgType → Bytes → Outcome (Problem rf.Error) rf.Value
  unmarshal_arg t raw = elim (rf.unmarshal t raw) [
    | ok v ↦ ok v
    | err e ↦ err (Problem.given e)
    | panic ↦ panic
  ]

  unfoldable pub map_param : rf.ArgType → Option Bytes → Outcome (Problem rf.Error) rf.Value
  map_param t none = ok (rf.zero_value t)
  map_param t (some raw) = if length raw == 0 then ok (rf.zero_value t) else unmarshal_arg t raw

  -- The loop over the names; the types are those after the context.
  unfoldable pub map_params_to_args : List Bytes → List rf.ArgType → List (Bytes × Bytes) → Args
  map_params_to_args [] types params = ok []
  map_params_to_args (name ∷ names) [] params = panic
  map_params_to_args (name ∷ names) (t ∷ types) params = do
    v ← map_param t (lookup Bytes-discrete name params)
    vs ← map_params_to_args names types params
    ok (v ∷ vs)

  -- The loop over the parameters.
  unfoldable pub array_args : List rf.ArgType → List Bytes → Args
  array_args types [] = ok []
  array_args [] (raw ∷ raws) = panic
  array_args (t ∷ types) (raw ∷ raws) = do
    v ← unmarshal_arg t raw
    vs ← array_args types raws
    ok (v ∷ vs)

  unfoldable pub array_params_to_args : RpcFunc → List Bytes → Args
  array_params_to_args fn params =
      if length fn.arg_names == length params
      then array_args (drop 1 fn.args) params
      else err (Problem.number_of_params (length fn.arg_names) (length params))

  unfoldable pub json_params_to_args : RpcFunc → Bytes → Args
  json_params_to_args fn raw = elim (rf.params_map raw) [
    | some params ↦ map_params_to_args fn.arg_names (drop 1 fn.args) params
    | none ↦ elim (rf.params_array raw) [
      | some params ↦ array_params_to_args fn params
      | none ↦ err Problem.unknown_type
    ]
  ]

  -- The loop of `cacheableWithArgs`, over the names and the arguments after the context.
  unfoldable pub cacheable_args : List Bytes → List Bytes → List rf.Value → Bool
  cacheable_args keys [] vs = true
  cacheable_args keys (name ∷ names) [] =
      if member name keys then false else cacheable_args keys names []
  cacheable_args keys (name ∷ names) (v ∷ vs) =
      if member name keys && rf.is_zero v then false else cacheable_args keys names vs

  unfoldable pub cacheable_with_args : RpcFunc → List rf.Value → Bool
  cacheable_with_args fn args =
      fn.cacheable && cacheable_args fn.no_cache_def_args fn.arg_names (drop 1 args)

  -- `reflect.Value.Call`, which panics on a wrong number of arguments, of the function with its
  -- middleware, which turns a panic of the function itself into an error.
  unfoldable pub call :
      RpcFunc → List rf.Value → rf.State → Outcome (Problem rf.Error) rf.Value × rf.State
  call fn args s =
      let (result, s') = fn.function args s in
      if length args == length fn.args
      then elim result [
        | ok v ↦ (ok v, s')
        | err e ↦ (err (Problem.given e), s')
        | panic ↦ (err Problem.internal_server_error, s')
      ]
      else (panic, s)

  unfoldable pub call_function :
      RpcFunc → Bytes → List rf.Value → Bool → rf.State → Served rf.Error rf.Value × rf.State
  call_function fn id args cache s =
      let cache' = cache && cacheable_with_args fn args in
      let (result, s') = call fn args s in
      elim result [
        | ok v ↦ (Served.answered (Response.success id v) cache', s')
        | err e ↦ (Served.answered (Response.internal_error id e) cache', s')
        | panic ↦ (Served.panicked, s')
      ]

  -- the arguments after the context
  unfoldable pub arguments : RpcFunc → Bytes → Args
  arguments fn params = if length params == 0 then ok [] else json_params_to_args fn params

  unfoldable pub serve_function :
      RpcFunc → Bytes → Request → Bool → rf.State → Served rf.Error rf.Value × rf.State
  serve_function fn id r cache s =
      if length fn.args == suc (length fn.arg_names)
      then elim (arguments fn r.params) [
        | ok vs ↦ call_function fn id (rf.context r ∷ vs) cache s
        | err e ↦ (Served.answered (Response.invalid_params id e) false, s)
        | panic ↦ (Served.panicked, s)
      ]
      else (
        Served.answered
            (Response.internal_error id
              (Problem.number_of_params (length fn.args) (length fn.arg_names)))
            false,
        s,
      )

  -- One round of the loop over the requests.
  unfoldable pub serve_request :
      List (Bytes × RpcFunc) → Request → Bool → rf.State → Served rf.Error rf.Value × rf.State
  serve_request funcs r cache s = elim r.id [
    | none ↦ (Served.skipped, s)
    | some id ↦ elim (lookup Bytes-discrete r.method funcs) [
      | none ↦ (Served.answered (Response.method_not_found id) false, s)
      | some fn ↦
          if fn.ws
          then (Served.answered (Response.method_not_found id) false, s)
          else serve_function fn id r cache s
    ]
  ]

  abbrev cons_response :
      Response rf.Error rf.Value
      → Option (List (Response rf.Error rf.Value) × Bool) × rf.State
      → Option (List (Response rf.Error rf.Value) × Bool) × rf.State
  cons_response a (none, s) = (none, s)
  cons_response a (some (rest, cache), s) = (some (a ∷ rest, cache), s)

  -- The loop: the responses and the flag `cache`, or a panic.
  unfoldable pub serve_all :
      List (Bytes × RpcFunc)
      → List Request
      → Bool
      → rf.State
      → Option (List (Response rf.Error rf.Value) × Bool) × rf.State
  serve_all funcs [] cache s = (some ([], cache), s)
  serve_all funcs (r ∷ rs) cache s =
      let (served, s') = serve_request funcs r cache s in
      elim served [
        | Served.skipped ↦ serve_all funcs rs cache s'
        | Served.panicked ↦ (none, s')
        | Served.answered a cache' ↦ cons_response a (serve_all funcs rs cache' s')
      ]

  -- `if len(responses) > 0`
  unfoldable pub reply_of :
      Option (List (Response rf.Error rf.Value) × Bool) → Reply rf.Error rf.Value
  reply_of none = Reply.crash
  reply_of (some ([], cache)) = Reply.silence
  reply_of (some (a ∷ rest, cache)) = Reply.responses cache (a ∷ rest)

  -- `makeJSONRPCHandler`, for the body that `io.ReadAll` returned
  unfoldable pub handle :
      List (Bytes × RpcFunc)
      → Outcome rf.Error Bytes
      → rf.State
      → Reply rf.Error rf.Value × rf.State
  handle funcs (err e) s = (Reply.read_error e, s)
  handle funcs panic s = (Reply.crash, s)
  handle funcs (ok body) s =
      if length body == 0 then (Reply.list_of_endpoints, s) else elim (rf.requests_array body) [
        | some rs ↦ let (r, s') = serve_all funcs rs true s in (reply_of r, s')
        | none ↦ elim (rf.single_request body) [
          | some r ↦ let (a, s') = serve_all funcs (r ∷ []) true s in (reply_of a, s')
          | none ↦ (Reply.parse_error, s)
        ]
      ]
