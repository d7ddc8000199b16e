-- ===== src/Rpc/Routes.antt =====
-- The routes of the server (`Routes` of vm/rpc.go): the names of the functions and of their arguments, with
-- the types in the signatures of the handlers. The handlers behind the names are parameters here.
use slide_sdk.Common.{
  suc, ◌≡◌, ◌≢◌, ◌↔◌, refl, sym, ap, ◌∙◌, subst, Bool, true, false, ◌&&◌, ◌==◌, List, [], ◌∷◌,
  length, some, Bytes, Bytes-discrete, codes, arith,
}
use slide_sdk.Common.Map.{lookup}
use slide_sdk.Jsonrpc.Handler.{Reflection, Request, Served, RpcFunc, serve_request}
use slide_sdk.Jsonrpc.Functions.{
  RpcOption, Function, prepend, split, names_in, apply_option, apply_options, new_rpc_func,
}
use slide_sdk.Jsonrpc.Crashes.{Returns, serve_request-panic_iff}

-- The types of the parameters of the handlers.
pub data GoType : Type 0 where
  context int64 pointer_to_int64 pointer_to_int uint uint64 bool string : GoType
  bytes hex_bytes tx ids_id : GoType

-- A row of the table: a name, the types after the context, the names of the arguments, the options.
pub record Route : Type 0 where
  pub name : Bytes
  pub params : List GoType
  pub args : Bytes
  pub options : List RpcOption

abbrev route : Bytes → List GoType → Bytes → List RpcOption → Route
route name params args options = record {
  name = name;
  params = params;
  args = args;
  options = options;
}

unfoldable pub table : List Route
table =
    route (codes "health") ([]) (codes "") ([])
    ∷ route (codes "status") ([]) (codes "") ([])
    ∷ route (codes "blockchain") (GoType.int64 ∷ GoType.int64 ∷ []) (codes "minHeight,maxHeight")
        (RpcOption.cacheable [] ∷ [])
    ∷ route (codes "genesis") ([]) (codes "") (RpcOption.cacheable [] ∷ [])
    ∷ route (codes "genesis_chunked") (GoType.uint ∷ []) (codes "chunk")
        (RpcOption.cacheable [] ∷ [])
    ∷ route (codes "block") (GoType.pointer_to_int64 ∷ []) (codes "height")
        (RpcOption.cacheable (codes "height" ∷ []) ∷ [])
    ∷ route (codes "block_by_hash") (GoType.bytes ∷ []) (codes "hash") (RpcOption.cacheable [] ∷ [])
    ∷ route (codes "block_results") (GoType.pointer_to_int64 ∷ []) (codes "height")
        (RpcOption.cacheable (codes "height" ∷ []) ∷ [])
    ∷ route (codes "commit") (GoType.pointer_to_int64 ∷ []) (codes "height")
        (RpcOption.cacheable (codes "height" ∷ []) ∷ [])
    ∷ route (codes "check_tx") (GoType.tx ∷ []) (codes "tx") ([])
    ∷ route (codes "tx") (GoType.bytes ∷ GoType.bool ∷ []) (codes "hash,prove")
        (RpcOption.cacheable [] ∷ [])
    ∷ route (codes "unconfirmed_txs") (GoType.pointer_to_int ∷ []) (codes "limit") ([])
    ∷ route (codes "num_unconfirmed_txs") ([]) (codes "") ([])
    ∷ route (codes "tx_search")
        (GoType.string ∷ GoType.bool ∷ GoType.pointer_to_int ∷ GoType.pointer_to_int ∷ GoType.string
          ∷ [])
        (codes "query,prove,page,per_page,order_by") ([])
    ∷ route (codes "block_search")
        (GoType.string ∷ GoType.pointer_to_int ∷ GoType.pointer_to_int ∷ GoType.string ∷ [])
        (codes "query,page,per_page,order_by") ([])
    ∷ route (codes "validators")
        (GoType.pointer_to_int64 ∷ GoType.pointer_to_int ∷ GoType.pointer_to_int ∷ [])
        (codes "height,page,per_page") (RpcOption.cacheable (codes "height" ∷ []) ∷ [])
    ∷ route (codes "consensus_params") (GoType.pointer_to_int64 ∷ []) (codes "height")
        (RpcOption.cacheable (codes "height" ∷ []) ∷ [])
    ∷ route (codes "broadcast_tx_commit") (GoType.tx ∷ []) (codes "tx") ([])
    ∷ route (codes "broadcast_tx_sync") (GoType.tx ∷ []) (codes "tx") ([])
    ∷ route (codes "broadcast_tx_async") (GoType.tx ∷ []) (codes "tx") ([])
    ∷ route (codes "abci_query")
        (GoType.string ∷ GoType.hex_bytes ∷ GoType.int64 ∷ GoType.bool ∷ [])
        (codes "path,data,height,prove") ([])
    ∷ route (codes "abci_info") ([]) (codes "") (RpcOption.cacheable [] ∷ [])
    ∷ route (codes "warp_add_message") (GoType.bytes ∷ []) (codes "message") ([])
    ∷ route (codes "warp_get_message") (GoType.string ∷ []) (codes "messageID") ([])
    ∷ route (codes "warp_get_message_signature") (GoType.string ∷ []) (codes "messageID") ([])
    ∷ route (codes "warp_get_message_aggregate_signature")
        (GoType.ids_id ∷ GoType.uint64 ∷ GoType.string ∷ []) (codes "messageID,quorumNum,subnetID")
        ([])
    ∷ route (codes "warp_get_block_signature") (GoType.ids_id ∷ []) (codes "blockID") ([])
    ∷ route (codes "warp_get_block_aggregate_signature")
        (GoType.ids_id ∷ GoType.uint64 ∷ GoType.string ∷ []) (codes "blockID,quorumNum,subnetID")
        ([])
    ∷ []

-- a name for each argument, and no websocket
no_ws : List RpcOption → Bool
no_ws [] = true
no_ws (RpcOption.cacheable names ∷ os) = no_ws os
no_ws (RpcOption.ws ∷ os) = false

all_named : List Route → Bool
all_named [] = true
all_named (r ∷ rs) =
    (length r.params == length (names_in r.args)) && no_ws r.options && all_named rs

table-named : all_named table ≡ true
unfolding all_named no_ws table names_in split prepend
table-named = refl

module _ (rf : Reflection) (type_of : GoType → rf.ArgType) (handlers : Bytes → Function rf) where
  unfoldable pub types_of : List GoType → List rf.ArgType
  types_of [] = []
  types_of (t ∷ ts) = type_of t ∷ types_of ts

  -- `NewRPCFunc` for a row, whose handler takes a context first
  unfoldable pub func_of : Route → RpcFunc rf
  func_of r =
      new_rpc_func rf (handlers r.name) (types_of (GoType.context ∷ r.params)) r.args r.options

  unfoldable pub funcs_of : List Route → List (Bytes × RpcFunc rf)
  funcs_of [] = []
  funcs_of (r ∷ rs) = (r.name, func_of r) ∷ funcs_of rs

  -- `Routes`
  unfoldable pub routes : List (Bytes × RpcFunc rf)
  routes = funcs_of table

  length-types_of : (ts : List GoType) → length (types_of ts) ≡ length ts
  unfolding types_of
  length-types_of [] = refl
  length-types_of (t ∷ ts) = ap suc (length-types_of ts)

  apply_options-plain :
      (os : List RpcOption) (fn : RpcFunc rf)
      → no_ws os ≡ true
      → ((apply_options rf fn os).args ≡ fn.args)
        × ((apply_options rf fn os).arg_names ≡ fn.arg_names)
        × ((apply_options rf fn os).ws ≡ fn.ws)
  unfolding apply_options apply_option no_ws
  apply_options-plain [] fn h = (refl, refl, refl)
  apply_options-plain (RpcOption.cacheable names ∷ os) fn h =
      apply_options-plain os (apply_option rf fn (RpcOption.cacheable names)) h
  apply_options-plain (RpcOption.ws ∷ os) fn h = absurd (cc h)

  -- what the rows make of the functions
  Plain : RpcFunc rf → Type 0
  Plain fn = (length fn.args ≡ suc (length fn.arg_names)) × (fn.ws ≡ false)

  func_of-Plain :
      (r : Route)
      → length r.params ≡ length (names_in r.args)
      → no_ws r.options ≡ true
      → Plain (func_of r)
  unfolding Plain func_of new_rpc_func types_of
  func_of-Plain r named plain =
      let (args, names, ws) = apply_options-plain r.options _ plain in
      (
        ap length args
            ∙ ap suc (length-types_of r.params ∙ named)
            ∙ ap (λ l. suc (length l)) (sym names),
        ws,
      )

  funcs_of-Plain :
      (rs : List Route) (method : Bytes) {fn : RpcFunc rf}
      → all_named rs ≡ true
      → lookup Bytes-discrete method (funcs_of rs) ≡ some fn
      → Plain fn
  unfolding all_named funcs_of lookup
  funcs_of-Plain [] method h e = absurd (ground arith)
  funcs_of-Plain (r ∷ rs) method h e = elim (Bytes-discrete r.name method) [
    | yes same ↦ subst Plain (ground arith) (func_of-Plain r (ground arith) (ground arith))
    | no ne ↦ funcs_of-Plain rs method (ground arith) (ground arith)
  ]

  -- The server with the routes of the program panics, where the JSON library does not, exactly on a
  -- request that has an identifier, the name of a function whose handler takes parameters, and none of
  -- them: every route has a name for each parameter of its handler, so no other request does.
  pub routes-panic_iff :
      Returns rf
      → (r : Request) (cache : Bool) (s : rf.State)
      → ((serve_request rf routes r cache s).0 ≡ Served.panicked) ↔ (
          (id : Bytes) × (fn : RpcFunc rf) × (r.id ≡ some id)
          × (lookup Bytes-discrete r.method routes ≡ some fn)
          × (fn.arg_names ≢ [])
          × (r.params ≡ []))
  unfolding routes Plain
  routes-panic_iff returns r cache s =
      let general = serve_request-panic_iff rf returns routes r cache s in
      (
        (λ h.
            let (id, fn, e, f, ws, fed) = general.0 h in
            (id, fn, e, f, fed.takes_params, fed.without_params)),
        (λ (id, fn, e, f, takes, empty).
            let (named, ws) = funcs_of-Plain table r.method table-named f in
            general.1 (
              id,
              fn,
              e,
              f,
              ws,
              record { named = named; takes_params = takes; without_params = empty },
            )),
      )
