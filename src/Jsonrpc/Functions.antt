-- ===== src/Jsonrpc/Functions.antt =====
-- How a function is made a function of the server (jsonrpc/rpc_func.go): its argument names, its types by
-- reflection, and the options.
use slide_sdk.Common.{ℕ, false, true, List, [], ◌∷◌, length, ◌==◌, if◌then◌else◌, Bytes}
use slide_sdk.Common.Outcome.{Outcome}
use slide_sdk.Jsonrpc.Handler.{Reflection, RpcFunc}

-- `Option`: `Cacheable` and `Ws`
pub data RpcOption : Type 0 where
  cacheable : List Bytes → RpcOption
  ws : RpcOption

unfoldable pub prepend : ℕ → List Bytes → List Bytes
prepend c [] = (c ∷ []) ∷ []
prepend c (part ∷ parts) = (c ∷ part) ∷ parts

-- `strings.Split` at one byte
unfoldable pub split : ℕ → Bytes → List Bytes
split separator [] = [] ∷ []
split separator (c ∷ cs) =
    let rest = split separator cs in if c == separator then [] ∷ rest else prepend c rest

-- the names in a text, with a comma between them
unfoldable pub names_in : Bytes → List Bytes
names_in args = if length args == 0 then [] else split 44 args

module _ (rf : Reflection) where
  abbrev pub Function : Type 0
  Function = List rf.Value → rf.State → Outcome rf.Error rf.Value × rf.State

  unfoldable pub apply_option : RpcFunc rf → RpcOption → RpcFunc rf
  apply_option r (RpcOption.cacheable no_cache_def_args) = record r {
    cacheable = true;
    no_cache_def_args = no_cache_def_args;
  }
  apply_option r RpcOption.ws = record r { ws = true }

  unfoldable pub apply_options : RpcFunc rf → List RpcOption → RpcFunc rf
  apply_options r [] = r
  apply_options r (o ∷ os) = apply_options (apply_option r o) os

  -- `newRPCFunc`, for a function with arguments of the given types; its panics are recovered where it is
  -- called
  unfoldable pub new_rpc_func : Function → List rf.ArgType → Bytes → List RpcOption → RpcFunc rf
  new_rpc_func f types args options =
      apply_options
        (record {
          function = f;
          args = types;
          arg_names = names_in args;
          cacheable = false;
          ws = false;
          no_cache_def_args = [];
        })
        options
