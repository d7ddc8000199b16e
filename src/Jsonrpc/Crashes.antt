-- ===== src/Jsonrpc/Crashes.antt =====
-- The requests that crash the server (jsonrpc/http_json_handler.go).
use slide_sdk.Common.{
  suc, ◌≡◌, ◌≢◌, ◌↔◌, refl, ap, ◌⊎◌, inl, inr, Bool, false, List, [], ◌∷◌, length, drop, Option,
  none, some, Bytes, Bytes-discrete, Option-cases, arith,
}
use slide_sdk.Common.Map.{lookup}
use slide_sdk.Common.Outcome.{ok, err, panic, Outcome-cases}
use slide_sdk.Jsonrpc.Handler.{
  Request, Reflection, Problem, Served, RpcFunc, unmarshal_arg, map_param, map_params_to_args,
  array_args, array_params_to_args, json_params_to_args, call, call_function, arguments,
  serve_function, serve_request,
}

module _ (rf : Reflection) where
  -- the JSON library returns, whatever it is given
  abbrev pub Returns : Type 0
  Returns = (t : rf.ArgType) (raw : Bytes) → rf.unmarshal t raw ≢ panic

  unmarshal_arg-returns : Returns → (t : rf.ArgType) (raw : Bytes) → unmarshal_arg rf t raw ≢ panic
  unfolding unmarshal_arg
  unmarshal_arg-returns returns t raw h = elim (Outcome-cases (rf.unmarshal t raw)) [
    | inl (v, e) ↦ ground arith
    | inr (inl (x, e)) ↦ ground arith
    | inr (inr e) ↦ returns t raw e
  ]

  map_param-returns :
      Returns → (t : rf.ArgType) (found : Option Bytes) → map_param rf t found ≢ panic
  unfolding map_param
  map_param-returns returns t none h = ground arith
  map_param-returns returns t (some raw) h = ground (arith, unmarshal_arg-returns returns t raw)

  map_params_to_args-returns :
      Returns
      → (names : List Bytes) (types : List rf.ArgType) (params : List (Bytes × Bytes))
      → length types ≡ length names
      → map_params_to_args rf names types params ≢ panic
  unfolding map_params_to_args
  map_params_to_args-returns returns [] types params e h = ground arith
  map_params_to_args-returns returns (name ∷ names) [] params e h = ground arith
  map_params_to_args-returns returns (name ∷ names) (t ∷ types) params e h =
      let found = lookup Bytes-discrete name params in
      elim (Outcome-cases (map_param rf t found)) [
        | inl (v, f) ↦
            ground (arith, map_params_to_args-returns returns names types params (omega arith))
        | inr (inl (x, f)) ↦ ground arith
        | inr (inr f) ↦ map_param-returns returns t found f
      ]

  map_params_to_args-eq-ok :
      (names : List Bytes) (types : List rf.ArgType) (params : List (Bytes × Bytes))
      {vs : List rf.Value}
      → map_params_to_args rf names types params ≡ ok vs
      → length vs ≡ length names
  unfolding map_params_to_args
  map_params_to_args-eq-ok [] types params h = ground arith
  map_params_to_args-eq-ok (name ∷ names) [] params h = ground arith
  map_params_to_args-eq-ok (name ∷ names) (t ∷ types) params h =
      let found = lookup Bytes-discrete name params in
      elim (Outcome-cases (map_params_to_args rf names types params)) [
        | inl (vs, f) ↦ ground (arith, map_params_to_args-eq-ok names types params f)
        | inr (inl (x, f)) ↦ ground arith
        | inr (inr f) ↦ ground arith
      ]

  array_args-returns :
      Returns
      → (types : List rf.ArgType) (raws : List Bytes) → length types ≡ length raws
      → array_args rf types raws ≢ panic
  unfolding array_args
  array_args-returns returns types [] e h = ground arith
  array_args-returns returns [] (raw ∷ raws) e h = ground arith
  array_args-returns returns (t ∷ types) (raw ∷ raws) e h =
      elim (Outcome-cases (unmarshal_arg rf t raw)) [
        | inl (v, f) ↦ ground (arith, array_args-returns returns types raws (omega arith))
        | inr (inl (x, f)) ↦ ground arith
        | inr (inr f) ↦ unmarshal_arg-returns returns t raw f
      ]

  array_args-eq-ok :
      (types : List rf.ArgType) (raws : List Bytes) {vs : List rf.Value}
      → array_args rf types raws ≡ ok vs
      → length vs ≡ length raws
  unfolding array_args
  array_args-eq-ok types [] h = ground arith
  array_args-eq-ok [] (raw ∷ raws) h = ground arith
  array_args-eq-ok (t ∷ types) (raw ∷ raws) h = elim (Outcome-cases (array_args rf types raws)) [
    | inl (vs, f) ↦ ground (arith, array_args-eq-ok types raws f)
    | inr (inl (x, f)) ↦ ground arith
    | inr (inr f) ↦ ground arith
  ]

  pub length-drop_one :
      (types : List rf.ArgType) (names : List Bytes)
      → length types ≡ suc (length names)
      → length (drop 1 types) ≡ length names
  length-drop_one [] names e = ground arith
  length-drop_one (t ∷ types) names e = ground arith

  json_params_to_args-returns :
      Returns
      → (fn : RpcFunc rf) (raw : Bytes) → length fn.args ≡ suc (length fn.arg_names)
      → json_params_to_args rf fn raw ≢ panic
  unfolding json_params_to_args array_params_to_args
  json_params_to_args-returns returns fn raw named h =
      let shape = length-drop_one fn.args fn.arg_names named in
      elim (Option-cases (rf.params_map raw)) [
        | inr (ps, e) ↦
            ground
              (arith, map_params_to_args-returns returns fn.arg_names (drop 1 fn.args) ps shape)
        | inl n ↦ elim (Option-cases (rf.params_array raw)) [
          | inr (ps, e) ↦ ground (arith, array_args-returns returns (drop 1 fn.args) ps)
          | inl m ↦ ground arith
        ]
      ]

  json_params_to_args-eq-ok :
      (fn : RpcFunc rf) (raw : Bytes) {vs : List rf.Value}
      → json_params_to_args rf fn raw ≡ ok vs
      → length vs ≡ length fn.arg_names
  unfolding json_params_to_args array_params_to_args
  json_params_to_args-eq-ok fn raw {vs} h = elim (Option-cases (rf.params_map raw)) [
    | inr (ps, e) ↦
        ground (arith, map_params_to_args-eq-ok fn.arg_names (drop 1 fn.args) ps {vs = vs})
    | inl n ↦ elim (Option-cases (rf.params_array raw)) [
      | inr (ps, e) ↦ ground (arith, array_args-eq-ok (drop 1 fn.args) ps {vs = vs})
      | inl m ↦ ground arith
    ]
  ]

  no_arguments : (fn : RpcFunc rf) {raw : Bytes} → raw ≡ [] → arguments rf fn raw ≡ ok []
  unfolding arguments
  no_arguments fn e = rw e refl

  arguments-cases :
      Returns
      → (fn : RpcFunc rf) (raw : Bytes) → length fn.args ≡ suc (length fn.arg_names)
      → ((raw ≡ []) × (arguments rf fn raw ≡ ok []))
        ⊎ ((vs : List rf.Value) × (arguments rf fn raw ≡ ok vs) × (length vs ≡ length fn.arg_names))
        ⊎ ((e : Problem rf.Error) × (arguments rf fn raw ≡ err e))
  unfolding arguments
  arguments-cases returns fn [] named = inl (refl, refl)
  arguments-cases returns fn (c ∷ raw) named =
      elim (Outcome-cases (json_params_to_args rf fn (c ∷ raw))) [
        | inl (vs, e) ↦ inr (inl (vs, ground arith, json_params_to_args-eq-ok fn (c ∷ raw) e))
        | inr (inl (x, e)) ↦ inr (inr (x, ground arith))
        | inr (inr e) ↦ absurd (json_params_to_args-returns returns fn (c ∷ raw) named e)
      ]

  call_function-panic_iff :
      (fn : RpcFunc rf) (id : Bytes) (args : List rf.Value) (cache : Bool) (s : rf.State)
      → ((call_function rf fn id args cache s).0 ≡ Served.panicked) ↔ (length args ≢ length fn.args)
  unfolding call_function call
  call_function-panic_iff fn id args cache s = elim (Outcome-cases (fn.function args s).0) [
    | inl (v, e) ↦ (ground arith, ground arith)
    | inr (inl (x, e)) ↦ (ground arith, ground arith)
    | inr (inr e) ↦ (ground arith, ground arith)
  ]

  -- A call of a function that takes parameters, without any.
  pub record Underfed (fn : RpcFunc rf) (r : Request) : Type 0 where
    pub named : length fn.args ≡ suc (length fn.arg_names)
    pub takes_params : fn.arg_names ≢ []
    pub without_params : r.params ≡ []

  serve_function-panic_iff :
      Returns
      → (fn : RpcFunc rf) (id : Bytes) (r : Request) (cache : Bool) (s : rf.State)
      → ((serve_function rf fn id r cache s).0 ≡ Served.panicked) ↔ Underfed fn r
  unfolding serve_function
  serve_function-panic_iff returns fn id r cache s = (
    λ h.
        let named : length fn.args ≡ suc (length fn.arg_names) = ground arith in
        elim (arguments-cases returns fn r.params named) [
          | inl (empty, e) ↦
              let inner : (call_with [] cache s).0 ≡ Served.panicked = ground arith in
              let differ = (panics [] cache s).0 inner in
              record {
                named = named;
                takes_params = λ n. differ (ground (arith, ap (length {A = Bytes}) n));
                without_params = empty;
              }
          | inr (inl (vs, e, shape)) ↦
              let inner : (call_with vs cache s).0 ≡ Served.panicked = ground arith in
              absurd ((panics vs cache s).0 inner (omega arith))
          | inr (inr (x, e)) ↦ absurd (ground arith)
        ],
    λ fed.
        let differ : length (rf.context r ∷ []) ≢ length fn.args =
          λ e. fed.takes_params (no_names fed.named e) in
        let none_given = no_arguments fn fed.without_params in
        let inner = (panics [] cache s).1 differ in let named = fed.named in ground arith,
  )
    where
      call_with : List rf.Value → Bool → rf.State → Served rf.Error rf.Value × rf.State
      call_with vs = call_function rf fn id (rf.context r ∷ vs)

      panics :
          (vs : List rf.Value) (cache : Bool) (s : rf.State)
          → ((call_with vs cache s).0 ≡ Served.panicked)
            ↔ (length (rf.context r ∷ vs) ≢ length fn.args)
      panics vs = call_function-panic_iff fn id (rf.context r ∷ vs)

      no_names :
          {names : List Bytes}
          → length fn.args ≡ suc (length names)
          → 1 ≡ length fn.args
          → names ≡ []
      no_names {names = []} e f = refl
      no_names {names = n ∷ names} e f = absurd (omega arith)

  -- A request makes the server panic, where the JSON library does not, exactly if it is no notification
  -- and calls a function of no websocket, with a name for each argument and at least one name, without
  -- any parameters.
  pub serve_request-panic_iff :
      Returns
      → (funcs : List (Bytes × RpcFunc rf)) (r : Request) (cache : Bool) (s : rf.State)
      → ((serve_request rf funcs r cache s).0 ≡ Served.panicked) ↔ (
          (id : Bytes) × (fn : RpcFunc rf) × (r.id ≡ some id)
          × (lookup Bytes-discrete r.method funcs ≡ some fn)
          × (fn.ws ≡ false)
          × Underfed fn r)
  unfolding serve_request
  serve_request-panic_iff returns funcs r cache s = (
    λ h. elim (Option-cases r.id) [
      | inl e ↦ absurd (ground arith)
      | inr (id, e) ↦ elim (Option-cases (lookup Bytes-discrete r.method funcs)) [
        | inl n ↦ absurd (ground arith)
        | inr (fn, f) ↦
            let inner : (serve_function rf fn id r cache s).0 ≡ Served.panicked = ground arith in
            let ws : fn.ws ≡ false = ground arith in
            (id, fn, e, f, ws, (serve_function-panic_iff returns fn id r cache s).0 inner)
      ]
    ],
    λ (id, fn, e, f, ws, fed).
        let inner = (serve_function-panic_iff returns fn id r cache s).1 fed in ground arith,
  )
