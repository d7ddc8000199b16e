-- ===== src/Jsonrpc/Typed.antt =====
-- The types of the arguments that the server calls a function with (jsonrpc/http_json_handler.go).
use slide_sdk.Common.{
  suc, ◌≡◌, refl, subst, ◌⊎◌, inl, inr, List, [], ◌∷◌, length, drop, Option, none, some, Bytes,
  Bytes-discrete, Option-cases, Bool-cases, ◌==◌, arith,
}
use slide_sdk.Common.Map.{lookup}
use slide_sdk.Common.Outcome.{ok, Outcome-cases, >>=-eq-ok}
use slide_sdk.Jsonrpc.Crashes.{length-drop_one}
use slide_sdk.Jsonrpc.Handler.{
  Reflection, RpcFunc, unmarshal_arg, map_param, map_params_to_args, array_args,
  array_params_to_args, json_params_to_args, arguments,
}

module _ (rf : Reflection) (HasType : rf.ArgType → rf.Value → Type 0) where
  -- values of the types of a list, in its order and as many
  pub data Typed : List rf.ArgType → List rf.Value → Type 0 where
    done : Typed [] []
    more :
        {t : rf.ArgType} {v : rf.Value} {types : List rf.ArgType} {vs : List rf.Value}
        → HasType t v
        → Typed types vs
        → Typed (t ∷ types) (v ∷ vs)

  -- `reflect.New` and `json.Unmarshal` give a value of the type, and `reflect.Zero` too
  pub record Sound : Type 0 where
    pub unmarshal_type :
        (t : rf.ArgType) (raw : Bytes) {v : rf.Value} → rf.unmarshal t raw ≡ ok v → HasType t v
    pub zero_type : (t : rf.ArgType) → HasType t (rf.zero_value t)

  module _ (sound : Sound) where
    unmarshal_arg-HasType :
        (t : rf.ArgType) (raw : Bytes) {v : rf.Value} → unmarshal_arg rf t raw ≡ ok v → HasType t v
    unfolding unmarshal_arg
    unmarshal_arg-HasType t raw {v} h = elim (Outcome-cases (rf.unmarshal t raw)) [
      | inl (u, e) ↦ sound.unmarshal_type t raw (ground arith)
      | inr (inl (x, e)) ↦ absurd (ground arith)
      | inr (inr e) ↦ absurd (ground arith)
    ]

    map_param-HasType :
        (t : rf.ArgType) (found : Option Bytes) {v : rf.Value}
        → map_param rf t found ≡ ok v
        → HasType t v
    unfolding map_param
    map_param-HasType t none h = subst (HasType t) (ground arith) (sound.zero_type t)
    map_param-HasType t (some raw) {v} h = elim (Bool-cases (length raw == 0)) [
      | inl e ↦
          let same : rf.zero_value t ≡ v = ground arith in
          subst (HasType t) same (sound.zero_type t)
      | inr e ↦ unmarshal_arg-HasType t raw (ground arith)
    ]

    map_params_to_args-Typed :
        (names : List Bytes) (types : List rf.ArgType) (params : List (Bytes × Bytes))
        {vs : List rf.Value}
        → length types ≡ length names
        → map_params_to_args rf names types params ≡ ok vs
        → Typed types vs
    unfolding map_params_to_args
    map_params_to_args-Typed [] [] params l h = subst (Typed []) (ground arith) done
    map_params_to_args-Typed [] (t ∷ types) params l h = absurd (omega arith)
    map_params_to_args-Typed (name ∷ names) [] params l h = absurd (omega arith)
    map_params_to_args-Typed (name ∷ names) (t ∷ types) params l h =
        let (v, e1, k1) = >>=-eq-ok (map_param rf t (lookup Bytes-discrete name params)) _ h in
        let (us, e2, k2) = >>=-eq-ok (map_params_to_args rf names types params) _ k1 in
        subst (Typed (t ∷ types)) (ground arith) (
          more (map_param-HasType t (lookup Bytes-discrete name params) e1)
            (map_params_to_args-Typed names types params (omega arith) e2))

    array_args-Typed :
        (types : List rf.ArgType) (raws : List Bytes) {vs : List rf.Value}
        → length types ≡ length raws
        → array_args rf types raws ≡ ok vs
        → Typed types vs
    unfolding array_args
    array_args-Typed [] [] l h = subst (Typed []) (ground arith) done
    array_args-Typed (t ∷ types) [] l h = absurd (omega arith)
    array_args-Typed [] (raw ∷ raws) l h = absurd (omega arith)
    array_args-Typed (t ∷ types) (raw ∷ raws) l h =
        let (v, e1, k1) = >>=-eq-ok (unmarshal_arg rf t raw) _ h in
        let (us, e2, k2) = >>=-eq-ok (array_args rf types raws) _ k1 in
        subst (Typed (t ∷ types)) (ground arith)
          (more (unmarshal_arg-HasType t raw e1) (array_args-Typed types raws (omega arith) e2))

    json_params_to_args-Typed :
        (fn : RpcFunc rf) (raw : Bytes) {vs : List rf.Value}
        → length fn.args ≡ suc (length fn.arg_names)
        → json_params_to_args rf fn raw ≡ ok vs
        → Typed (drop 1 fn.args) vs
    unfolding json_params_to_args array_params_to_args
    json_params_to_args-Typed fn raw named h =
        let shape = length-drop_one rf fn.args fn.arg_names named in
        elim (Option-cases (rf.params_map raw)) [
          | inr (ps, e) ↦
              map_params_to_args-Typed fn.arg_names (drop 1 fn.args) ps shape (ground arith)
          | inl n ↦ elim (Option-cases (rf.params_array raw)) [
            | inl m ↦ absurd (ground arith)
            | inr (ps, e) ↦ elim (Bool-cases (length fn.arg_names == length ps)) [
              | inl q ↦ array_args-Typed (drop 1 fn.args) ps (ground arith) (ground arith)
              | inr q ↦ absurd (ground arith)
            ]
          ]
        ]

    -- The arguments that a function is called with, after the context, have the types of its parameters,
    -- each in its place and as many, whether the parameters came as a JSON object or as an array; or the
    -- request had no parameters, and there are no arguments. A function has a name for each parameter,
    -- and the JSON library gives values of the types that it is asked for.
    pub arguments-Typed :
        (fn : RpcFunc rf) (params : Bytes) {vs : List rf.Value}
        → length fn.args ≡ suc (length fn.arg_names)
        → arguments rf fn params ≡ ok vs
        → ((params ≡ []) × (vs ≡ [])) ⊎ Typed (drop 1 fn.args) vs
    unfolding arguments
    arguments-Typed fn [] named h = inl (refl, ground arith)
    arguments-Typed fn (c ∷ params) named h =
        inr (json_params_to_args-Typed fn (c ∷ params) named (ground arith))
