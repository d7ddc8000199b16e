-- ===== src/Jsonrpc/Replies.antt =====
-- Which requests are answered, in which order, and which crash the server (jsonrpc/http_json_handler.go).
use slide_sdk.Common.{
  ◌≡◌, ◌≢◌, refl, ap, ◌⊎◌, inl, inr, Bool, List, [], ◌∷◌, none, some, Bytes, Bytes-discrete,
  Option-cases, arith,
}
use slide_sdk.Common.Map.{lookup}
use slide_sdk.Common.Outcome.{Outcome-cases}
use slide_sdk.Jsonrpc.Handler.{
  Request, Reflection, Response, Served, RpcFunc, call, call_function, arguments, serve_function,
  serve_request, serve_all,
}

-- The identifier of a response.
pub response_id : {E V : Type 0} → Response E V → Bytes
response_id (Response.success id v) = id
response_id (Response.method_not_found id) = id
response_id (Response.internal_error id p) = id
response_id (Response.invalid_params id p) = id

pub response_ids : {E V : Type 0} → List (Response E V) → List Bytes
response_ids [] = []
response_ids (a ∷ rest) = response_id a ∷ response_ids rest

-- The identifiers of the requests that are no notifications.
pub request_ids : List Request → List Bytes
request_ids [] = []
request_ids (r ∷ rs) = elim r.id [ none ↦ request_ids rs | some id ↦ id ∷ request_ids rs ]

-- To split on what became of a request.
Served-cases :
    {E V : Type 0} (x : Served E V)
    → (x ≡ Served.skipped)
      ⊎ (x ≡ Served.panicked)
      ⊎ ((a : Response E V) × (cache : Bool) × (x ≡ Served.answered a cache))
Served-cases Served.skipped = inl refl
Served-cases Served.panicked = inr (inl refl)
Served-cases (Served.answered a cache) = inr (inr (a, cache, refl))

module _ (rf : Reflection) where
  call_function-answered :
      (fn : RpcFunc rf) (id : Bytes) (args : List rf.Value) (cache : Bool) (s : rf.State)
      {a : Response rf.Error rf.Value} {cache' : Bool}
      → (call_function rf fn id args cache s).0 ≡ Served.answered a cache'
      → response_id a ≡ id
  unfolding call_function response_id
  call_function-answered fn id args cache s h = elim (Outcome-cases (call rf fn args s).0) [
    | inl (v, e) ↦ ground arith
    | inr (inl (x, e)) ↦ ground arith
    | inr (inr e) ↦ ground arith
  ]

  call_function-calls :
      (fn : RpcFunc rf) (id : Bytes) (args : List rf.Value) (cache : Bool) (s : rf.State)
      → (call_function rf fn id args cache s).0 ≢ Served.skipped
  unfolding call_function
  call_function-calls fn id args cache s h = ground arith

  serve_function-answered :
      (fn : RpcFunc rf) (id : Bytes) (r : Request) (cache : Bool) (s : rf.State)
      {a : Response rf.Error rf.Value} {cache' : Bool}
      → (serve_function rf fn id r cache s).0 ≡ Served.answered a cache'
      → response_id a ≡ id
  unfolding serve_function response_id
  serve_function-answered fn id r cache s {a} {cache'} h =
      elim (Outcome-cases (arguments rf fn r.params)) [
        | inl (vs, e) ↦ ground (
          arith,
          call_function-answered fn id (rf.context r ∷ vs) cache s {a = a} {cache' = cache'},
        )
        | inr (inl (x, e)) ↦ ground arith
        | inr (inr e) ↦ ground arith
      ]

  serve_function-calls :
      (fn : RpcFunc rf) (id : Bytes) (r : Request) (cache : Bool) (s : rf.State)
      → (serve_function rf fn id r cache s).0 ≢ Served.skipped
  unfolding serve_function
  serve_function-calls fn id r cache s h = elim (Outcome-cases (arguments rf fn r.params)) [
    | inl (vs, e) ↦ ground (arith, call_function-calls fn id (rf.context r ∷ vs) cache s)
    | inr (inl (x, e)) ↦ ground arith
    | inr (inr e) ↦ ground arith
  ]

  serve_request-answered :
      (funcs : List (Bytes × RpcFunc rf)) (r : Request) (cache : Bool) (s : rf.State)
      {a : Response rf.Error rf.Value} {cache' : Bool}
      → (serve_request rf funcs r cache s).0 ≡ Served.answered a cache'
      → r.id ≡ some (response_id a)
  unfolding serve_request response_id
  serve_request-answered funcs r cache s {a} {cache'} h = elim (Option-cases r.id) [
    | inl e ↦ ground arith
    | inr (id, e) ↦ elim (Option-cases (lookup Bytes-discrete r.method funcs)) [
      | inl n ↦ ground arith
      | inr (fn, f) ↦
          ground (arith, serve_function-answered fn id r cache s {a = a} {cache' = cache'})
    ]
  ]

  serve_request-skipped :
      (funcs : List (Bytes × RpcFunc rf)) (r : Request) (cache : Bool) (s : rf.State)
      → (serve_request rf funcs r cache s).0 ≡ Served.skipped
      → r.id ≡ none
  unfolding serve_request
  serve_request-skipped funcs r cache s h = elim (Option-cases r.id) [
    | inl e ↦ e
    | inr (id, e) ↦ elim (Option-cases (lookup Bytes-discrete r.method funcs)) [
      | inl n ↦ ground arith
      | inr (fn, f) ↦ ground (arith, serve_function-calls fn id r cache s)
    ]
  ]

  -- the responses of a batch, where the first request is answered
  serve_all-answered :
      (funcs : List (Bytes × RpcFunc rf)) (r : Request) (rs : List Request) (cache : Bool)
      (s : rf.State) (a : Response rf.Error rf.Value) (flag : Bool)
      {answers : List (Response rf.Error rf.Value)} {cache' : Bool}
      → (serve_request rf funcs r cache s).0 ≡ Served.answered a flag
      → (serve_all rf funcs (r ∷ rs) cache s).0 ≡ some (answers, cache')
      → (rest : List (Response rf.Error rf.Value)) × (answers ≡ a ∷ rest)
        × ((serve_all rf funcs rs flag (serve_request rf funcs r cache s).1).0
            ≡ some (rest, cache'))
  unfolding serve_all
  serve_all-answered funcs r rs cache s a flag e h =
      elim (Option-cases (serve_all rf funcs rs flag (serve_request rf funcs r cache s).1).0) [
        | inl n ↦ absurd (ground arith)
        | inr ((rest, c), f) ↦ (rest, ground arith, ground arith)
      ]

  -- The responses of a batch carry the identifiers of its requests, without the notifications, each once
  -- and in their order, whenever the loop over the requests ends.
  pub serve_all-ids :
      (funcs : List (Bytes × RpcFunc rf)) (rs : List Request) (cache : Bool) (s : rf.State)
      {answers : List (Response rf.Error rf.Value)} {cache' : Bool}
      → (serve_all rf funcs rs cache s).0 ≡ some (answers, cache')
      → response_ids answers ≡ request_ids rs
  unfolding serve_all response_ids request_ids
  serve_all-ids funcs [] cache s {answers = []} h = refl
  serve_all-ids funcs [] cache s {answers = a ∷ rest} h = ground arith
  serve_all-ids funcs (r ∷ rs) cache s {answers} {cache'} h =
      let served = serve_request rf funcs r cache s in
      elim (Served-cases served.0) [
        | inl e ↦
            let ih = serve_all-ids funcs rs cache served.1 {answers = answers} {cache' = cache'} in
            let n = serve_request-skipped funcs r cache s e in ground arith
        | inr (inl e) ↦ absurd (ground arith)
        | inr (inr (a, flag, e)) ↦
            let n = serve_request-answered funcs r cache s {a = a} {cache' = flag} e in
            let (rest, shape, later) = serve_all-answered funcs r rs cache s a flag e h in
            let ih =
              serve_all-ids funcs rs flag served.1 {answers = rest} {cache' = cache'} later in
            rw (shape, n) (ap (◌∷◌ (response_id a)) ih)
      ]
