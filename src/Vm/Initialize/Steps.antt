-- ===== src/Vm/Initialize/Steps.antt =====
-- What each step of `Initialize` (vm/vm.go) has done where it returned.
use slide_sdk.Common.{ℕ, ◌≡◌, refl, sym, ap, ◌∙◌, inl, inr, Option, some, ◌++◌, arith}
use slide_sdk.Common.Outcome.{ok, err, panic, Outcome-cases}
use slide_sdk.Chain.Types.{State, Block, Result}
use slide_sdk.Chain.Library.{Library}
use slide_sdk.Config.{VmConfig}
use slide_sdk.Executor.World.{World, Trace}
use slide_sdk.Vm.Machine.{to_id}
use slide_sdk.Vm.Starting.{InitializeResponse, last_block, initialize_response}
use slide_sdk.Vm.Boot.{InitializeRequest, Boot, Setup, Init, continue, ◌>>=◌}
use slide_sdk.Vm.Initialize.{
  app_opts, limits_of, genesis_chunks, register_metrics, connect_to, connect, dial_database,
  read_config, check_config, make_app, configure, load_genesis, start_services, replay, make_warp,
  find_last_block, open_connections, settle, start_up, arrange, prepare, finish,
}

module _ {A B : Type 0} where
  -- a step that returns has run its first part to the end
  pub bind-eq-ok :
      (m : Init A) (f : A → Init B) {r : B} {b b' : Boot} {tr tr' : Trace}
      → (m >>= f) b tr ≡ (ok r, b', tr')
      → (a : A) × (c : Boot) × (t : Trace) × (m b tr ≡ (ok a, c, t)) × (f a c t ≡ (ok r, b', tr'))
  unfolding ◌>>=◌
  bind-eq-ok m f {r = r} {b = b} {b' = b'} {tr = tr} {tr' = tr'} h =
      go (m b tr).0 (m b tr).1 (m b tr).2 refl h
    where
      go :
          (x : Result A) (c : Boot) (t : Trace)
          → m b tr ≡ (x, c, t)
          → continue x f c t ≡ (ok r, b', tr')
          → (a : A) × (d : Boot) × (u : Trace) × (m b tr ≡ (ok a, d, u))
            × (f a d u ≡ (ok r, b', tr'))
      go (ok a) c t e k = (a, c, t, e, k)
      go (err x) c t e k = cc
      go panic c t e k = cc

module _ (env : Setup) (b : Boot) (tr : Trace) {b' : Boot} {tr' : Trace} where
  pub make_app-eq-ok :
      (req : InitializeRequest) {app : ℕ}
      → make_app env req b tr ≡ (ok app, b', tr')
      → (env.create_app (app_opts req) ≡ ok app) × (b'.gen_chunks ≡ b.gen_chunks) × (tr' ≡ tr)
  unfolding make_app ◌>>=◌
  make_app-eq-ok req h = ground arith

  pub make_warp-eq-ok :
      (req : InitializeRequest) {u : Unit {0}}
      → make_warp env req b tr ≡ (ok u, b', tr')
      → (b'.warp_backend ≡ some (record { network_id = req.network_id; chain_id = req.chain_id }))
        × (b'.warp_service
            ≡ some (record {
              network_id = req.network_id;
              subnet_id = req.subnet_id;
              chain_id = req.chain_id;
            }))
        × (b'.config ≡ b.config)
        × (b'.gen_chunks ≡ b.gen_chunks)
        × (b'.state ≡ b.state)
        × (tr' ≡ tr)
  unfolding make_warp ◌>>=◌ to_id
  make_warp-eq-ok req h = ground arith

  pub find_last_block-eq-ok :
      (lib : Library) (w : World) (c : VmConfig) (s : State) {r : InitializeResponse}
      → find_last_block env lib w c s b tr ≡ (ok r, b', tr')
      → (o : Option Block) × (t : State) × (last_block lib w (limits_of c) s tr ≡ (ok (o, t), tr'))
        × (initialize_response lib w (limits_of c) env.nil_block o ≡ ok r)
        × (b'.state ≡ some t)
        × (b'.config ≡ b.config)
        × (b'.gen_chunks ≡ b.gen_chunks)
  unfolding find_last_block ◌>>=◌
  find_last_block-eq-ok lib w c s h = elim (Outcome-cases (last_block lib w (limits_of c) s tr).0) [
    | inl ((o, t), e) ↦ (o, t, ground arith, ground arith, ground arith, ground arith, ground arith)
    | inr (inl (x, e)) ↦ absurd (ground arith)
    | inr (inr e) ↦ absurd (ground arith)
  ]

  pub open_connections-eq-ok :
      (req : InitializeRequest) {u : Unit {0}}
      → open_connections env req b tr ≡ (ok u, b', tr')
      → (b'.gen_chunks ≡ b.gen_chunks) × (tr' ≡ tr)
  unfolding open_connections register_metrics connect connect_to dial_database ◌>>=◌
  open_connections-eq-ok req h = ground arith

  pub settle-eq-ok :
      (req : InitializeRequest) {settled : VmConfig × (State × ℕ)}
      → settle env req b tr ≡ (ok settled, b', tr')
      → (check_config env (read_config env req.config_bytes) ≡ ok settled.0)
        × (b'.config ≡ some settled.0)
        × (b'.gen_chunks ≡ b.gen_chunks ++ genesis_chunks env.base64 req.genesis_bytes)
        × (tr' ≡ tr)
  unfolding settle configure load_genesis ◌>>=◌
  settle-eq-ok req h = ground arith

  pub start_up-eq-ok :
      (app : ℕ) (loaded : State × ℕ) {s : State}
      → start_up env app loaded b tr ≡ (ok s, b', tr')
      → (env.load_state ≡ ok s)
        × (b'.config ≡ b.config)
        × (b'.gen_chunks ≡ b.gen_chunks)
        × (tr' ≡ tr)
  unfolding start_up start_services replay ◌>>=◌
  start_up-eq-ok app loaded h = ground arith

module _ (env : Setup) (b : Boot) (tr : Trace) {b' : Boot} {tr' : Trace} where
  pub arrange-eq-ok :
      (req : InitializeRequest) (app : ℕ) {c : VmConfig} {s : State}
      → arrange env req app b tr ≡ (ok (c, s), b', tr')
      → (check_config env (read_config env req.config_bytes) ≡ ok c)
        × (env.load_state ≡ ok s)
        × (b'.config ≡ some c)
        × (b'.gen_chunks ≡ b.gen_chunks ++ genesis_chunks env.base64 req.genesis_bytes)
        × (tr' ≡ tr)
  unfolding arrange
  arrange-eq-ok req app h =
      let (settled, b1, t1, e1, k1) = bind-eq-ok _ _ h in
      let (u, b2, t2, e2, k2) = bind-eq-ok _ _ k1 in
      let f1 = settle-eq-ok env b tr req e1 in
      let f2 = start_up-eq-ok env b1 t1 app settled.1 e2 in
      (ground arith, ground arith, ground arith, ground arith, ground arith)

module _ (env : Setup) (b : Boot) (tr : Trace) {b' : Boot} {tr' : Trace} where
  pub prepare-eq-ok :
      (req : InitializeRequest) {c : VmConfig} {s : State}
      → prepare env req b tr ≡ (ok (c, s), b', tr')
      → (check_config env (read_config env req.config_bytes) ≡ ok c)
        × (env.load_state ≡ ok s)
        × (b'.config ≡ some c)
        × (b'.gen_chunks ≡ b.gen_chunks ++ genesis_chunks env.base64 req.genesis_bytes)
        × (tr' ≡ tr)
  unfolding prepare
  prepare-eq-ok req h =
      let (u, b1, t1, e1, k1) = bind-eq-ok _ _ h in
      let (app, b2, t2, e2, k2) = bind-eq-ok _ _ k1 in
      let f1 = open_connections-eq-ok env b tr req e1 in
      let f2 = make_app-eq-ok env b1 t1 req e2 in
      let f3 = arrange-eq-ok env b2 t2 req app k2 in (f3.0, f3.1, f3.2, ground arith, ground arith)

module _ (env : Setup) (b : Boot) (tr : Trace) {b' : Boot} {tr' : Trace} where
  pub finish-eq-ok :
      (lib : Library) (w : World) (req : InitializeRequest) (c : VmConfig) (s : State)
      {r : InitializeResponse}
      → finish env lib w req (c, s) b tr ≡ (ok r, b', tr')
      → (o : Option Block) × (t : State) × (last_block lib w (limits_of c) s tr ≡ (ok (o, t), tr'))
        × (initialize_response lib w (limits_of c) env.nil_block o ≡ ok r)
        × (b'.state ≡ some t)
        × (b'.config ≡ b.config)
        × (b'.gen_chunks ≡ b.gen_chunks)
        × (b'.warp_backend ≡ some (record { network_id = req.network_id; chain_id = req.chain_id }))
        × (b'.warp_service
            ≡ some (record {
              network_id = req.network_id;
              subnet_id = req.subnet_id;
              chain_id = req.chain_id;
            }))
  unfolding finish
  finish-eq-ok lib w req c s {r = r} h =
      let (a, b1, t1, e1, k1) = bind-eq-ok _ _ h in
      let (u, b2, t2, e2, k2) = bind-eq-ok _ _ k1 in
      let (o, t, last, answer, has, kept, chunked) = find_last_block-eq-ok env b tr lib w c s e1 in
      let f = make_warp-eq-ok env b1 t1 req e2 in
      let same_a : a ≡ r = cc in
      let same_b : b2 ≡ b' = cc in
      let same_t : t2 ≡ tr' = cc in
      (
        o,
        t,
        last ∙ ap (λ x. (ok (o, t), x)) (sym f.5 ∙ same_t),
        answer ∙ ap ok same_a,
        ap (λ (x : Boot). x.state) (sym same_b) ∙ f.4 ∙ has,
        ap (λ (x : Boot). x.config) (sym same_b) ∙ f.2 ∙ kept,
        ap (λ (x : Boot). x.gen_chunks) (sym same_b) ∙ f.3 ∙ chunked,
        ap (λ (x : Boot). x.warp_backend) (sym same_b) ∙ f.0,
        ap (λ (x : Boot). x.warp_service) (sym same_b) ∙ f.1,
      )
