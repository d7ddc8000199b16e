-- ===== src/Vm/Initialize/Keeps.antt =====
-- The steps of `Initialize` (vm/vm.go) that leave its connections as they are.
use slide_sdk.Common.{ℕ, ◌≡◌, refl, ◌∙◌, Option, List}
use slide_sdk.Common.Outcome.{ok, err, panic}
use slide_sdk.Chain.Types.{State, Result}
use slide_sdk.Chain.Library.{Library}
use slide_sdk.Config.{VmConfig}
use slide_sdk.Executor.World.{World, Exec, Trace}
use slide_sdk.Vm.Boot.{
  InitializeRequest, Boot, Setup, Init, lift, pure, exec, modify, continue, ◌>>=◌,
}
use slide_sdk.Vm.Initialize.{
  register_metrics, make_app, configure, load_genesis, start_services, replay, make_warp,
  find_last_block, settle, start_up, arrange, finish,
}

abbrev pub Conns : Type 0
Conns = Option ℕ × Option ℕ × List ℕ

-- The connection to the engine, that to the database, and those of the closer.
unfoldable pub conns : Boot → Conns
conns b = (b.client_conn, b.database_client, b.conn_closer)

-- a step that leaves the connections as they are
pub record Keeps {A : Type 0} (m : Init A) : Type 0 where
  pub at : (b : Boot) (tr : Trace) → conns (m b tr).1 ≡ conns b

module _ {A : Type 0} where
  pub Keeps-lift : (r : Result A) → Keeps (lift r)
  Keeps-lift r = record { at = λ b tr. refl }

  pub Keeps-exec : (m : Exec A) → Keeps (exec m)
  Keeps-exec m = record { at = λ b tr. refl }

  pub Keeps-pure : (a : A) → Keeps (pure a)
  Keeps-pure a = record { at = λ b tr. refl }

module _ {A B : Type 0} where
  pub Keeps-continue :
      (r : Result A) (f : A → Init B)
      → ((a : A) → Keeps (f a))
      → (b : Boot) (tr : Trace) → conns (continue r f b tr).1 ≡ conns b
  Keeps-continue (ok a) f h b tr = (h a).at b tr
  Keeps-continue (err e) f h b tr = refl
  Keeps-continue panic f h b tr = refl

  pub Keeps-bind :
      (m : Init A) (f : A → Init B) → Keeps m → ((a : A) → Keeps (f a)) → Keeps (m >>= f)
  unfolding ◌>>=◌
  Keeps-bind m f k h = record {
    at = λ b tr. let (r, b', tr') = m b tr in Keeps-continue r f h b' tr' ∙ k.at b tr;
  }

pub Keeps-modify : (f : Boot → Boot) → ((b : Boot) → conns (f b) ≡ conns b) → Keeps (modify f)
Keeps-modify f h = record { at = λ b tr. h b }

ruleset keeping = (Keeps-bind, Keeps-lift, Keeps-pure, Keeps-exec, Keeps-modify)

module _ (env : Setup) where
  pub Keeps-make_app : (req : InitializeRequest) → Keeps (make_app env req)
  unfolding make_app conns
  Keeps-make_app req = search (keeping, refl)

  pub Keeps-configure : (req : InitializeRequest) → Keeps (configure env req)
  unfolding configure conns
  Keeps-configure req = search (keeping, refl)

  pub Keeps-load_genesis : (req : InitializeRequest) → Keeps (load_genesis env req)
  unfolding load_genesis conns
  Keeps-load_genesis req = search (keeping, refl)

  pub Keeps-start_services : (app : ℕ) → Keeps (start_services env app)
  unfolding start_services conns
  Keeps-start_services app = search (keeping, refl) depth 12

  pub Keeps-replay : (loaded : State × ℕ) → Keeps (replay env loaded)
  unfolding replay conns
  Keeps-replay loaded = search (keeping, refl)

  pub Keeps-make_warp : (req : InitializeRequest) → Keeps (make_warp env req)
  unfolding make_warp conns
  Keeps-make_warp req = search (keeping, refl) depth 16

  pub Keeps-find_last_block :
      (lib : Library) (w : World) (c : VmConfig) (s : State) → Keeps (find_last_block env lib w c s)
  unfolding find_last_block conns
  Keeps-find_last_block lib w c s = search (keeping, refl)

  -- the steps of `prepare` after the connections
  pub Keeps-after_connections :
      (req : InitializeRequest) → Keeps (make_app env req >>= λ app. arrange env req app)
  unfolding arrange settle start_up
  Keeps-after_connections req =
      search
        (
          keeping, Keeps-make_app, Keeps-configure, Keeps-load_genesis, Keeps-start_services,
          Keeps-replay,
        )
        depth 16

  pub Keeps-finish :
      (lib : Library) (w : World) (req : InitializeRequest) (prepared : VmConfig × State)
      → Keeps (finish env lib w req prepared)
  unfolding finish
  Keeps-finish lib w req prepared = search (keeping, Keeps-find_last_block, Keeps-make_warp) depth 8

  pub Keeps-register_metrics : Keeps (register_metrics env)
  unfolding register_metrics
  Keeps-register_metrics = search (keeping, refl)
