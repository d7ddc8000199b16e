-- ===== src/Vm/Stopping.antt =====
-- `Shutdown` and `CanShutdown` (vm/vm.go).
use slide_sdk.Common.{
  ℕ, ◌≡◌, refl, sym, Bool, true, Option, none, some, List, [], ◌∷◌, ◌++◌, if◌then◌else◌, append-nil,
  append_assoc,
}
use slide_sdk.Vm.Storage.{Caches}
use slide_sdk.Vm.Machine.{Vm}

-- The services that `Shutdown` stops: each is there or not, and its stop gives an error or none.
pub record Services : Type 0 where
  pub closed : Bool
  pub indexer_service : Option (Option ℕ)
  pub event_bus : Option (Option ℕ)
  pub app : Option (Option ℕ)
  pub state_store : Option (Option ℕ)
  pub block_store : Option (Option ℕ)
  pub connections : Option ℕ

-- What `Shutdown` stops, in its order.
pub data Stopped : Type 0 where
  closed indexer_service event_bus app state_store block_store server connections : Stopped

-- `errors.Join` with the errors so far
abbrev pub join : Option ℕ → List ℕ → List ℕ
join none errors = errors
join (some e) errors = errors ++ e ∷ []

-- one service that may be missing
unfoldable pub stop : Stopped → Option (Option ℕ) → List Stopped × List ℕ → List Stopped × List ℕ
stop s none (stopped, errors) = (stopped, errors)
stop s (some e) (stopped, errors) = (stopped ++ s ∷ [], join e errors)

-- `Shutdown`: the machine, what was stopped, and the errors that are joined
unfoldable pub shutdown : {c : Caches} → Services → Vm c → Vm c × (List Stopped × List ℕ)
shutdown sv vm =
    let (stopped, errors) = stop Stopped.block_store sv.block_store (
      stop Stopped.state_store sv.state_store (
        stop Stopped.app sv.app (
          stop Stopped.event_bus sv.event_bus (
            stop Stopped.indexer_service sv.indexer_service
              ((if sv.closed then Stopped.closed ∷ [] else []), []))))) in
    (
      record vm { allow_shutdown = true },
      (stopped ++ Stopped.server ∷ Stopped.connections ∷ [], join sv.connections errors),
    )

-- which of the services are there
pub there : Stopped → Option (Option ℕ) → List Stopped
there s none = []
there s (some e) = s ∷ []

stop-fst :
    (s : Stopped) (o : Option (Option ℕ)) (p : List Stopped × List ℕ)
    → (stop s o p).0 ≡ p.0 ++ there s o
unfolding stop there
stop-fst s none (stopped, errors) = sym (append-nil stopped)
stop-fst s (some e) (stopped, errors) = refl

-- `Shutdown` stops every service that is there, each once and in a fixed order, whichever of the stops
-- fail, and lets the machine be shut down.
pub shutdown-stops :
    {c : Caches} (sv : Services) (vm : Vm c)
    → ((shutdown sv vm).1.0
        ≡ (if sv.closed then Stopped.closed ∷ [] else [])
          ++ there Stopped.indexer_service sv.indexer_service
          ++ there Stopped.event_bus sv.event_bus
          ++ there Stopped.app sv.app
          ++ there Stopped.state_store sv.state_store
          ++ there Stopped.block_store sv.block_store
          ++ Stopped.server ∷ Stopped.connections ∷ [])
      × ((shutdown sv vm).0.allow_shutdown ≡ true)
unfolding shutdown
shutdown-stops sv vm = (simp (stop-fst, append_assoc) refl, refl)

-- `CanShutdown`
abbrev pub can_shutdown : {c : Caches} → Vm c → Bool
can_shutdown vm = vm.allow_shutdown
