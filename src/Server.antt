-- ===== src/Server.antt =====
-- `Serve` (server/sdk_server.go): the loop that waits for signals, and the way to a server that listens.
-- The environment, gRPC and the engine's runtime are parameters. The engine's `Shutdown`, which allows
-- the machine to be shut down (vm/vm.go), is an event between the signals.
use slide_sdk.Common.{
  ℕ, ◌≡◌, ◌↔◌, refl, Bool, true, false, Option, none, some, List, [], ◌∷◌, Bytes, if◌then◌else◌,
  ◌==◌,
}
use slide_sdk.Common.Outcome.{Outcome, ok, err, panic}

pub data Signal : Type 0 where
  interrupt terminate : Signal

-- What the loop receives, and the call of `Shutdown`.
pub data Event : Type 0 where
  signal : Signal → Event
  cancelled : Event
  shutdown : Event

-- `CanShutdown`, and whether the loop has returned, which stops the server
pub record Watch : Type 0 where
  pub can_shutdown : Bool
  pub stopped : Bool

-- a signal that is let through
unfoldable pub on_signal : Signal → Watch → Watch
on_signal Signal.interrupt w = w
on_signal Signal.terminate w = record w { stopped = true }

-- one round of the loop
unfoldable pub on_event : Event → Watch → Watch
on_event (Event.signal s) w = if w.can_shutdown then on_signal s w else w
on_event Event.cancelled w = record w { stopped = true }
on_event Event.shutdown w = record w { can_shutdown = true }

-- the loop, which receives nothing once it has returned
unfoldable pub watch : List Event → Watch → Watch
watch [] w = w
watch (e ∷ es) w = let rest = watch es (on_event e w) in if w.stopped then w else rest

-- The ends of a run: the context is cancelled, or a signal to terminate comes after a `Shutdown`.
pub data Ended : Bool → List Event → Type 0 where
  cancelled : {can : Bool} {es : List Event} → Ended can (Event.cancelled ∷ es)
  terminated : {es : List Event} → Ended true (Event.signal Signal.terminate ∷ es)
  shutdown : {can : Bool} {es : List Event} → Ended true es → Ended can (Event.shutdown ∷ es)
  later :
      {can : Bool} {s : Signal} {es : List Event} → Ended can es → Ended can (Event.signal s ∷ es)

abbrev pub running : Bool → Watch
running can = record { can_shutdown = can; stopped = false }

watch-stopped : (es : List Event) (w : Watch) → w.stopped ≡ true → (watch es w).stopped ≡ true
unfolding watch
watch-stopped [] w h = h
watch-stopped (e ∷ es) w h = rw (watch, h) refl

Ended-watch :
    (es : List Event) (can : Bool) → (watch es (running can)).stopped ≡ true → Ended can es
unfolding watch on_event on_signal
Ended-watch [] can h = absurd (cc h)
Ended-watch (Event.cancelled ∷ es) can h = cancelled
Ended-watch (Event.shutdown ∷ es) can h = shutdown (Ended-watch es true h)
Ended-watch (Event.signal Signal.interrupt ∷ es) true h = later (Ended-watch es true h)
Ended-watch (Event.signal Signal.interrupt ∷ es) false h = later (Ended-watch es false h)
Ended-watch (Event.signal Signal.terminate ∷ es) true h = terminated
Ended-watch (Event.signal Signal.terminate ∷ es) false h = later (Ended-watch es false h)

watch-Ended :
    {es : List Event} {can : Bool} → Ended can es → (watch es (running can)).stopped ≡ true
unfolding watch on_event on_signal
watch-Ended {es = Event.cancelled ∷ es} cancelled = watch-stopped es _ refl
watch-Ended {es = Event.signal Signal.terminate ∷ es} terminated = watch-stopped es _ refl
watch-Ended (shutdown e) = watch-Ended e
watch-Ended {es = Event.signal Signal.interrupt ∷ es} {can = true} (later e) = watch-Ended e
watch-Ended {es = Event.signal Signal.interrupt ∷ es} {can = false} (later e) = watch-Ended e
watch-Ended {es = Event.signal Signal.terminate ∷ es} {can = true} (later e) =
    watch-stopped es _ refl
watch-Ended {es = Event.signal Signal.terminate ∷ es} {can = false} (later e) = watch-Ended e

-- The loop of a server whose machine was not shut down returns, and stops the server, exactly in a run
-- where the context is cancelled or a signal to terminate comes after a `Shutdown`: no signal before it
-- and no interrupt stops the server.
pub watch-stopped_iff :
    (es : List Event) → ((watch es (running false)).stopped ≡ true) ↔ Ended false es
watch-stopped_iff es = (Ended-watch es false, watch-Ended)

-- Why `Serve` does not serve.
pub data ServeError : Type 0 where
  missing_address : ServeError
  no_connection no_listener not_initialized : ℕ → ServeError

-- What `Serve` asks for: the address of the runtime in the environment, a connection to it, a listener,
-- and the runtime's `Initialize`, which can fail.
pub record Runtime : Type 0 where
  pub address : Option Bytes
  pub dial : Bytes → Outcome ℕ ℕ
  pub listen : Outcome ℕ ℕ
  pub initialize : ℕ → ℕ → Option ℕ

-- The listeners that are open after `Serve` has returned, that on which it served, and its error.
pub record Served : Type 0 where
  pub listening : List ℕ
  pub served_on : Option ℕ
  pub error : Option ServeError

abbrev refuse : ServeError → Option Served
refuse e = some (record { listening = []; served_on = none; error = some e })

-- `_ = listener.Close()`
unfoldable pub close_listener : ℕ → List ℕ → List ℕ
close_listener l [] = []
close_listener l (x ∷ xs) = let rest = close_listener l xs in if x == l then rest else x ∷ rest

-- with a listener and a connection
unfoldable pub serve_on : Runtime → ℕ → ℕ → Option Served
serve_on r conn l = elim (r.initialize conn l) [
  | some e ↦ some (record {
    listening = close_listener l (l ∷ []);
    served_on = none;
    error = some (ServeError.not_initialized e);
  })
  | none ↦ some (record { listening = close_listener l (l ∷ []); served_on = some l; error = none })
]

unfoldable pub listen_with : Runtime → ℕ → Option Served
listen_with r conn = elim r.listen [
  | err e ↦ refuse (ServeError.no_listener e)
  | panic ↦ none
  | ok l ↦ serve_on r conn l
]

unfoldable pub dial_to : Runtime → Bytes → Option Served
dial_to r address = elim (r.dial address) [
  | err e ↦ refuse (ServeError.no_connection e)
  | panic ↦ none
  | ok conn ↦ listen_with r conn
]

-- `Serve` after the loop was started; `none` is a panic
unfoldable pub serve : Runtime → Option Served
serve r = elim r.address [ none ↦ refuse ServeError.missing_address | some a ↦ dial_to r a ]
