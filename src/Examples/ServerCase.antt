-- ===== src/Examples/ServerCase.antt =====
-- The theorem on the loop that waits for signals, at a run with an early signal, and `Serve` where the
-- runtime refuses to start the machine.
use slide_sdk.Common.{◌≡◌, ◌↔◌, refl, true, false, none, some, [], ◌∷◌}
use slide_sdk.Common.Outcome.{ok}
use slide_sdk.Server.{
  Signal, Event, watch, running, Ended, watch-stopped_iff, ServeError, Runtime, close_listener,
  serve_on, listen_with, dial_to, serve,
}

watch-stopped_iff_example :
    ((watch
        (Event.signal Signal.terminate
          ∷ Event.shutdown
          ∷ Event.signal Signal.interrupt
          ∷ Event.signal Signal.terminate
          ∷ [])
        (running false)).stopped
      ≡ true)
    ↔ Ended false (
        Event.signal Signal.terminate
        ∷ Event.shutdown
        ∷ Event.signal Signal.interrupt
        ∷ Event.signal Signal.terminate
        ∷ [])
watch-stopped_iff_example = watch-stopped_iff (
    Event.signal Signal.terminate
    ∷ Event.shutdown
    ∷ Event.signal Signal.interrupt
    ∷ Event.signal Signal.terminate
    ∷ [])

abbrev refusing : Runtime
refusing = record {
  address = some (1 ∷ []);
  dial = λ a. ok 2;
  listen = ok 3;
  initialize = λ conn l. some 4;
}

refused :
    serve refusing
    ≡ some
        (record { listening = []; served_on = none; error = some (ServeError.not_initialized 4) })
unfolding serve dial_to listen_with serve_on close_listener
refused = refl
