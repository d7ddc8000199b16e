-- ===== src/Vm/Closers.antt =====
-- The groups of objects that `Shutdown` closes: `Closer` (vm/types/closer/closer.go) and `ServerCloser`
-- (grpcutils/server_closer.go). A connection or a server is a number.
use slide_sdk.Common.{
  ℕ, ◌≡◌, refl, sym, subst, ap, Bool-cases, inl, inr, ◌∙◌, Bool, true, false, Option, none, some,
  List, [], ◌∷◌, ◌++◌, if◌then◌else◌, append-nil, append_assoc, arith,
}
use slide_sdk.Chain.Types.{Error}

-- The loop of `Closer.Close`, with the errors of the closers that failed.
unfoldable pub close_each : (ℕ → Option Error) → List ℕ → List ℕ × List Error
close_each close [] = ([], [])
close_each close (c ∷ cs) =
    let (closed, errors) = close_each close cs in
    (c ∷ closed, elim (close c) [ none ↦ errors | some e ↦ e ∷ errors ])

-- `Closer.Add`
unfoldable pub add_closer : ℕ → List ℕ → List ℕ
add_closer c closers = closers ++ c ∷ []

-- `Closer.Close`: the closers after it, those that it closed, and the errors that it joins
unfoldable pub close_all : (ℕ → Option Error) → List ℕ → List ℕ × List ℕ × List Error
close_all close closers = let (closed, errors) = close_each close closers in ([], closed, errors)

-- `ServerCloser`, with the servers that were stopped so far.
pub record ServerCloser : Type 0 where
  pub closed : Bool
  pub servers : List ℕ
  pub stopped : List ℕ

abbrev pub new_server_closer : ServerCloser
new_server_closer = record { closed = false; servers = []; stopped = [] }

unfoldable pub add_server : ℕ → ServerCloser → ServerCloser
add_server server s =
    if s.closed
    then record s { stopped = s.stopped ++ server ∷ [] }
    else record s { servers = s.servers ++ server ∷ [] }

-- `Stop`, and `GracefulStop`, which differ in how a server is stopped
unfoldable pub stop_servers : ServerCloser → ServerCloser
stop_servers s = record { closed = true; servers = []; stopped = s.stopped ++ s.servers }

-- The calls of a closer.
pub data Operation : Type 0 where
  add : ℕ → Operation
  stop : Operation

unfoldable pub operate : Operation → ServerCloser → ServerCloser
operate (Operation.add server) s = add_server server s
operate Operation.stop s = stop_servers s

unfoldable pub operate_all : List Operation → ServerCloser → ServerCloser
operate_all [] s = s
operate_all (o ∷ os) s = operate_all os (operate o s)

-- the servers that were added, in their order
pub added : List Operation → List ℕ
added [] = []
added (Operation.add server ∷ os) = server ∷ added os
added (Operation.stop ∷ os) = added os

-- whether `Stop` was called
pub was_stopped : List Operation → Bool
was_stopped [] = false
was_stopped (Operation.add server ∷ os) = was_stopped os
was_stopped (Operation.stop ∷ os) = true

-- the servers that are stopped or wait for it, and whether none waits where the closer is closed
record Keeps (s : ServerCloser) (servers : List ℕ) : Type 0 where
  all : s.stopped ++ s.servers ≡ servers
  none_left : s.closed ≡ true → s.servers ≡ []

module _ {s : ServerCloser} {servers : List ℕ} (k : Keeps s servers) where
  Keeps-add : (server : ℕ) → Keeps (add_server server s) (servers ++ server ∷ [])
  unfolding add_server
  Keeps-add server = elim (Bool-cases s.closed) [
    | inl is ↦
        let rest = k.none_left is in
        rw (add_server, is)
          (record {
            all = rw rest (
                append-nil _
                ∙ ap (λ l. l ++ server ∷ [])
                    (sym (append-nil _) ∙ ap (λ l. s.stopped ++ l) (sym rest) ∙ k.all));
            none_left = λ h. rest;
          })
    | inr not ↦
        rw (add_server, not)
          (record {
            all =
                sym (append_assoc s.stopped s.servers (server ∷ []))
                ∙ ap (λ l. l ++ server ∷ []) k.all;
            none_left = λ h. cc;
          })
  ]

  Keeps-stop : Keeps (stop_servers s) servers
  unfolding stop_servers
  Keeps-stop = record { all = append-nil (s.stopped ++ s.servers) ∙ k.all; none_left = λ h. refl }

add_server-closed :
    (s : ServerCloser) (server : ℕ) → s.closed ≡ true → (add_server server s).closed ≡ true
unfolding add_server
add_server-closed s server h = ground arith

Keeps-all :
    (os : List Operation) {s : ServerCloser} {servers : List ℕ}
    → Keeps s servers
    → Keeps (operate_all os s) (servers ++ added os)
      × (s.closed ≡ true → (operate_all os s).closed ≡ true)
      × (was_stopped os ≡ true → (operate_all os s).closed ≡ true)
unfolding operate_all operate added was_stopped stop_servers
Keeps-all [] {s = s} k = (rw (append-nil _) k, (λ h. h), (λ h. cc))
Keeps-all (Operation.add server ∷ os) {s = s} {servers = servers} k =
    let (kept, stays, stopped) = Keeps-all os (Keeps-add k server) in
    (
      subst (λ l. Keeps (operate_all os (add_server server s)) l)
          (append_assoc servers (server ∷ []) (added os)) kept,
      (λ h. stays (add_server-closed s server h)),
      stopped,
    )
Keeps-all (Operation.stop ∷ os) k =
    let (kept, stays, stopped) = Keeps-all os (Keeps-stop k) in
    (kept, (λ h. stays refl), (λ h. stays refl))

-- Whatever servers are added and whenever the group is stopped, the servers that were stopped and those
-- that wait for it are together all that were added, in their order; once `Stop` was called, every
-- server that is added, before it or later, is stopped, and none waits.
pub operate_all-stops :
    (os : List Operation)
    → ((operate_all os new_server_closer).stopped ++ (operate_all os new_server_closer).servers
        ≡ added os)
      × (was_stopped os ≡ true → (operate_all os new_server_closer).stopped ≡ added os)
operate_all-stops os =
    let (kept, _, closes) = Keeps-all os {s = new_server_closer} {servers = []} start in
    (
      kept.all,
      (λ h.
          let none = kept.none_left (closes h) in
          sym (append-nil _)
          ∙ ap (λ l. (operate_all os new_server_closer).stopped ++ l) (sym none)
          ∙ kept.all),
    )
  where
    start : Keeps new_server_closer []
    start = record { all = refl; none_left = λ h. refl }

-- `Close` calls every closer, each once and in their order, whichever of them fail.
pub close_each-all : (close : ℕ → Option Error) (cs : List ℕ) → (close_each close cs).0 ≡ cs
unfolding close_each
close_each-all close [] = refl
close_each-all close (c ∷ cs) = ap (◌∷◌ c) (close_each-all close cs)
