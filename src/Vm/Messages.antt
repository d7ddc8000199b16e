-- ===== src/Vm/Messages.antt =====
-- The handlers that pass a message on or answer on the machine's services (vm/vm.go: `Health`, `Version`,
-- `CreateHandlers`, `AppRequest` and the others on application messages, `Gather`, and those that are not
-- implemented). A health report, the
-- metrics and the network are parameters.
use slide_sdk.Common.{
  ℕ, ◌≡◌, ◌≢◌, ◌↔◌, sym, ap, ◌∙◌, Bool, false, Option, none, some, [], ◌∷◌, Bytes, length, ◌==◌,
  if◌then◌else◌, arith, Option-cases, inl, inr,
}
use slide_sdk.Common.Outcome.{ok, err, panic, Outcome-cases}
use slide_sdk.Chain.Types.{Result, Error, wrong_hash_length, unimplemented}
use slide_sdk.Chain.Library.{Library}
use slide_sdk.Executor.World.{World, Trace}
use slide_sdk.Vm.Closers.{ServerCloser, add_server}
use slide_sdk.Vm.Boot.{InitializeRequest, Database, Boot, Setup, new_via_db, ◌>>=◌}
use slide_sdk.Vm.Starting.{InitializeResponse}
use slide_sdk.Vm.Initialize.{
  register_metrics, connect_to, connect, dial_database, open_connections, prepare, initialize,
}
use slide_sdk.Vm.Initialize.Keeps.{conns, Conns, Keeps-after_connections, Keeps-finish}
use slide_sdk.Vm.Initialize.Steps.{bind-eq-ok}

-- `Health`: the health of the database behind a connection, and `json.Marshal` of the report; a nil client
-- is a panic
unfoldable pub health :
    (ℕ → Result Bytes) → (Bytes → Bytes × Option Error) → Boot → Result (Bytes × Option Error)
health check marshal b = elim b.database_client [
  | none ↦ panic
  | some client ↦ elim (check client) [
    | ok report ↦ ok (marshal report)
    | err e ↦ err e
    | panic ↦ panic
  ]
]

-- `Version`, "0.0.0"
abbrev pub version : Bytes
version = 48 ∷ 46 ∷ 48 ∷ 46 ∷ 48 ∷ []

-- `CreateHandlers`: the server is in the closer also where no listener is made
unfoldable pub create_handlers :
    ℕ → Result Bytes → ServerCloser → Result (Bytes × Bytes) × ServerCloser
create_handlers server listener closer = (
  elim listener [
    | ok address ↦ ok (47 ∷ 114 ∷ 112 ∷ 99 ∷ [], address)
    | err e ↦ err e
    | panic ↦ panic
  ],
  add_server server closer,
)

-- `ids.ToNodeID`
unfoldable pub to_node_id : Bytes → Result Bytes
to_node_id bytes = if length bytes == 20 then ok bytes else err wrong_hash_length

-- `peer.Network`, with a state: each call can fail.
pub record Network (S : Type 0) : Type 0 where
  pub app_request : Bytes → ℕ → ℕ → Bytes → S → Result (Unit {0}) × S
  pub app_request_failed : Bytes → ℕ → ℕ → Bytes → S → Result (Unit {0}) × S
  pub app_response : Bytes → ℕ → Bytes → S → Result (Unit {0}) × S

module _ {S : Type 0} where
  -- a call for a node that a message names; the network is nil before `Initialize`
  unfoldable pub for_node :
      Option (Network S)
      → Bytes
      → (Network S → Bytes → S → Result (Unit {0}) × S)
      → S
      → Result (Unit {0}) × S
  for_node network node call s = elim (to_node_id node) [
    | err e ↦ (err e, s)
    | panic ↦ (panic, s)
    | ok id ↦ elim network [ none ↦ (panic, s) | some n ↦ call n id s ]
  ]

  unfoldable pub app_request :
      Option (Network S) → Bytes → ℕ → ℕ → Bytes → S → Result (Unit {0}) × S
  app_request network node request deadline payload =
      for_node network node (λ n id. n.app_request id request deadline payload)

  unfoldable pub app_request_failed :
      Option (Network S) → Bytes → ℕ → ℕ → Bytes → S → Result (Unit {0}) × S
  app_request_failed network node request code message =
      for_node network node (λ n id. n.app_request_failed id request code message)

  unfoldable pub app_response : Option (Network S) → Bytes → ℕ → Bytes → S → Result (Unit {0}) × S
  app_response network node request response =
      for_node network node (λ n id. n.app_response id request response)

-- `Gather`, on what the registry of metrics returns; there is none before `Initialize`
unfoldable pub gather : {A : Type 0} → Option (Result A) → Result A
gather none = panic
gather (some metrics) = metrics

-- `StateSyncEnabled`: nothing sets `vmenabled` after `NewViaDB`
abbrev pub state_sync_enabled : Bool
state_sync_enabled = false

-- The handlers that are not implemented: most return an error, two panic.
pub data Unimplemented : Type 0 where
  app_gossip cross_chain_app_request cross_chain_app_request_failed cross_chain_app_response :
      Unimplemented
  get_ancestors get_ongoing_sync_state_summary get_last_state_summary parse_state_summary :
      Unimplemented
  get_state_summary state_summary_accept : Unimplemented

unfoldable pub answer_unimplemented : Unimplemented → Result (Unit {0})
answer_unimplemented Unimplemented.get_ongoing_sync_state_summary = panic
answer_unimplemented Unimplemented.get_last_state_summary = panic
answer_unimplemented Unimplemented.app_gossip = err unimplemented
answer_unimplemented Unimplemented.cross_chain_app_request = err unimplemented
answer_unimplemented Unimplemented.cross_chain_app_request_failed = err unimplemented
answer_unimplemented Unimplemented.cross_chain_app_response = err unimplemented
answer_unimplemented Unimplemented.get_ancestors = err unimplemented
answer_unimplemented Unimplemented.parse_state_summary = err unimplemented
answer_unimplemented Unimplemented.get_state_summary = err unimplemented
answer_unimplemented Unimplemented.state_summary_accept = err unimplemented

module _ (env : Setup) where
  open_connections-client :
      (d : Option Database) (c o : Option ℕ) (req : InitializeRequest) (tr : Trace) {u : Unit {0}}
      {b : Boot} {tr' : Trace}
      → open_connections env req (new_via_db d c o) tr ≡ (ok u, b, tr')
      → (b.database_client ≡ none) ↔ (d ≢ none)
  unfolding open_connections new_via_db register_metrics connect connect_to dial_database ◌>>=◌
  open_connections-client none c o req tr h = (ground arith, ground arith)
  open_connections-client (some d) c o req tr h = (ground arith, ground arith)

  -- the connection to the database after `Initialize`
  initialize-client :
      (lib : Library) (w : World) (d : Option Database) (c o : Option ℕ) (req : InitializeRequest)
      (tr : Trace) {r : InitializeResponse} {b : Boot} {tr' : Trace}
      → initialize env lib w req (new_via_db d c o) tr ≡ (ok r, b, tr')
      → (b.database_client ≡ none) ↔ (d ≢ none)
  unfolding initialize prepare conns
  initialize-client lib w d c o req tr {b = b} h =
      let (prepared, b2, t2, e2, k2) = bind-eq-ok _ _ h in
      let (u, b1, t1, e1, k1) = bind-eq-ok _ _ e2 in
      let opened = open_connections-client d c o req tr e1 in
      let rest = (Keeps-after_connections env req).at b1 t1 in
      let last = (Keeps-finish env lib w req prepared).at b2 t2 in
      let same : b.database_client ≡ b1.database_client =
        ap (λ x. x.1.database_client) (sym k2)
        ∙ ap (λ (x : Conns). x.1) last
        ∙ (ap (λ x. x.1.database_client) (sym k1) ∙ ap (λ (x : Conns). x.1) rest) in
      rw same opened

-- After an `Initialize` that answered, `Health` panics exactly where the machine was made with a database
-- of its own: the client that it asks is then nil. The client of a connection does not panic.
pub health-panic_iff :
    (env : Setup) (lib : Library) (w : World) (check : ℕ → Result Bytes)
    (marshal : Bytes → Bytes × Option Error) (database : Option Database)
    (client opt_client : Option ℕ) (req : InitializeRequest) (tr : Trace) {r : InitializeResponse}
    {b : Boot} {tr' : Trace}
    → ((c : ℕ) → check c ≢ panic)
    → initialize env lib w req (new_via_db database client opt_client) tr ≡ (ok r, b, tr')
    → (health check marshal b ≡ panic) ↔ (database ≢ none)
unfolding health
health-panic_iff env lib w check marshal database client opt_client req tr {b = b} returns h =
    let with = initialize-client env lib w database client opt_client req tr h in
    elim (Option-cases b.database_client) [
      | inl e ↦ ((λ p. with.0 e), (λ n. ground arith))
      | inr (c, e) ↦ elim (Outcome-cases (check c)) [
        | inl (v, f) ↦ ((λ p. absurd (ground arith)), (λ n. absurd (ground (arith, with.1 n))))
        | inr (inl (x, f)) ↦
            ((λ p. absurd (ground arith)), (λ n. absurd (ground (arith, with.1 n))))
        | inr (inr f) ↦ absurd (returns c f)
      ]
    ]
