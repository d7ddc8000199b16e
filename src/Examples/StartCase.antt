-- ===== src/Examples/StartCase.antt =====
-- The theorems on a machine that starts on a chain with no block.
use slide_sdk.Common.{
  ℕ, ◌≡◌, ◌≢◌, ◌↔◌, refl, true, Option, none, some, Bytes, List, [], ◌∷◌, ◌++◌, length, replicate,
}
use slide_sdk.Common.Outcome.{ok, panic}
use slide_sdk.Chain.Types.{Result, Error}
use slide_sdk.Executor.World.{Trace}
use slide_sdk.Executor.CommitInfo.{
  build_extended_commit_info_from_store, build_extended_commit_info, extended_votes_of,
  extended_vote,
}
use slide_sdk.Executor.Apply.{create_proposal_block}
use slide_sdk.Vm.Consensus.{parent_hash, to_array}
use slide_sdk.Vm.Machine.{to_id}
use slide_sdk.Config.{set_defaults, validate, validate_params, evidence_bound}
use slide_sdk.Rpc.Genesis.{cut, chunk_at}
use slide_sdk.Vm.Starting.{InitializeResponse, last_block, first_block, initialize_response}
use slide_sdk.Vm.Closers.{
  Operation, new_server_closer, operate_all, added, was_stopped, operate_all-stops, add_closer,
  close_each, close_all,
}
use slide_sdk.Vm.Boot.{Database, InitializeRequest, Boot, Setup, new_via_db, ◌>>=◌}
use slide_sdk.Vm.Initialize.{
  genesis_chunks, register_metrics, connect_to, connect, dial_database, read_config, check_config,
  make_app, configure, load_genesis, start_services, replay, make_warp, find_last_block,
  open_connections, settle, start_up, arrange, prepare, finish, initialize,
}
use slide_sdk.Vm.Messages.{health, health-panic_iff}
use slide_sdk.Vm.Initialize.Made.{Made, initialize-Made}
use slide_sdk.Vm.Initialize.Held.{Opened, initialize-closes}
use slide_sdk.Examples.Instances.{library, world, genesis}
use slide_sdk.Examples.VmCase.{program}

abbrev setup : Setup
setup = record {
  register = λ n. ok tt;
  write_address = λ a. ok tt;
  dial = λ a. ok (length a);
  create_app = λ o. ok 1;
  unmarshal_config = λ b c. ok c;
  invalid_config = λ e. Error.external 3;
  load_state_or_genesis = λ b. ok (genesis, 4);
  base64 = λ b. b;
  start_app = λ a. ok tt;
  start_event_bus = ok tt;
  start_indexer = ok tt;
  handshake = λ s g. ok tt;
  load_state = ok genesis;
  nil_block = Error.external 9;
  new_validators_manager = ok tt;
  new_network = ok tt;
  add_signature_handler = ok tt;
}

abbrev id_of : ℕ → Bytes
id_of n = replicate 32 n

abbrev request : InitializeRequest
request = record {
  network_id = 1;
  subnet_id = id_of 2;
  chain_id = id_of 3;
  node_id = [];
  public_key = [];
  x_chain_id = [];
  c_chain_id = [];
  avax_asset_id = [];
  chain_data_dir = [];
  genesis_bytes = 123 ∷ 125 ∷ [];
  upgrade_bytes = [];
  config_bytes = [];
  db_server_addr = 1 ∷ 1 ∷ [];
  server_addr = 1 ∷ [];
}

abbrev started : Result InitializeResponse × Boot × Trace
started = initialize setup library world request (new_via_db none none none) []

abbrev response_of : Result InitializeResponse → InitializeResponse
response_of (ok r) = r
response_of _ = record {
  last_accepted_id = [];
  last_accepted_parent_id = [];
  height = 0;
  bytes = [];
  timestamp = 0;
}

begins : Unit {0}
unfolding program create_proposal_block build_extended_commit_info_from_store
    build_extended_commit_info extended_votes_of extended_vote parent_hash to_array last_block
    first_block initialize_response set_defaults validate validate_params evidence_bound cut
    chunk_at to_id add_closer close_each close_all new_via_db ◌>>=◌ genesis_chunks register_metrics
    connect_to connect dial_database read_config check_config make_app configure load_genesis
    start_services replay make_warp find_last_block open_connections settle start_up arrange prepare
    finish initialize
begins = tt

initialize-Made_example :
    Made setup library world (λ b. some b) request [] (response_of started.0) started.1 started.2
unfolding begins
initialize-Made_example =
    initialize-Made setup (λ b. some b) (λ b. refl) library world none none none request []
      {r = response_of started.0} {b = started.1} {tr' = started.2} refl

initialize-closes_example : Opened none (
  started.1.client_conn,
  started.1.database_client,
  (close_all (λ c. some (Error.external c)) started.1.conn_closer).1,
)
initialize-closes_example =
    initialize-closes setup library world (λ c. some (Error.external c)) none none none request []

abbrev started_with : Result InitializeResponse × Boot × Trace
started_with =
    initialize setup library world request (new_via_db (some Database.given) none none) []

health-panic_iff_example :
    (health (λ c. ok []) (λ b. (b, none)) started_with.1 ≡ panic)
    ↔ (◌≢◌ {A = Option Database} (some Database.given) none)
unfolding begins
health-panic_iff_example =
    health-panic_iff setup library world (λ c. ok []) (λ b. (b, none)) (some Database.given) none
      none request [] {r = response_of started_with.0} {b = started_with.1} {tr' = started_with.2}
      (λ c. λ e. cc) refl

operate_all-stops_example :
    ◌≡◌ {A = List ℕ}
      ((operate_all
          (Operation.add 1 ∷ Operation.stop ∷ Operation.add 2 ∷ [])
          new_server_closer).stopped
        ++ (operate_all
            (Operation.add 1 ∷ Operation.stop ∷ Operation.add 2 ∷ [])
            new_server_closer).servers)
      (added (Operation.add 1 ∷ Operation.stop ∷ Operation.add 2 ∷ []))
    × (was_stopped (Operation.add 1 ∷ Operation.stop ∷ Operation.add 2 ∷ []) ≡ true
        → (operate_all
            (Operation.add 1 ∷ Operation.stop ∷ Operation.add 2 ∷ [])
            new_server_closer).stopped
          ≡ added (Operation.add 1 ∷ Operation.stop ∷ Operation.add 2 ∷ []))
operate_all-stops_example =
    operate_all-stops (Operation.add 1 ∷ Operation.stop ∷ Operation.add 2 ∷ [])
