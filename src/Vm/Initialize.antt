-- ===== src/Vm/Initialize.antt =====
-- `Initialize` (vm/vm.go), step by step: the metrics, the connections, the database, the application, the
-- configuration, the state, the services, the last block and the warp service.
pub mod Keeps
pub mod Steps
pub mod Held
pub mod Made
use slide_sdk.Common.{
  ℕ, suc, true, Option, none, some, List, [], ◌∷◌, ◌++◌, Bytes, length, ◌==◌, if◌then◌else◌,
}
use slide_sdk.Common.Int.{pos}
use slide_sdk.Common.Outcome.{ok, err, panic}
use slide_sdk.Chain.Types.{State, Result}
use slide_sdk.Chain.Library.{Library}
use slide_sdk.Executor.World.{World}
use slide_sdk.Executor.Apply.{Limits}
use slide_sdk.Config.{VmConfig, ConsensusParams, set_defaults, validate}
use slide_sdk.Rpc.Genesis.{cut, genesis_chunk_size}
use slide_sdk.Vm.Machine.{to_id}
use slide_sdk.Vm.Starting.{InitializeResponse, last_block, initialize_response}
use slide_sdk.Vm.Closers.{add_closer, close_all}
use slide_sdk.Vm.Boot.{
  InitializeRequest, AppCreatorOpts, Database, WarpBackend, WarpService, Boot, Setup, Init, lift,
  pure, gets, exec, modify, ◌>>=◌, ◌>>◌,
}

abbrev pub app_opts : InitializeRequest → AppCreatorOpts
app_opts req = record {
  network_id = req.network_id;
  subnet_id = req.subnet_id;
  chain_id = req.chain_id;
  node_id = req.node_id;
  public_key = req.public_key;
  x_chain_id = req.x_chain_id;
  c_chain_id = req.c_chain_id;
  avax_asset_id = req.avax_asset_id;
  genesis_bytes = req.genesis_bytes;
  upgrade_bytes = req.upgrade_bytes;
  config_bytes = req.config_bytes;
  chain_data_dir = req.chain_data_dir;
}

-- the zero value of `vmtypes.Config`
abbrev zero_config : VmConfig
zero_config = record {
  network_name = [];
  timeout_broadcast_tx_commit = 0;
  consensus_params = record {
    block_max_bytes = pos 0;
    block_max_gas = pos 0;
    evidence_max_bytes = pos 0;
  };
  max_subscription_clients = pos 0;
  max_subscriptions_per_client = pos 0;
}

-- the limits that the executor is made with
abbrev pub limits_of : VmConfig → Limits
limits_of c = record {
  block_max_bytes = c.consensus_params.block_max_bytes;
  block_max_gas = c.consensus_params.block_max_gas;
  evidence_max_bytes = c.consensus_params.evidence_max_bytes;
}

-- the chunks of the genesis document; the loop ends before its fuel
unfoldable pub genesis_chunks : (Bytes → Bytes) → Bytes → List Bytes
genesis_chunks encode bytes = elim (cut encode (suc (length bytes)) genesis_chunk_size 0 bytes) [
  | none ↦ []
  | some chunks ↦ chunks
]

module _ (env : Setup) where
  unfoldable pub register_metrics : Init (Unit {0})
  register_metrics = do lift (env.register 0); lift (env.register 1); lift (env.register 2)

  -- A connection that cannot be made closes those of the closer.
  unfoldable pub connect_to : Result ℕ → Init (Unit {0})
  connect_to (ok conn) =
      modify
        (λ b. record b { conn_closer = add_closer conn b.conn_closer; client_conn = some conn })
  connect_to (err e) =
      modify (λ b. record b { conn_closer = (close_all (λ c. none) b.conn_closer).0 })
      >> lift (err e)
  connect_to panic = lift panic

  unfoldable pub connect : InitializeRequest → Option ℕ → Init (Unit {0})
  connect req (some conn) =
      modify
        (λ b. record b { conn_closer = add_closer conn b.conn_closer; client_conn = some conn })
  connect req none = do
    lift (env.write_address req.server_addr)
    connect_to (env.dial req.server_addr)

  unfoldable pub dial_database : InitializeRequest → Option Database → Init (Unit {0})
  dial_database req (some db) = pure tt
  dial_database req none = do
    conn ← lift (env.dial req.db_server_addr)
    modify (λ b. record b {
      conn_closer = add_closer conn b.conn_closer;
      database_client = some conn;
      database = some (Database.remote conn);
    })

  -- the connections and the database
  unfoldable pub open_connections : InitializeRequest → Init (Unit {0})
  open_connections req = do
    register_metrics
    opt ← gets (λ b. b.opt_client_conn)
    connect req opt
    modify (λ b. record b { closed = true })
    db ← gets (λ b. b.database)
    dial_database req db

  -- the configuration: the defaults, what the request changes of them, and the test
  unfoldable pub read_config : Bytes → Result VmConfig
  read_config bytes =
      if length bytes == 0
      then ok (set_defaults zero_config)
      else env.unmarshal_config bytes (set_defaults zero_config)

  unfoldable pub check_config : Result VmConfig → Result VmConfig
  check_config (ok c) = elim (validate c) [ none ↦ ok c | some e ↦ err (env.invalid_config e) ]
  check_config (err e) = err e
  check_config panic = panic

  unfoldable pub make_app : InitializeRequest → Init ℕ
  make_app req = do
    modify
        (λ b. record b { block_store = true; state_store = true; app_opts = some (app_opts req) })
    lift (env.create_app (app_opts req))

  unfoldable pub configure : InitializeRequest → Init VmConfig
  configure req = do
    c ← lift (check_config (read_config req.config_bytes))
    modify (λ b. record b { config = some c })
    pure c

  unfoldable pub load_genesis : InitializeRequest → Init (State × ℕ)
  load_genesis req = do
    loaded ← lift (env.load_state_or_genesis req.genesis_bytes)
    modify (λ b. record b {
      state = some loaded.0;
      genesis = some loaded.1;
      gen_chunks = b.gen_chunks ++ genesis_chunks env.base64 req.genesis_bytes;
    })
    pure loaded

  -- A field is set before its service starts, so `Shutdown` stops one that did not start.
  unfoldable pub start_services : ℕ → Init (Unit {0})
  start_services app = do
    modify (λ b. record b { app = some app })
    lift (env.start_app app)
    modify (λ b. record b { event_bus = true })
    lift env.start_event_bus
    modify (λ b. record b { indexer_service = true })
    lift env.start_indexer

  -- the handshake, the state after it, and the mempool
  unfoldable pub replay : State × ℕ → Init State
  replay loaded = do
    lift (env.handshake loaded.0 loaded.1)
    s ← lift env.load_state
    modify (λ b. record b { state = some s; mempool = true })
    pure s

  unfoldable pub make_warp : InitializeRequest → Init (Unit {0})
  make_warp req = do
    chain ← lift (to_id req.chain_id)
    lift env.new_validators_manager
    modify (λ b. record b {
      warp_backend = some (record { network_id = req.network_id; chain_id = chain });
    })
    subnet ← lift (to_id req.subnet_id)
    lift env.new_network
    modify (λ b. record b {
      network = true;
      warp_service =
          some (record { network_id = req.network_id; subnet_id = subnet; chain_id = chain });
    })
    lift env.add_signature_handler
    modify (λ b. record b { request_handler = true })

  -- the configuration and the state of the genesis document or of the database
  unfoldable pub settle : InitializeRequest → Init (VmConfig × (State × ℕ))
  settle req = do c ← configure req; loaded ← load_genesis req; pure (c, loaded)

  unfoldable pub start_up : ℕ → State × ℕ → Init State
  start_up app loaded = do start_services app; replay loaded

  -- all that comes after the application is made and before the last block
  unfoldable pub arrange : InitializeRequest → ℕ → Init (VmConfig × State)
  arrange req app = do settled ← settle req; s ← start_up app settled.1; pure (settled.0, s)

  unfoldable pub prepare : InitializeRequest → Init (VmConfig × State)
  prepare req = do open_connections req; app ← make_app req; arrange req app

  module _ (lib : Library) (w : World) where
    -- the last block, made where there is none, and the answer on it
    unfoldable pub find_last_block : VmConfig → State → Init InitializeResponse
    find_last_block c s = do
      found ← exec (last_block lib w (limits_of c) s)
      modify (λ b. record b { state = some found.1 })
      lift (initialize_response lib w (limits_of c) env.nil_block found.0)

    unfoldable pub finish : InitializeRequest → VmConfig × State → Init InitializeResponse
    finish req prepared = do
      response ← find_last_block prepared.0 prepared.1
      make_warp req
      pure response

    unfoldable pub initialize : InitializeRequest → Init InitializeResponse
    initialize req = do prepared ← prepare req; finish req prepared
