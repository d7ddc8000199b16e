-- ===== src/Vm/Boot.antt =====
-- What `Initialize` (vm/vm.go) reads and writes: its request, the fields of `LandslideVM` that it fills,
-- and the calls that it makes of services outside the repository.
use slide_sdk.Common.{ℕ, Bool, false, Option, none, List, [], Bytes}
use slide_sdk.Common.Outcome.{ok, err, panic}
use slide_sdk.Chain.Types.{State, Error, Result}
use slide_sdk.Config.{VmConfig, Invalid}
use slide_sdk.Executor.World.{Trace, Exec}

-- `InitializeRequest`
pub record InitializeRequest : Type 0 where
  pub network_id : ℕ
  pub subnet_id : Bytes
  pub chain_id : Bytes
  pub node_id : Bytes
  pub public_key : Bytes
  pub x_chain_id : Bytes
  pub c_chain_id : Bytes
  pub avax_asset_id : Bytes
  pub chain_data_dir : Bytes
  pub genesis_bytes : Bytes
  pub upgrade_bytes : Bytes
  pub config_bytes : Bytes
  pub db_server_addr : Bytes
  pub server_addr : Bytes

-- `AppCreatorOpts`; its field `Config` is never set
pub record AppCreatorOpts : Type 0 where
  pub network_id : ℕ
  pub subnet_id : Bytes
  pub chain_id : Bytes
  pub node_id : Bytes
  pub public_key : Bytes
  pub x_chain_id : Bytes
  pub c_chain_id : Bytes
  pub avax_asset_id : Bytes
  pub genesis_bytes : Bytes
  pub upgrade_bytes : Bytes
  pub config_bytes : Bytes
  pub chain_data_dir : Bytes

-- The database that a machine was made with, or the one behind a connection.
pub data Database : Type 0 where
  given : Database
  remote : ℕ → Database

-- What the backend of warp messages and the warp service are made of.
pub record WarpBackend : Type 0 where
  pub network_id : ℕ
  pub chain_id : Bytes

pub record WarpService : Type 0 where
  pub network_id : ℕ
  pub subnet_id : Bytes
  pub chain_id : Bytes

-- The fields of `LandslideVM`: a connection, an application and a genesis document are numbers, and a
-- service that is only started and stopped is there or not.
pub record Boot : Type 0 where
  pub opt_client_conn : Option ℕ
  pub client_conn : Option ℕ
  pub conn_closer : List ℕ
  pub closed : Bool
  pub database : Option Database
  pub database_client : Option ℕ
  pub block_store : Bool
  pub state_store : Bool
  pub app_opts : Option AppCreatorOpts
  pub config : Option VmConfig
  pub state : Option State
  pub genesis : Option ℕ
  pub gen_chunks : List Bytes
  pub app : Option ℕ
  pub event_bus : Bool
  pub indexer_service : Bool
  pub mempool : Bool
  pub warp_backend : Option WarpBackend
  pub warp_service : Option WarpService
  pub network : Bool
  pub request_handler : Bool

-- `NewViaDB` with the options `WithClientConn` and `WithOptClientConn`
unfoldable pub new_via_db : Option Database → Option ℕ → Option ℕ → Boot
new_via_db database client opt_client = record {
  opt_client_conn = opt_client;
  client_conn = client;
  conn_closer = [];
  closed = false;
  database = database;
  database_client = none;
  block_store = false;
  state_store = false;
  app_opts = none;
  config = none;
  state = none;
  genesis = none;
  gen_chunks = [];
  app = none;
  event_bus = false;
  indexer_service = false;
  mempool = false;
  warp_backend = none;
  warp_service = none;
  network = false;
  request_handler = false;
}

-- The calls of `Initialize`: those that only can fail are the error that they return, if any.
pub record Setup : Type 0 where
  -- the registrations of metrics, by their number
  pub register : ℕ → Result (Unit {0})
  pub write_address : Bytes → Result (Unit {0})
  -- `grpc.NewClient`
  pub dial : Bytes → Result ℕ
  pub create_app : AppCreatorOpts → Result ℕ
  -- `json.Unmarshal` over a configuration
  pub unmarshal_config : Bytes → VmConfig → Result VmConfig
  -- a configuration that `Validate` refuses
  pub invalid_config : Invalid → Error
  -- `LoadStateFromDBOrGenesisDocProvider`, for the bytes of the genesis document
  pub load_state_or_genesis : Bytes → Result (State × ℕ)
  pub base64 : Bytes → Bytes
  pub start_app : ℕ → Result (Unit {0})
  pub start_event_bus : Result (Unit {0})
  pub start_indexer : Result (Unit {0})
  -- the handshake replays stored blocks, before the first call of the trace
  pub handshake : State → ℕ → Result (Unit {0})
  pub load_state : Result State
  -- `ToProto` of the nil of a block that is not stored
  pub nil_block : Error
  pub new_validators_manager : Result (Unit {0})
  pub new_network : Result (Unit {0})
  pub add_signature_handler : Result (Unit {0})

-- A step: its result, the fields and the calls made after it, also where it fails.
abbrev pub Init : Type 0 → Type 0
Init A = Boot → Trace → Result A × Boot × Trace

module _ {A : Type 0} where
  abbrev pub lift : Result A → Init A
  lift r b tr = (r, b, tr)

  abbrev pub pure : A → Init A
  pure a b tr = (ok a, b, tr)

  abbrev pub gets : (Boot → A) → Init A
  gets f b tr = (ok (f b), b, tr)

  abbrev pub exec : Exec A → Init A
  exec m b tr = let (r, tr') = m tr in (r, b, tr')

abbrev pub modify : (Boot → Boot) → Init (Unit {0})
modify f b tr = (ok tt, f b, tr)

module _ {A B : Type 0} where
  abbrev pub continue : Result A → (A → Init B) → Init B
  continue (ok a) f b tr = f a b tr
  continue (err e) f b tr = (err e, b, tr)
  continue panic f b tr = (panic, b, tr)

  infixl 5 ◌>>=◌ ◌>>◌
  unfoldable pub ◌>>=◌ : Init A → (A → Init B) → Init B
  ◌>>=◌ m f b tr = let (r, b', tr') = m b tr in continue r f b' tr'

  abbrev pub ◌>>◌ : Init A → Init B → Init B
  m >> n = m >>= λ _. n
