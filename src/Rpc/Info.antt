-- ===== src/Rpc/Info.antt =====
-- The handlers of vm/rpc.go that report on the machine (`Status`, `Health`) and those that pass a call on
-- to the application. The texts of identifiers and the application are parameters.
use slide_sdk.Common.{
  ℕ, zero, suc, refl, if◌then◌else◌, ◌≡◌, Bool, [], ◌∷◌, ◌++◌, Bytes, codes, length, ◌==◌, arith,
}
use slide_sdk.Common.Int.{ℤ}
use slide_sdk.Common.Outcome.{ok, ◌>>=◌}
use slide_sdk.Chain.Types.{Result}
use slide_sdk.Config.{VmConfig}
use slide_sdk.Rpc.Blocks.{Stores, SyncInfo, sync_info}
use slide_sdk.Vm.Machine.{to_id}
use slide_sdk.Vm.Boot.{AppCreatorOpts}

-- What `Status` reports that depends on the machine; the rest of `ResultStatus` is constant.
pub record ResultStatus : Type 0 where
  pub default_node_id : Bytes
  pub listen_addr : Bytes
  pub network : Bytes
  pub moniker : Bytes
  pub sync_info : SyncInfo

-- `%x` of bytes, and the text of an identifier
pub record Texts : Type 0 where
  pub hex : Bytes → Bytes
  pub id_text : Bytes → Bytes

-- `ids.Empty`
unfoldable pub zeros : ℕ → Bytes
zeros zero = []
zeros (suc n) = 0 ∷ zeros n

-- the identifier of the chain, which is nil where its bytes are missing in the engine's request
unfoldable pub chain_id_of : Bytes → Result Bytes
chain_id_of bytes = if length bytes == 0 then ok (zeros 32) else to_id bytes

module _ (texts : Texts) (stores : Stores) where
  -- "/ext/bc/%s/rpc"
  unfoldable pub listen_addr_of : Bytes → Bytes
  listen_addr_of id = codes "/ext/bc/" ++ texts.id_text id ++ codes "/rpc"

  -- `Status`: the options of the application and the configuration are there after `Initialize`
  unfoldable pub status : AppCreatorOpts → VmConfig → Result ResultStatus
  status opts config = do
    id ← chain_id_of opts.chain_id
    ok (record {
      default_node_id = texts.hex opts.node_id;
      listen_addr = listen_addr_of id;
      network = config.network_name;
      moniker = texts.hex opts.node_id;
      sync_info = sync_info stores;
    })

-- The connections to the application: `CheckTx`, `Info`, and `Query` of a path, data, a height and
-- whether a proof is asked for.
pub record AppQueries : Type 0 where
  pub check_tx : Bytes → Result Bytes
  pub info : Result Bytes
  pub query : Bytes → Bytes → ℤ → Bool → Result Bytes

-- The handlers that pass a call on, and `Health`, which answers nothing.
pub data Query : Type 0 where
  health : Query
  check_tx : Bytes → Query
  abci_info : Query
  abci_query : Bytes → Bytes → ℤ → Bool → Query

unfoldable pub pass_on : AppQueries → Query → Result Bytes
pass_on app Query.health = ok []
pass_on app (Query.check_tx tx) = app.check_tx tx
pass_on app Query.abci_info = app.info
pass_on app (Query.abci_query path data_bytes height prove) = app.query path data_bytes height prove

-- Where the identifier of the chain has the length that `Initialize` asks for, `Status` answers, with the
-- address of the chain and the report on the blocks.
status-ok :
    (texts : Texts) (stores : Stores) (opts : AppCreatorOpts) (config : VmConfig) {chain : Bytes}
    → to_id opts.chain_id ≡ ok chain
    → (r : ResultStatus) × (status texts stores opts config ≡ ok r)
      × (r.listen_addr ≡ codes "/ext/bc/" ++ texts.id_text opts.chain_id ++ codes "/rpc")
      × (r.sync_info ≡ sync_info stores)
unfolding status chain_id_of to_id listen_addr_of
status-ok texts stores opts config h =
    let valid : length opts.chain_id ≡ 32 = ground arith in
    let same : chain_id_of opts.chain_id ≡ ok opts.chain_id = ground arith in
    let r : ResultStatus = record {
      default_node_id = texts.hex opts.node_id;
      listen_addr = listen_addr_of texts stores opts.chain_id;
      network = config.network_name;
      moniker = texts.hex opts.node_id;
      sync_info = sync_info stores;
    } in
    (r, rw same refl, refl, refl)
