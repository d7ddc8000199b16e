-- ===== src/Rpc/Blocks.antt =====
-- The RPC handlers that read the stores (vm/rpc.go). The stores of CometBFT are a parameter, read while
-- a request is served; a missing block or commit is `none`, the nil of the source.
pub mod Heights
use slide_sdk.Common.{
  ℕ, zero, suc, Bool, not, Option, none, some, List, [], ◌∷◌, Bytes, length, if◌then◌else◌,
}
use slide_sdk.Common.Int.{ℤ, pos, negsuc, eqb_ℤ, ltb_ℤ, sub_int64}
use slide_sdk.Common.Outcome.{Outcome, ok, err, panic, ◌>>=◌}
use slide_sdk.Chain.Types.{
  BlockId, Block, Commit, Header, Validator, ValidatorSet, ConsensusParams, FinalizeResponse,
  ValidatorUpdate,
}
use slide_sdk.Rpc.{RpcError, filter_min_max, get_height}
use slide_sdk.Rpc.Pages.{paginate}

-- `types.BlockMeta`
pub record BlockMeta : Type 0 where
  pub block_id : BlockId
  pub header : Header

-- `store.BlockStore` and `state.Store`
pub record Stores : Type 0 where
  pub base : ℤ
  pub height : ℤ
  pub load_block : ℤ → Option Block
  pub load_block_by_hash : Bytes → Option Block
  pub load_block_meta : ℤ → Option BlockMeta
  pub load_base_meta : Option BlockMeta
  pub load_seen_commit : ℤ → Option Commit
  pub load_block_commit : ℤ → Option Commit
  pub load_finalize_block_response : ℤ → Outcome RpcError FinalizeResponse
  pub load_validators : ℤ → Outcome RpcError ValidatorSet

-- `if err != nil { return nil, err }`
abbrev pub checked : {A : Type 0} → A × Option RpcError → Outcome RpcError A
checked (a, none) = ok a
checked (a, some e) = err e

-- `blockMeta.BlockID` of a pointer that may be nil
abbrev pub meta_or_panic : Option BlockMeta → Outcome RpcError BlockMeta
meta_or_panic none = panic
meta_or_panic (some m) = ok m

-- `types.BlockID{}`
abbrev pub zero_block_id : BlockId
zero_block_id = record { hash = []; part_set_header = [] }

pub record ResultBlockchainInfo : Type 0 where
  pub last_height : ℤ
  pub block_metas : List BlockMeta

pub record ResultBlock : Type 0 where
  pub block_id : BlockId
  pub block : Option Block

pub record ResultBlockResults : Type 0 where
  pub height : ℤ
  pub txs_results : List Bytes
  pub finalize_block_events : Bytes
  pub validator_updates : List ValidatorUpdate
  pub consensus_param_updates : Option Bytes
  pub app_hash : Bytes

pub record ResultCommit : Type 0 where
  pub header : Header
  pub commit : Option Commit
  pub canonical : Bool

pub record ResultValidators : Type 0 where
  pub block_height : ℤ
  pub validators : List Validator
  pub count : ℕ
  pub total : ℕ

pub record ResultConsensusParams : Type 0 where
  pub block_height : ℤ
  pub consensus_params : ConsensusParams

-- `SyncInfo` of `ResultStatus`; a missing block leaves the zero values
pub record SyncInfo : Type 0 where
  pub latest_block_hash : Bytes
  pub latest_app_hash : Bytes
  pub latest_block_height : ℤ
  pub latest_block_time : ℕ
  pub earliest_block_hash : Bytes
  pub earliest_app_hash : Bytes
  pub earliest_block_height : ℤ
  pub earliest_block_time : ℕ

module _ (s : Stores) where
  -- the loop of `BlockchainInfo`, from the height `top` down, with fuel; `none` when it is used up
  unfoldable pub metas_down : ℕ → ℤ → ℤ → Option (List BlockMeta)
  metas_down zero bottom top = none
  metas_down (suc fuel) bottom top =
      let below = metas_down fuel bottom (sub_int64 top (pos 1)) in
      if ltb_ℤ top bottom then some [] else elim below [
        | none ↦ none
        | some rest ↦ some (elim (s.load_block_meta top) [ none ↦ rest | some m ↦ m ∷ rest ])
      ]

  -- `BlockchainInfo`; `none` when the fuel is used up
  unfoldable pub blockchain_info : ℕ → ℤ → ℤ → Option (Outcome RpcError ResultBlockchainInfo)
  blockchain_info fuel low high =
      let ((bottom, top), e) = filter_min_max s.base s.height low high (pos 20) in
      elim e [
        | some reason ↦ some (err reason)
        | none ↦ elim (metas_down fuel bottom top) [
          | none ↦ none
          | some metas ↦ some (ok (record { last_height = s.height; block_metas = metas }))
        ]
      ]

  -- `Block`
  unfoldable pub block : Option ℤ → Outcome RpcError ResultBlock
  block asked = checked (get_height s.base s.height asked) >>= λ height.
      let found = s.load_block height in
      elim (s.load_block_meta height) [
        | none ↦ ok (record { block_id = zero_block_id; block = found })
        | some m ↦ ok (record { block_id = m.block_id; block = found })
      ]

  -- `BlockByHash`
  unfoldable pub block_by_hash : Bytes → Outcome RpcError ResultBlock
  block_by_hash hash = elim (s.load_block_by_hash hash) [
    | none ↦ ok (record { block_id = zero_block_id; block = none })
    | some b ↦ meta_or_panic (s.load_block_meta b.header.height) >>= λ m.
        ok (record { block_id = m.block_id; block = some b })
  ]

  -- `BlockResults`
  unfoldable pub block_results : Option ℤ → Outcome RpcError ResultBlockResults
  block_results asked = checked (get_height s.base s.height asked) >>= λ height.
      s.load_finalize_block_response height >>= λ results. ok (record {
        height = height;
        txs_results = results.tx_results;
        finalize_block_events = results.events;
        validator_updates = results.validator_updates;
        consensus_param_updates = results.consensus_param_updates;
        app_hash = results.app_hash;
      })

  -- `Commit`; `none` is its nil result with no error
  unfoldable pub commit : Option ℤ → Outcome RpcError (Option ResultCommit)
  commit asked = checked (get_height s.base s.height asked) >>= λ height.
      elim (s.load_block_meta height) [
        | none ↦ ok none
        | some m ↦
            let latest = eqb_ℤ height s.height in
            ok (
              some (record {
                header = m.header;
                commit = if latest then s.load_seen_commit height else s.load_block_commit height;
                canonical = not latest;
              }))
      ]

  -- `Validators`
  unfoldable pub validators : Option ℤ → Option ℤ → Option ℤ → Outcome RpcError ResultValidators
  validators asked page per_page = checked (get_height s.base s.height asked) >>= λ height.
      s.load_validators height >>= λ set. paginate page per_page set.validators >>= λ v.
      ok (record {
        block_height = height;
        validators = v;
        count = length v;
        total = length set.validators;
      })

  -- `ConsensusParams`, with those of the genesis document; the height asked for is not read
  unfoldable pub consensus_params : ConsensusParams → Option ℤ → ResultConsensusParams
  consensus_params genesis asked = record { block_height = s.height; consensus_params = genesis }

  -- the parts of `Status` on the oldest and the latest block
  unfoldable pub sync_info : SyncInfo
  sync_info =
      let empty : SyncInfo = record {
        latest_block_hash = [];
        latest_app_hash = [];
        latest_block_height = s.height;
        latest_block_time = 0;
        earliest_block_hash = [];
        earliest_app_hash = [];
        earliest_block_height = pos 0;
        earliest_block_time = 0;
      } in
      let with_earliest : SyncInfo = elim s.load_base_meta [
        | none ↦ empty
        | some m ↦ record empty {
          earliest_block_height = m.header.height;
          earliest_app_hash = m.header.app_hash;
          earliest_block_hash = m.block_id.hash;
          earliest_block_time = m.header.time;
        }
      ] in
      if eqb_ℤ s.height (pos 0) then with_earliest else elim (s.load_block_meta s.height) [
        | none ↦ with_earliest
        | some m ↦ record with_earliest {
          latest_block_hash = m.block_id.hash;
          latest_app_hash = m.header.app_hash;
          latest_block_time = m.header.time;
        }
      ]
