-- ===== src/Chain/Library.antt =====
-- The functions of CometBFT and of Go's `encoding/json` that the code calls and that compute a value
-- from their arguments alone: a parameter of the model.
use slide_sdk.Common.{ℕ, Bool, Option, List, Bytes}
use slide_sdk.Common.Int.{ℤ}
use slide_sdk.Chain.Types.{
  Status, Header, BlockId, Commit, Validator, ValidatorSet, ConsensusParams, Block, State,
  ValidatorUpdate, ExtendedCommitSig, ExtendedCommit, Result, Error,
}

-- `types.NewWeightedTime`.
pub record WeightedTime : Type 0 where
  pub time : ℕ
  pub weight : ℤ

pub record Library : Type 0 where
  -- methods of `types.Block`, `types.Header`, `types.BlockID` and `types.EvidenceData`
  pub block_hash : Block → Bytes
  pub header_hash : Header → Bytes
  pub validate_basic : Block → Option Error
  pub block_id_equals : BlockId → BlockId → Bool
  pub evidence_byte_size : List Bytes → ℤ
  pub part_set_header : Block → Result Bytes
  -- methods of `types.ValidatorSet`
  pub validators_hash : ValidatorSet → Bytes
  pub get_by_address : ValidatorSet → Bytes → Option Validator
  pub update_with_change_set : ValidatorSet → List Validator → Result ValidatorSet
  -- one step, which panics on an empty set
  pub increment_proposer_priority : ValidatorSet → Result ValidatorSet
  -- methods of `types.ConsensusParams`
  pub params_hash : ConsensusParams → Bytes
  pub params_update : ConsensusParams → Bytes → ConsensusParams
  pub params_validate_basic : ConsensusParams → Option Error
  pub params_validate_update : ConsensusParams → Bytes → ℤ → Option Error
  pub vote_extensions_enabled : Bytes → ℤ → Bool
  pub is_valid_pubkey_type : Bytes → Bytes → Bool
  -- other functions
  pub weighted_median : List (Option WeightedTime) → ℤ → ℕ
  pub tx_results_hash : List Bytes → Bytes
  pub pub_key_type : Bytes → Result Bytes
  pub validator_to_abci : Validator → Bytes
  pub updates_from_abci : List ValidatorUpdate → Result (List Validator)
  pub ensure_extension : ExtendedCommitSig → Bool → Option Error
  pub to_commit : ExtendedCommit → Commit
  pub make_block : State → ℤ → List Bytes → Commit → Bytes → Block
  -- panics where nothing is left for data
  pub max_data_bytes : ℤ → ℤ → ℕ → Result ℤ
  pub validate_txs : List Bytes → ℤ → Option Error
  -- `Block.ToProto` and `Marshal`; `Unmarshal` and `BlockFromProto`
  pub block_to_proto : Block → Result Bytes
  pub marshal_proto : Bytes → Result Bytes
  pub unmarshal_proto : Bytes → Result Bytes
  pub block_from_proto : Bytes → Result Block
  -- `json.Marshal` and `json.Unmarshal` at `vm.Block`
  pub json_marshal : Bytes → Status → Result Bytes
  pub json_unmarshal : Bytes → Result (record { block : Bytes; status : Status })
  -- `state.State.Bytes`
  pub state_bytes : State → Bytes
