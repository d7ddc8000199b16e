-- ===== src/Chain/Types.antt =====
-- The records of CometBFT that vm/types/state reads and writes, with the fields that it reads. What
-- it passes on unread is one field of bytes.
use slide_sdk.Common.{ℕ, Option, List, Bytes}
use slide_sdk.Common.Int.{ℤ}
use slide_sdk.Common.Outcome.{Outcome}

-- `Status` of proto/vm; an `other` value is a number that names no status.
pub data Status : Type 0 where
  unspecified processing rejected accepted : Status
  other : ℕ → Status

-- `types.BlockID`; the part set's header is not read.
pub record BlockId : Type 0 where
  pub hash : Bytes
  pub part_set_header : Bytes

-- `types.CommitSig`; a time is a number of nanoseconds from a fixed origin.
pub record CommitSig : Type 0 where
  pub block_id_flag : ℕ
  pub validator_address : Bytes
  pub timestamp : ℕ
  pub signature : Bytes

pub record Commit : Type 0 where
  pub height : ℤ
  pub round : ℤ
  pub block_id : BlockId
  pub signatures : List CommitSig

-- `types.ExtendedCommitSig` and `types.ExtendedCommit`.
pub record ExtendedCommitSig : Type 0 where
  pub commit_sig : CommitSig
  pub extension : Bytes
  pub extension_signature : Bytes

pub record ExtendedCommit : Type 0 where
  pub height : ℤ
  pub round : ℤ
  pub block_id : BlockId
  pub extended_signatures : List ExtendedCommitSig

-- `types.BlockIDFlagAbsent`, `BlockIDFlagCommit` and `BlockIDFlagNil`.
abbrev pub flag_absent : ℕ
flag_absent = 1

abbrev pub flag_commit : ℕ
flag_commit = 2

abbrev pub flag_nil : ℕ
flag_nil = 3

pub record Validator : Type 0 where
  pub address : Bytes
  pub pub_key : Bytes
  pub voting_power : ℤ

-- `types.ValidatorSet`; `rest` stands for the proposer and the priorities.
pub record ValidatorSet : Type 0 where
  pub validators : List Validator
  pub rest : Bytes

-- `types.ConsensusParams`.
pub record ConsensusParams : Type 0 where
  pub evidence_max_bytes : ℤ
  pub version_app : ℕ
  pub validator_params : Bytes
  pub abci_params : Bytes
  pub rest : Bytes

pub record Header : Type 0 where
  pub version_block : ℕ
  pub version_app : ℕ
  pub chain_id : Bytes
  pub height : ℤ
  pub time : ℕ
  pub last_block_id : BlockId
  pub validators_hash : Bytes
  pub next_validators_hash : Bytes
  pub consensus_hash : Bytes
  pub app_hash : Bytes
  pub last_results_hash : Bytes
  pub proposer_address : Bytes

-- `types.Block`; a transaction and a piece of evidence are bytes.
pub record Block : Type 0 where
  pub header : Header
  pub txs : List Bytes
  pub evidence : List Bytes
  pub last_commit : Commit

-- `state.State`.
pub record State : Type 0 where
  pub version_block : ℕ
  pub version_app : ℕ
  pub version_software : Bytes
  pub chain_id : Bytes
  pub initial_height : ℤ
  pub last_block_height : ℤ
  pub last_block_id : BlockId
  pub last_block_time : ℕ
  pub next_validators : ValidatorSet
  pub validators : ValidatorSet
  pub last_validators : ValidatorSet
  pub last_height_validators_changed : ℤ
  pub consensus_params : ConsensusParams
  pub last_height_consensus_params_changed : ℤ
  pub last_results_hash : Bytes
  pub app_hash : Bytes

-- The answers of the application.
pub record ValidatorUpdate : Type 0 where
  pub pub_key : Bytes
  pub power : ℤ

pub record FinalizeResponse : Type 0 where
  pub tx_results : List Bytes
  pub validator_updates : List ValidatorUpdate
  pub consensus_param_updates : Option Bytes
  pub app_hash : Bytes
  pub events : Bytes

-- `abci.VoteInfo`, `abci.CommitInfo` and their extended forms.
pub record VoteInfo : Type 0 where
  pub validator : Bytes
  pub block_id_flag : ℕ

pub record CommitInfo : Type 0 where
  pub round : ℤ
  pub votes : List VoteInfo

pub record ExtendedVoteInfo : Type 0 where
  pub validator : Bytes
  pub block_id_flag : ℕ
  pub vote_extension : Bytes
  pub extension_signature : Bytes

pub record ExtendedCommitInfo : Type 0 where
  pub round : ℤ
  pub votes : List ExtendedVoteInfo

-- The errors of the modelled code, and those that a library or a service returns, by a number.
pub data Error : Type 0 where
  external : ℕ → Error
  wrong_version wrong_chain_id wrong_initial_height wrong_height wrong_last_block_id : Error
  wrong_app_hash wrong_consensus_hash wrong_last_results_hash : Error
  wrong_validators_hash wrong_next_validators_hash : Error
  initial_commit_signatures bad_proposer_address : Error
  time_before_last wrong_median_time wrong_genesis_time below_initial_height : Error
  evidence_overflow : ℤ → ℤ → Error
  wrong_tx_results : ℕ → ℕ → Error
  negative_power unsupported_pubkey : Error
  in_validator_updates changing_validator_set validating_params updating_params : Error → Error
  commit_failed prune_block_store_failed prune_state_store_failed : Error → Error
  invalid_vote_extension : Error
  wrong_hash_length unknown_state not_found : Error
  unexpected_status : Status → Error
  unimplemented : Error

abbrev pub Result : Type 0 → Type 0
Result A = Outcome Error A
