-- ===== src/Executor/Apply.antt =====
-- The methods of `BlockExecutor` (vm/types/state/executor.go). The test hook `fail.Fail`, the metrics
-- and the log are left out: they change nothing that the code reads.
pub mod Order
pub mod NewState
use slide_sdk.Common.{
  ℕ, Bool, true, false, not, Option, none, some, List, [], ◌∷◌, Bytes, length, ◌==◌, if◌then◌else◌,
}
use slide_sdk.Common.Int.{ℤ, pos, negsuc, eqb_ℤ, ltb_ℤ, leb_ℤ}
use slide_sdk.Common.Outcome.{ok, err, panic}
use slide_sdk.Chain.Types.{
  BlockId, Block, State, Validator, FinalizeResponse, ExtendedCommit, CommitInfo, Result, Error,
  wrong_tx_results, in_validator_updates, commit_failed, prune_block_store_failed,
  prune_state_store_failed,
}
use slide_sdk.Chain.Library.{Library}
use slide_sdk.Chain.Validate.{validate_block}
use slide_sdk.Executor.World.{
  World, Exec, Event, FinalizeRequest, PrepareRequest, Verdict, accept, reject, unknown, lift, pure,
  call, ask, ignore_error, wrap_error, map_error, with_mempool_lock, ◌>>=◌, ◌>>◌,
}
use slide_sdk.Executor.CommitInfo.{
  build_last_commit_info_from_store, build_extended_commit_info_from_store,
}
use slide_sdk.Executor.Update.{check, validate_validator_updates, update_state}
use slide_sdk.Executor.Next.{next_state}
use slide_sdk.Executor.Events.{fire_events}

-- The limits that a `BlockExecutor` holds; the stores and the application are the `World`.
pub record Limits : Type 0 where
  pub block_max_bytes : ℤ
  pub block_max_gas : ℤ
  pub evidence_max_bytes : ℤ

-- `types.MaxBlockSizeBytes` of CometBFT.
abbrev pub max_block_size_bytes : ℤ
max_block_size_bytes = pos 104857600

-- one result for each transaction, or an error
unfoldable pub with_all_results : Block → FinalizeResponse → Result FinalizeResponse
with_all_results b resp =
    if length b.txs == length resp.tx_results
    then ok resp
    else err (wrong_tx_results (length b.txs) (length resp.tx_results))

module _ (lib : Library) (w : World) where
  unfoldable pub prune_blocks : ℤ → State → Exec ℕ
  prune_blocks retain s = do
    base ← ask w.base
    if leb_ℤ retain base then pure 0 else do
      (amount, header_height) ←
          wrap_error prune_block_store_failed
            (call (Event.prune_blocks retain s) (λ tr. w.prune_blocks tr retain s))
      wrap_error prune_state_store_failed (
          call (Event.prune_states base retain header_height)
            (λ tr. w.prune_states tr base retain header_height))
      pure amount

  unfoldable pub commit : State → Block → FinalizeResponse → Exec ℤ
  commit s b resp = with_mempool_lock do
    call Event.flush_app_conn w.flush_app_conn
    retain ← call Event.app_commit w.app_commit
    call (Event.mempool_update b.header.height b.txs resp.tx_results s)
        (λ tr. w.mempool_update tr b.header.height b.txs resp.tx_results s)
    pure retain

  -- `abci.RequestFinalizeBlock` for a block
  abbrev pub finalize_request : Block → CommitInfo → FinalizeRequest
  finalize_request b info = record {
    hash = lib.block_hash b;
    next_validators_hash = b.header.next_validators_hash;
    proposer_address = b.header.proposer_address;
    height = b.header.height;
    time = b.header.time;
    last_commit = info;
    misbehavior = b.evidence;
    txs = b.txs;
  }

  -- the call of the application, and the test of its answer's length
  unfoldable pub finalize : ℤ → Block → Exec FinalizeResponse
  finalize initial b = do
    info ← build_last_commit_info_from_store lib w b initial
    resp ←
        call (Event.finalize_block (finalize_request b info))
          (λ tr. w.finalize_block tr (finalize_request b info))
    lift (with_all_results b resp)

  -- `if retainHeight > 0 { … }`, whose errors are logged
  unfoldable pub prune : ℤ → State → Exec (Unit {0})
  prune retain s = if ltb_ℤ (pos 0) retain then ignore_error (prune_blocks retain s) else pure tt

  -- the part of `ApplyBlock` after `Commit`
  unfoldable pub conclude :
      State → BlockId → Block → FinalizeResponse → List Validator → ℤ → Exec State
  conclude u id b resp updates retain = do
    call (Event.save_state u) (λ tr. w.save_state tr u)
    prune retain u
    fire_events w b id resp updates
    pure u

  unfoldable pub apply_block : State → BlockId → Block → Exec State
  apply_block s id b = do
    lift (validate_block lib s b)
    resp ← finalize s.initial_height b
    call (Event.save_response b.header.height resp) (λ tr. w.save_response tr b.header.height resp)
    (t, updates) ← lift (next_state lib s id b resp)
    retain ← wrap_error commit_failed (commit t b resp)
    conclude (record t { app_hash = resp.app_hash }) id b resp updates retain

  unfoldable pub create_proposal_block : Limits → ℤ → State → ExtendedCommit → Bytes → Exec Block
  create_proposal_block limits height s ec proposer = do
    let unlimited = eqb_ℤ limits.block_max_bytes (negsuc 0)
    let max_bytes = if unlimited then max_block_size_bytes else limits.block_max_bytes
    max_data_bytes ←
        lift
          (lib.max_data_bytes max_bytes limits.evidence_max_bytes (length s.validators.validators))
    let max_reap_bytes = if unlimited then negsuc 0 else max_data_bytes
    txs ← ask (λ tr. w.reap tr max_reap_bytes limits.block_max_gas)
    let b = lib.make_block s height txs (lib.to_commit ec) proposer
    info ←
        build_extended_commit_info_from_store lib w ec s.initial_height
          s.consensus_params.abci_params
    let request : PrepareRequest = record {
      max_tx_bytes = max_data_bytes;
      txs = b.txs;
      local_last_commit = info;
      misbehavior = b.evidence;
      height = b.header.height;
      time = b.header.time;
      next_validators_hash = b.header.next_validators_hash;
      proposer_address = b.header.proposer_address;
    }
    proposed ← call (Event.prepare_proposal request) (λ tr. w.prepare_proposal tr request)
    lift (check (λ e. e) (lib.validate_txs proposed max_data_bytes))
    pure (lib.make_block s height proposed (lib.to_commit ec) proposer)

  -- `abci.RequestProcessProposal`, with the hash of the header
  abbrev pub proposal_request : Block → CommitInfo → FinalizeRequest
  proposal_request b info = record (finalize_request b info) { hash = lib.header_hash b.header }

  unfoldable pub process_proposal : Block → State → Exec Bool
  process_proposal b s = do
    info ← build_last_commit_info_from_store lib w b s.initial_height
    verdict ←
        call (Event.process_proposal (proposal_request b info))
          (λ tr. w.process_proposal tr (proposal_request b info))
    elim verdict [ accept ↦ pure true | reject ↦ pure false | unknown ↦ lift panic ]

  -- executes a block again with no state: its response is not saved
  unfoldable pub exec_commit_block : Block → ℤ → Exec Bytes
  exec_commit_block b initial = do
    resp ← finalize initial b
    call Event.app_commit w.app_commit
    pure resp.app_hash
