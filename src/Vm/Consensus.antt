-- ===== src/Vm/Consensus.antt =====
-- The handlers that build and accept blocks, and those of the machine's own state (vm/vm.go:
-- `BuildBlock`, `BlockAccept`, `SetState`, `SetPreference` and others), with `ParentHash`
-- (vm/types/block/block.go).
use slide_sdk.Common.{
  ℕ, ◌+◌, true, false, Option, none, some, List, [], ◌∷◌, Bytes, length, take, replicate, ltb,
  if◌then◌else◌, ◌==◌,
}
use slide_sdk.Common.Int.{pos, to_uint64, add_int64}
use slide_sdk.Common.Outcome.{ok, err, panic}
use slide_sdk.Chain.Types.{
  processing, accepted, Block, ExtendedCommit, ExtendedCommitSig, flag_nil, Validator, State,
  Result, not_found, unknown_state,
}
use slide_sdk.Chain.Library.{Library}
use slide_sdk.Chain.Validate.{encode_block_with_status}
use slide_sdk.Executor.World.{World, Trace, ask}
use slide_sdk.Vm.Commit.{commit_block}
use slide_sdk.Executor.Apply.{Limits, create_proposal_block}
use slide_sdk.Vm.Storage.{
  Caches, get_cached_block, allocate, put_decided, put_unverified, evict_unverified, evict_missing,
  delete_verified,
}
use slide_sdk.Vm.Machine.{
  Handler, state_bootstrapping, state_normal_op, to_id, lift, gets, pure, exec, modify, on_storage,
  change_storage, load, ◌>>=◌, ◌>>◌,
}

-- the `[32]byte` of a slice, which panics on fewer bytes
unfoldable pub to_array : Bytes → Result Bytes
to_array bytes = if ltb (length bytes) 32 then panic else ok (take 32 bytes)

-- `ParentHash`; no hash is an empty one
unfoldable pub parent_hash : Block → Result Bytes
parent_hash b =
    if length b.header.last_block_id.hash == 0
    then ok (replicate 32 0)
    else to_array b.header.last_block_id.hash

-- `proposerAddress`
abbrev pub proposer_address : Bytes
proposer_address = replicate 20 0

-- `BuildBlockResponse`
pub record BuildResponse : Type 0 where
  pub id : Bytes
  pub parent_id : Bytes
  pub bytes : Bytes
  pub height : ℕ
  pub timestamp : ℕ

-- `SetStateResponse`
pub record SetStateResponse : Type 0 where
  pub last_accepted_id : Bytes
  pub last_accepted_parent_id : Bytes
  pub height : ℕ
  pub bytes : Bytes
  pub timestamp : ℕ

module _ (w : World) where
  -- the loop over the validators, from the index `i` on: votes for nil with random signatures
  unfoldable pub nil_signatures : Trace → ℕ → List Validator → List ExtendedCommitSig
  nil_signatures tr i [] = []
  nil_signatures tr i (v ∷ vs) =
      record {
        commit_sig = record {
          block_id_flag = flag_nil;
          validator_address = v.address;
          timestamp = w.now tr i;
          signature = w.random_bytes tr i;
        };
        extension = [];
        extension_signature = [];
      }
      ∷ nil_signatures tr (i + 1) vs

  unfoldable pub last_extended_commit : State → Trace → ExtendedCommit
  last_extended_commit s tr = record {
    height = s.last_block_height;
    round = pos 0;
    block_id = s.last_block_id;
    extended_signatures = nil_signatures tr 0 s.validators.validators;
  }

module _ {c : Caches} where
  unfoldable pub set_preference : Bytes → Handler c (Unit {0})
  set_preference id = do
    preferred ← lift (to_array id)
    modify (λ vm. record vm { preferred = preferred })

  unfoldable pub connected : Handler c (Unit {0})
  connected = modify (λ vm. record vm { connected = true })

  unfoldable pub disconnected : Handler c (Unit {0})
  disconnected = modify (λ vm. record vm { connected = false })

  -- the `switch` of `SetState`
  unfoldable pub set_bootstrapped : ℕ → Handler c (Unit {0})
  set_bootstrapped state =
      if state == state_bootstrapping
      then modify (λ vm. record vm { bootstrapped = false })
      else if state == state_normal_op
      then modify (λ vm. record vm { bootstrapped = true })
      else lift (err unknown_state)

  -- the updates of the caches once a block is accepted
  unfoldable pub mark_accepted : Bytes → Block → Handler c (Unit {0})
  mark_accepted id b = do
    change_storage (delete_verified id)
    change_storage (evict_missing id)
    change_storage (evict_unverified id)
    r ← on_storage (allocate (record { block = b; status = accepted }))
    change_storage (put_decided id r)

module _ (lib : Library) (w : World) {c : Caches} where
  -- `SetState` after the last block is read
  unfoldable pub report_state : ℕ → State → Option Block → Handler c SetStateResponse
  report_state requested s none = lift (err not_found)
  report_state requested s (some b) = do
    parent ← lift (parent_hash b)
    modify (λ vm. record vm { vm_state = requested })
    pure (record {
      last_accepted_id = lib.block_hash b;
      last_accepted_parent_id = parent;
      height = to_uint64 b.header.height;
      bytes = lib.state_bytes s;
      timestamp = b.header.time;
    })

  unfoldable pub set_state : ℕ → Handler c SetStateResponse
  set_state requested = do
    set_bootstrapped requested
    s ← gets (λ vm. vm.state)
    stored ← exec (ask (λ tr. w.load_block tr s.last_block_height))
    report_state requested s stored

module _ (lib : Library) (w : World) (limits : Limits) {c : Caches} where
  unfoldable pub build_block : Handler c BuildResponse
  build_block = do
    s ← gets (λ vm. vm.state)
    commit ← exec (ask (last_extended_commit w s))
    b ← exec (
        create_proposal_block lib w limits (add_int64 s.last_block_height (pos 1)) s commit
          proposer_address)
    bytes ← lift (encode_block_with_status lib b processing)
    id ← lift (to_id (lib.block_hash b))
    r ← on_storage (allocate (record { block = b; status = processing }))
    change_storage (put_unverified id r)
    change_storage (evict_missing id)
    pure (record {
      id = lib.block_hash b;
      parent_id = b.header.last_block_id.hash;
      bytes = bytes;
      height = to_uint64 b.header.height;
      timestamp = b.header.time;
    })

module _ (lib : Library) (w : World) {c : Caches} where
  -- `BlockAccept` once the block is at hand
  unfoldable pub accept_loaded : Bytes → Block → Handler c (Unit {0})
  accept_loaded id b = do
    s ← gets (λ vm. vm.state)
    t ← exec (commit_block lib w s b)
    modify (λ vm. record vm { state = t })
    mark_accepted id b

  -- `BlockAccept` after the read of the caches
  unfoldable pub accept_cached : Bytes → Option ℕ → Handler c (Unit {0})
  accept_cached id none = lift (err not_found)
  accept_cached id (some r) = do wrapped ← load r; accept_loaded id wrapped.block

  unfoldable pub block_accept : Bytes → Handler c (Unit {0})
  block_accept requested = do
    id ← lift (to_id requested)
    cached ← on_storage (get_cached_block id)
    accept_cached id cached
