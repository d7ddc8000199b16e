-- ===== src/Examples/VmCase.antt =====
-- The theorems on the handlers of the machine, on a machine that holds the first block.
use slide_sdk.Common.{◌≡◌, refl, [], ◌∷◌, Bytes, arith, Bytes-discrete}
use slide_sdk.Common.Int.{pos, add_int64, sub_int64, to_uint64, to_int64}
use slide_sdk.Common.Map
use slide_sdk.Common.Outcome.{panic}
use slide_sdk.Chain.Types.{processing, accepted}
use slide_sdk.Chain.Validate.{
  weigh, voting_power_of, validate_time, validate_info, validate_hashes, validate_block,
  total_voting_power, refuse_error, refuse, median_time, encode_block_with_status, encode_block,
  decode_block_with_status, decode_block,
}
use slide_sdk.Executor.World
use slide_sdk.Executor.CommitInfo.{
  votes_of, build_last_commit_info_from_store, build_last_commit_info,
}
use slide_sdk.Executor.Update.{
  validate_validator_updates, validate_validator_update, update_validators, update_state,
  update_params,
}
use slide_sdk.Executor.Next.{next_state}
use slide_sdk.Executor.Events.{
  publish_updates, publish_txs, publish_tx, publish_evidence, publish, fire_events,
}
use slide_sdk.Executor.Apply.{
  Limits, with_all_results, prune_blocks, prune, finalize, conclude, commit, apply_block,
}
use slide_sdk.Vm.Storage.{
  new_storage, get_cached_block, cached_decided, cached_unverified, allocate, put_decided,
  put_unverified, evict_unverified, evict_missing, put_missing, put_verified, delete_verified,
}
use slide_sdk.Vm.Machine
use slide_sdk.Vm.Machine.{Vm, to_id, load}
use slide_sdk.Vm.Blocks.{
  put_by_status, get_cached_id, put_id, get_missing, set_rejected, register, reject_cached,
  block_reject, decode_bytes, identify, parse_block, serve_block, get_stored_block,
  get_unknown_block, get_cached, get_block, block_verify, GetResponse, ParseResponse,
}
use slide_sdk.Vm.Commit.{make_commit, commit_block}
use slide_sdk.Vm.Consensus.{mark_accepted, accept_loaded, accept_cached, block_accept}
use slide_sdk.Vm.Accepting.{Accepted, block_accept-Accepted}
use slide_sdk.Vm.Answers.{parse_block-Names, get_block-AnswersFor}
use slide_sdk.Vm.Invariant.{Names, IsValid}
use slide_sdk.Vm.Invariant.Steps.{new_storage-IsValid}
use slide_sdk.Vm.Invariant.Handlers.{AnswersFor}
use slide_sdk.Vm.Invariant.Serving.{FindsByHash}
use slide_sdk.Vm.Invariant.Runs.{Reach, Call, Reach-IsValid}
use slide_sdk.Examples.Instances.{
  library, world, caches, promises, genesis, first_id, machine, holding,
}

unfoldable pub program : Unit {0}
unfolding Bytes-discrete weigh voting_power_of validate_time validate_info validate_hashes
    validate_block total_voting_power refuse_error refuse median_time encode_block_with_status
    encode_block decode_block_with_status decode_block World.◌>>=◌ World.wrap_error
    World.with_mempool_lock World.ignore_error add_int64 sub_int64 to_uint64 to_int64 votes_of
    build_last_commit_info_from_store build_last_commit_info validate_validator_updates
    validate_validator_update update_validators update_state update_params next_state
    publish_updates publish_txs publish_tx publish_evidence publish fire_events with_all_results
    prune_blocks prune finalize conclude commit apply_block new_storage get_cached_block
    cached_decided cached_unverified allocate put_decided put_unverified evict_unverified
    evict_missing put_missing put_verified delete_verified to_id load Machine.◌>>=◌ put_by_status
    get_cached_id put_id get_missing set_rejected register reject_cached block_reject decode_bytes
    identify parse_block serve_block get_stored_block get_unknown_block get_cached get_block
    block_verify make_commit commit_block mark_accepted accept_loaded accept_cached block_accept
    Map.lookup Map.store Map.delete
program = tt

pub finds : FindsByHash library world
finds = record { by_hash = λ tr id b h. ground arith }

empty : Vm caches
empty = machine new_storage

empty-IsValid : IsValid library promises new_storage
empty-IsValid = new_storage-IsValid library promises

-- the bytes of the first block, which is being processed
abbrev bytes : Bytes
bytes = 1 ∷ 5 ∷ []

abbrev parsed : ParseResponse
parsed = record { id = first_id; parent_id = []; status = processing; height = 1; timestamp = 5 }

parse_block-Names_example :
    IsValid library promises (parse_block library bytes (machine new_storage) []).1.storage
    × Names library bytes first_id
unfolding program
parse_block-Names_example =
    parse_block-Names library promises bytes (machine new_storage) []
      {vm' = (parse_block library bytes (machine new_storage) []).1} {tr' = []} {response = parsed}
      (new_storage-IsValid library promises) refl

abbrev got : GetResponse
got = GetResponse.found [] (3 ∷ 5 ∷ []) accepted 1 5

get_block-AnswersFor_example :
    IsValid library promises (get_block library world first_id (machine new_storage) []).1.storage
    × AnswersFor library promises first_id got
unfolding program
get_block-AnswersFor_example =
    get_block-AnswersFor library promises world finds first_id (machine new_storage) []
      {vm' = (get_block library world first_id (machine new_storage) []).1} {tr' = []}
      {response = got} (new_storage-IsValid library promises) refl

block_accept-Accepted_example :
    Accepted library world first_id
      (machine holding)
      []
      (block_accept library world first_id (machine holding) []).1
      (block_accept library world first_id (machine holding) []).2
unfolding program
block_accept-Accepted_example =
    block_accept-Accepted library world first_id (machine holding) []
      {vm' = (block_accept library world first_id (machine holding) []).1}
      {tr' = (block_accept library world first_id (machine holding) []).2} refl

abbrev pub limits : Limits
limits = record { block_max_bytes = pos 1000; block_max_gas = pos 0; evidence_max_bytes = pos 10 }

abbrev after_parse : Vm caches
after_parse = (parse_block library bytes (machine new_storage) []).1

verified_first : Reach library world limits genesis (block_verify library bytes after_parse []).1 []
unfolding program
verified_first =
    Reach.later
      (Reach.later (Reach.start (machine new_storage) [] refl refl) (Call.parse bytes)
        (parses, refl, refl))
      (Call.verify bytes) (verifies, refl, refl)
  where
    parses : (parse_block library bytes (machine new_storage) []).0 ≡ panic → ⊥
    parses h = cc h

    verifies : (block_verify library bytes after_parse []).0 ≡ panic → ⊥
    verifies h = cc h

Reach-IsValid_example :
    IsValid library promises (block_verify library bytes after_parse []).1.storage
Reach-IsValid_example = Reach-IsValid library world limits promises finds genesis verified_first
