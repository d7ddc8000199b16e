-- ===== src/Examples/ChainCase.antt =====
-- The theorems on blocks and states at the first block.
use slide_sdk.Common.{◌≡◌, refl, ◌↔◌, [], ◌∷◌, Bytes-discrete}
use slide_sdk.Common.Int.{pos}
use slide_sdk.Common.Outcome.{ok}
use slide_sdk.Chain.Types.{State, BlockId, Header, ValidatorSet}
use slide_sdk.Chain.Validate.Accepts.{Acceptable, validate_block-ok_iff}
use slide_sdk.Executor.Update.Heights.{updates_take_effect}
use slide_sdk.Executor.Apply.NewState.{Applied, apply_block-Applied}
use slide_sdk.Chain.Validate.{
  weigh, voting_power_of, validate_time, validate_info, validate_hashes, validate_block,
  total_voting_power, refuse_error, refuse, median_time, encode_block_with_status, encode_block,
  decode_block_with_status, decode_block,
}
use slide_sdk.Executor.World.{Trace, ◌>>=◌, wrap_error, with_mempool_lock, ignore_error}
use slide_sdk.Common.Int.{add_int64, sub_int64, to_uint64, to_int64, ◌+ℤ◌}
use slide_sdk.Executor.CommitInfo.{
  votes_of, build_last_commit_info_from_store, build_last_commit_info,
}
use slide_sdk.Executor.Update.{
  validate_validator_updates, validate_validator_update, update_validators, update_state,
  update_params,
}
use slide_sdk.Executor.Next.{next_state}
use slide_sdk.Executor.Events.{
  publish_updates, publish_txs, publish_tx, publish_evidence, publish, fire_events,
}
use slide_sdk.Executor.Apply.{
  with_all_results, prune_blocks, prune, finalize, conclude, commit, apply_block,
}
use slide_sdk.Examples.Instances.{library, world, genesis, first, validators, answer}

program : Unit {0}
unfolding Bytes-discrete weigh voting_power_of validate_time validate_info validate_hashes
    validate_block total_voting_power refuse_error refuse median_time encode_block_with_status
    encode_block decode_block_with_status decode_block ◌>>=◌ wrap_error with_mempool_lock
    ignore_error add_int64 ◌+ℤ◌ sub_int64 to_uint64 to_int64 votes_of
    build_last_commit_info_from_store build_last_commit_info validate_validator_updates
    validate_validator_update update_validators update_state update_params next_state
    publish_updates publish_txs publish_tx publish_evidence publish fire_events with_all_results
    prune_blocks prune finalize conclude commit apply_block
program = tt

-- the block passes every test
first_accepted : validate_block library genesis first ≡ ok tt
unfolding program
first_accepted = refl

validate_block-ok_iff_example :
    (validate_block library genesis first ≡ ok tt) ↔ Acceptable library genesis first
validate_block-ok_iff_example = validate_block-ok_iff library genesis first

abbrev id : BlockId
id = record { hash = 5 ∷ []; part_set_header = [] }

-- the state after the first block, before the application's hash is known
abbrev next : State
next = record genesis {
  last_block_height = pos 1;
  last_block_id = id;
  last_results_hash = 1 ∷ [];
  last_validators = validators;
}

-- the second block, and the states after both where the first one's answer sets a validator
abbrev second : Header
second = record first.header { height = pos 2 }

abbrev changed : State
changed = record next { last_height_validators_changed = pos 3 }

abbrev later : State
later = record changed { last_block_height = pos 2 }

updates_take_effect_example :
    (vals : ValidatorSet) × (library.update_with_change_set genesis.next_validators
        validators.validators
      ≡ ok vals)
    × (library.increment_proposer_priority vals ≡ ok later.validators)
    × (later.last_validators ≡ genesis.next_validators)
    × (changed.last_height_validators_changed ≡ add_int64 later.last_block_height (pos 1))
unfolding program
updates_take_effect_example =
    updates_take_effect library genesis id id first.header second answer answer
      validators.validators [] {t = changed} {u = later} (λ e. absurd (cc e)) refl refl refl

abbrev run : Trace
run = (apply_block library world genesis id first []).1

apply_block-Applied_example :
    Applied library world genesis id first [] (record next { app_hash = 9 ∷ [] }) run
unfolding program
apply_block-Applied_example =
    apply_block-Applied library world genesis id first [] {u = record next { app_hash = 9 ∷ [] }}
      {tr' = run} refl
