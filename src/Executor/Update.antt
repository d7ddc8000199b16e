-- ===== src/Executor/Update.antt =====
-- The state after a block (vm/types/state/executor.go: `validateValidatorUpdates`, `updateState`).
pub mod Heights
pub mod Permitted
use slide_sdk.Common.{ℕ, Bool, true, false, Option, none, some, List, [], ◌∷◌, Bytes, if◌then◌else◌}
use slide_sdk.Common.Int.{ℤ, pos, eqb_ℤ, ltb_ℤ, add_int64}
use slide_sdk.Common.Outcome.{ok, err, ◌>>=◌}
use slide_sdk.Chain.Types.{
  BlockId, Header, State, Validator, ValidatorSet, ValidatorUpdate, ConsensusParams,
  FinalizeResponse, Result, Error, negative_power, unsupported_pubkey, changing_validator_set,
  validating_params, updating_params,
}
use slide_sdk.Chain.Library.{Library}
use slide_sdk.Executor.World.{map_error}

-- `if err := check; err != nil { return fmt.Errorf(…, err) }`
abbrev pub check : (Error → Error) → Option Error → Result (Unit {0})
check f none = ok tt
check f (some e) = err (f e)

module _ (lib : Library) where
  -- the body of the loop
  unfoldable pub validate_validator_update : Bytes → ValidatorUpdate → Result (Unit {0})
  validate_validator_update params u =
      if ltb_ℤ u.power (pos 0)
      then err negative_power
      else if eqb_ℤ u.power (pos 0)
      then ok tt
      else do
        type ← lib.pub_key_type u.pub_key
        if lib.is_valid_pubkey_type params type then ok tt else err unsupported_pubkey

  unfoldable pub validate_validator_updates : List ValidatorUpdate → Bytes → Result (Unit {0})
  validate_validator_updates [] params = ok tt
  validate_validator_updates (u ∷ us) params = do
    _ ← validate_validator_update params u
    validate_validator_updates us params

  -- the new validator set and the height of its last change
  unfoldable pub update_validators : State → Header → List Validator → Result (ValidatorSet × ℤ)
  update_validators s h [] = ok (s.next_validators, s.last_height_validators_changed)
  update_validators s h (v ∷ vs) = do
    vals ← map_error changing_validator_set (lib.update_with_change_set s.next_validators (v ∷ vs))
    ok (vals, add_int64 (add_int64 h.height (pos 1)) (pos 1))

  -- the new parameters, the height of their last change and the application's version
  unfoldable pub update_params : State → Header → Option Bytes → Result (ConsensusParams × ℤ × ℕ)
  update_params s h none =
      ok (s.consensus_params, s.last_height_consensus_params_changed, s.version_app)
  update_params s h (some updates) = do
    let params = lib.params_update s.consensus_params updates
    _ ← check validating_params (lib.params_validate_basic params)
    _ ← check updating_params (lib.params_validate_update s.consensus_params updates h.height)
    ok (params, add_int64 h.height (pos 1), params.version_app)

  unfoldable pub update_state :
      State → BlockId → Header → FinalizeResponse → List Validator → Result State
  update_state s id h resp updates = do
    (vals, vals_changed) ← update_validators s h updates
    next ← lib.increment_proposer_priority vals
    (params, params_changed, version_app) ← update_params s h resp.consensus_param_updates
    ok (record s {
      version_app = version_app;
      last_block_height = h.height;
      last_block_id = id;
      last_block_time = h.time;
      next_validators = next;
      validators = s.next_validators;
      last_validators = s.validators;
      last_height_validators_changed = vals_changed;
      consensus_params = params;
      last_height_consensus_params_changed = params_changed;
      last_results_hash = lib.tx_results_hash resp.tx_results;
      app_hash = [];
    })
