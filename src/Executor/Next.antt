-- ===== src/Executor/Next.antt =====
-- The part of `ApplyBlock` that calls nothing (vm/types/state/executor.go): from the validator updates
-- of an answer to the new state.
use slide_sdk.Common.{◌≡◌, List, arith}
use slide_sdk.Common.Outcome.{ok, ◌>>=◌}
use slide_sdk.Chain.Types.{
  BlockId, Block, State, Validator, FinalizeResponse, Result, in_validator_updates, commit_failed,
}
use slide_sdk.Chain.Library.{Library}
use slide_sdk.Executor.World.{map_error}
use slide_sdk.Executor.Update.{validate_validator_updates, update_state}
use slide_sdk.Executor.Update.Permitted.{AllPermitted, all_permitted}
use slide_sdk.Executor.Update.Heights.{Follows, update_state-Follows}

module _ (lib : Library) (s : State) (id : BlockId) (b : Block) (resp : FinalizeResponse) where
  unfoldable pub next_state : Result (State × List Validator)
  next_state = do
    _ ←
        map_error in_validator_updates (
          validate_validator_updates lib resp.validator_updates s.consensus_params.validator_params)
    updates ← lib.updates_from_abci resp.validator_updates
    t ← map_error commit_failed (update_state lib s id b.header resp updates)
    ok (t, updates)

  -- what a new state is made with
  pub record Made (updates : List Validator) (t : State) : Type 0 where
    pub permitted : AllPermitted lib s.consensus_params.validator_params resp.validator_updates
    pub converted : lib.updates_from_abci resp.validator_updates ≡ ok updates
    pub follows : Follows lib s id b.header resp updates t

  next_state-eq-ok :
      {t : State} {updates : List Validator}
      → next_state ≡ ok (t, updates)
      → (validate_validator_updates lib resp.validator_updates s.consensus_params.validator_params
          ≡ ok tt)
        × (lib.updates_from_abci resp.validator_updates ≡ ok updates)
        × (update_state lib s id b.header resp updates ≡ ok t)
  unfolding next_state
  next_state-eq-ok h = (ground arith, ground arith, ground arith)

  pub next_state-Made :
      {t : State} {updates : List Validator} → next_state ≡ ok (t, updates) → Made updates t
  next_state-Made {t} {updates} h =
      let (valid, converted, updated) = next_state-eq-ok h in
      record {
        permitted =
            all_permitted lib s.consensus_params.validator_params resp.validator_updates valid;
        converted = converted;
        follows = update_state-Follows lib s id b.header resp updates updated;
      }
