-- ===== src/Executor/Update/Heights.antt =====
-- What a new state keeps, and what it takes from the block.
use slide_sdk.Common.{
  ◌≡◌, ◌≢◌, refl, sym, ap, ◌∙◌, ◌⊎◌, inl, inr, none, some, List, Bytes, [], ◌∷◌, arith,
}
use slide_sdk.Common.Int.{pos, add_int64}
use slide_sdk.Common.Outcome.{ok, Outcome-cases}
use slide_sdk.Chain.Types.{BlockId, Header, ValidatorSet, State, Validator, FinalizeResponse}
use slide_sdk.Chain.Library.{Library}
use slide_sdk.Executor.Update.{update_validators, update_params, update_state}

-- The next validators: the old ones, or those that the updates make of them, with one step of their
-- priorities.
abbrev pub NextValidators : (lib : Library) → State → Header → List Validator → State → Type 0
NextValidators lib s h updates t =
    (vals : ValidatorSet) × (lib.increment_proposer_priority vals ≡ ok t.next_validators)
    × (((updates ≡ [])
          × (vals ≡ s.next_validators)
          × (t.last_height_validators_changed ≡ s.last_height_validators_changed))
        ⊎ ((updates ≢ [])
            × (lib.update_with_change_set s.next_validators updates ≡ ok vals)
            × (t.last_height_validators_changed ≡ add_int64 (add_int64 h.height (pos 1)) (pos 1))))

-- The fields of the state after a block with header `h`, identifier `id` and response `resp`.
pub record Follows (lib : Library) (s : State) (id : BlockId) (h : Header) (resp : FinalizeResponse)
    (updates : List Validator) (t : State) : Type 0 where
  pub height : t.last_block_height ≡ h.height
  pub block_id : t.last_block_id ≡ id
  pub time : t.last_block_time ≡ h.time
  pub chain_id : t.chain_id ≡ s.chain_id
  pub initial_height : t.initial_height ≡ s.initial_height
  pub version_block : t.version_block ≡ s.version_block
  pub shifted : (t.validators ≡ s.next_validators) × (t.last_validators ≡ s.validators)
  pub results : t.last_results_hash ≡ lib.tx_results_hash resp.tx_results
  pub params :
      ((resp.consensus_param_updates ≡ none)
        × (t.consensus_params ≡ s.consensus_params)
        × (t.version_app ≡ s.version_app)
        × (t.last_height_consensus_params_changed ≡ s.last_height_consensus_params_changed))
      ⊎ ((u : Bytes) × (resp.consensus_param_updates ≡ some u)
          × (t.consensus_params ≡ lib.params_update s.consensus_params u)
          × (lib.params_validate_basic t.consensus_params ≡ none)
          × (lib.params_validate_update s.consensus_params u h.height ≡ none)
          × (t.version_app ≡ t.consensus_params.version_app)
          × (t.last_height_consensus_params_changed ≡ add_int64 h.height (pos 1)))
  pub next_validators : NextValidators lib s h updates t

NextValidators-of_update_state :
    (lib : Library) (s : State) (id : BlockId) (h : Header) (resp : FinalizeResponse)
    (updates : List Validator) {t : State}
    → update_state lib s id h resp updates ≡ ok t
    → NextValidators lib s h updates t
unfolding update_state update_validators update_params
NextValidators-of_update_state lib s id h resp [] e =
    elim (Outcome-cases (lib.increment_proposer_priority s.next_validators)) [
      | inl (next, e2) ↦ (s.next_validators, ground arith, inl (refl, refl, ground arith))
      | inr (inl (x, e2)) ↦ absurd (ground arith)
      | inr (inr e2) ↦ absurd (ground arith)
    ]
NextValidators-of_update_state lib s id h resp (v ∷ vs) e =
    elim (Outcome-cases (lib.update_with_change_set s.next_validators (v ∷ vs))) [
      | inl (vals, e1) ↦ elim (Outcome-cases (lib.increment_proposer_priority vals)) [
        | inl (next, e2) ↦ (vals, ground arith, inr ((λ h. cc h), e1, ground arith))
        | inr (inl (x, e2)) ↦ absurd (ground arith)
        | inr (inr e2) ↦ absurd (ground arith)
      ]
      | inr (inl (x, e1)) ↦ absurd (ground arith)
      | inr (inr e1) ↦ absurd (ground arith)
    ]

-- A state that `updateState` returns has the block's height, identifier and time, the chain of the old
-- state, the old next validators as its validators, and the next validators, the parameters and the
-- heights of their last changes as the application's answer asks.
pub update_state-Follows :
    (lib : Library) (s : State) (id : BlockId) (h : Header) (resp : FinalizeResponse)
    (updates : List Validator) {t : State}
    → update_state lib s id h resp updates ≡ ok t
    → Follows lib s id h resp updates t
unfolding update_state update_validators update_params
update_state-Follows lib s id h resp updates {t} e = record {
  height = ground arith;
  block_id = ground arith;
  time = ground arith;
  chain_id = ground arith;
  initial_height = ground arith;
  version_block = ground arith;
  shifted = ground arith;
  results = ground arith;
  params = ground arith;
  next_validators = NextValidators-of_update_state lib s id h resp updates e;
}

-- The validator updates of the answer for one block, at least one, take effect two blocks later: where
-- `updateState` returns for the block and then for the one of the next height, the validators after both
-- are the next validators of the first state with the updates and one step of their priorities, the
-- validators before them are those next validators without them, and the height that is recorded for the
-- change is the one after the two blocks.
pub updates_take_effect :
    (lib : Library) (s : State) (id id' : BlockId) (h h' : Header) (resp resp' : FinalizeResponse)
    (updates updates' : List Validator) {t u : State}
    → updates ≢ []
    → h'.height ≡ add_int64 h.height (pos 1)
    → update_state lib s id h resp updates ≡ ok t
    → update_state lib t id' h' resp' updates' ≡ ok u
    → (vals : ValidatorSet) × (lib.update_with_change_set s.next_validators updates ≡ ok vals)
      × (lib.increment_proposer_priority vals ≡ ok u.validators)
      × (u.last_validators ≡ s.next_validators)
      × (t.last_height_validators_changed ≡ add_int64 u.last_block_height (pos 1))
updates_take_effect lib s id id' h h' resp resp' updates updates' some_updates follows e f =
    let first = update_state-Follows lib s id h resp updates e in
    let second = update_state-Follows lib _ id' h' resp' updates' f in
    let (vals, stepped, how) = first.next_validators in
    elim how [
      | inl (empty, same, kept) ↦ absurd (some_updates empty)
      | inr (there, made, changed) ↦ (
        vals,
        made,
        stepped ∙ ap ok (sym second.shifted.0),
        second.shifted.1 ∙ first.shifted.0,
        changed ∙ ap (λ x. add_int64 x (pos 1)) (sym follows ∙ sym second.height),
      )
    ]
