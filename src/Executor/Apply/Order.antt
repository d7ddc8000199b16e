-- ===== src/Executor/Apply/Order.antt =====
-- What happens after a state is saved.
use slide_sdk.Common.{ℕ, ◌+◌, Option, none, some, List, [], ◌∷◌, Bytes, get_elem?}
use slide_sdk.Common.Int.{ℤ, pos, leb_ℤ, ltb_ℤ}
use slide_sdk.Chain.Types.{BlockId, Block, State, Validator, FinalizeResponse}
use slide_sdk.Chain.Library.{Library}
use slide_sdk.Executor.World.{World, Event, Publication}
use slide_sdk.Executor.Only.{
  Only, Only-lift, Only-call, Only-ignore_error, Only-pure, only_rules, Only-bind, Only-ask,
  Only-if, Only-wrap_error,
}
use slide_sdk.Executor.Events.{
  publish, publish_evidence, publish_tx, publish_txs, publish_updates, fire_events,
}
use slide_sdk.Executor.Apply.{prune_blocks, prune}

-- Publications and prunings, which change no state of the chain.
abbrev pub AfterSave : Event → Type 0
AfterSave (Event.publish p) = Unit
AfterSave (Event.prune_blocks h s) = Unit
AfterSave (Event.prune_states a b c) = Unit
AfterSave _ = ⊥

module _ (w : World) where
  publish-Only : (p : Publication) → Only AfterSave (publish w p)
  unfolding publish
  publish-Only p = search (only_rules, tt)

  publish_evidence-Only : (h : ℤ) (es : List Bytes) → Only AfterSave (publish_evidence w h es)
  unfolding publish_evidence
  publish_evidence-Only h [] = Only-pure tt
  publish_evidence-Only h (e ∷ es) =
      Only-bind _ _ (publish-Only _) (λ _. publish_evidence-Only h es)

  publish_tx-Only :
      (h : ℤ) (i : ℕ) (tx : Bytes) (r : Option Bytes) → Only AfterSave (publish_tx w h i tx r)
  unfolding publish_tx
  publish_tx-Only h i tx none = Only-lift _
  publish_tx-Only h i tx (some r) = publish-Only _

  publish_txs-Only :
      (h : ℤ) (rs : List Bytes) (i : ℕ) (txs : List Bytes)
      → Only AfterSave (publish_txs w h rs i txs)
  unfolding publish_txs
  publish_txs-Only h rs i [] = Only-pure tt
  publish_txs-Only h rs i (tx ∷ txs) =
      Only-bind _ _ (publish_tx-Only h i tx (get_elem? rs i))
        (λ _. publish_txs-Only h rs (i + 1) txs)

  publish_updates-Only : (vs : List Validator) → Only AfterSave (publish_updates w vs)
  unfolding publish_updates
  publish_updates-Only [] = Only-pure tt
  publish_updates-Only (v ∷ vs) = publish-Only _

  pub fire_events-Only :
      (b : Block) (id : BlockId) (resp : FinalizeResponse) (vs : List Validator)
      → Only AfterSave (fire_events w b id resp vs)
  unfolding fire_events
  fire_events-Only b id resp vs =
      search
        (Only-bind, publish-Only, publish_evidence-Only, publish_txs-Only, publish_updates-Only)
        depth 8

  module _ (lib : Library) where
    prune_blocks-Only : (retain : ℤ) (s : State) → Only AfterSave (prune_blocks lib w retain s)
    unfolding prune_blocks
    prune_blocks-Only retain s = Only-bind _ _ (Only-ask _) (λ base.
        Only-if (leb_ℤ retain base) _ _ (Only-pure 0) (
          Only-bind {A = ℕ × ℤ} _ _ (Only-wrap_error _ _ (Only-call _ _ tt))
            (λ p. Only-bind _ _ (Only-wrap_error _ _ (Only-call _ _ tt)) (λ _. Only-pure p.0))))

    pub prune-Only : (retain : ℤ) (s : State) → Only AfterSave (prune lib w retain s)
    unfolding prune
    prune-Only retain s =
        Only-if (ltb_ℤ (pos 0) retain) _ _ (Only-ignore_error _ (prune_blocks-Only retain s))
          (Only-pure tt)
