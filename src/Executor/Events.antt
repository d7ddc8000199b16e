-- ===== src/Executor/Events.antt =====
-- `fireEvents` (vm/types/state/executor.go): what is published for a block. An error of the bus is
-- logged and dropped.
use slide_sdk.Common.{ℕ, ◌+◌, Option, none, some, List, [], ◌∷◌, Bytes, length, get_elem?}
use slide_sdk.Common.Int.{ℤ}
use slide_sdk.Common.Outcome.{panic}
use slide_sdk.Chain.Types.{Block, BlockId, FinalizeResponse, Validator}
use slide_sdk.Executor.World.{World, Exec, Publication, Event, call, lift, pure, ignore_error, ◌>>◌}

module _ (w : World) where
  unfoldable pub publish : Publication → Exec (Unit {0})
  publish p = ignore_error (call (Event.publish p) (λ tr. w.publish tr p))

  -- the loop over the evidence
  unfoldable pub publish_evidence : ℤ → List Bytes → Exec (Unit {0})
  publish_evidence height [] = pure tt
  publish_evidence height (e ∷ es) = do
    publish (Publication.new_evidence e height)
    publish_evidence height es

  -- the body of the loop over the transactions; a missing result is an index out of range
  unfoldable pub publish_tx : ℤ → ℕ → Bytes → Option Bytes → Exec (Unit {0})
  publish_tx height i tx (some result) = publish (Publication.tx height i tx result)
  publish_tx height i tx none = lift panic

  -- the loop over the transactions, from the index `i` on
  unfoldable pub publish_txs : ℤ → List Bytes → ℕ → List Bytes → Exec (Unit {0})
  publish_txs height results i [] = pure tt
  publish_txs height results i (tx ∷ txs) = do
    publish_tx height i tx (get_elem? results i)
    publish_txs height results (i + 1) txs

  unfoldable pub publish_updates : List Validator → Exec (Unit {0})
  publish_updates [] = pure tt
  publish_updates (v ∷ vs) = publish (Publication.validator_set_updates (v ∷ vs))

  unfoldable pub fire_events : Block → BlockId → FinalizeResponse → List Validator → Exec (Unit {0})
  fire_events b id resp updates = do
    publish (Publication.new_block b id resp)
    publish (Publication.new_block_header b)
    publish (Publication.new_block_events b.header.height resp.events (length b.txs))
    publish_evidence b.header.height b.evidence
    publish_txs b.header.height resp.tx_results 0 b.txs
    publish_updates updates
