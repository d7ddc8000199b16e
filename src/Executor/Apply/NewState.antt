-- ===== src/Executor/Apply/NewState.antt =====
-- A run of `ApplyBlock` that returns a state: what was called, in which order, and with what.
use slide_sdk.Common.{◌≡◌, sym, ap, List, ◌∷◌, length, arith, subst}
use slide_sdk.Common.Int.{ℤ}
use slide_sdk.Common.Outcome.{ok}
use slide_sdk.Chain.Types.{BlockId, Block, State, Validator, FinalizeResponse, CommitInfo}
use slide_sdk.Chain.Library.{Library}
use slide_sdk.Chain.Validate.{validate_block}
use slide_sdk.Executor.World.{
  World, Event, Trace, bind-eq-ok, bind-lift-eq-ok, bind-read-eq-ok, bind-call-eq-ok,
  wrap_error-eq-ok, with_mempool_lock-eq-ok,
}
use slide_sdk.Executor.CommitInfo.{build_last_commit_info_from_store}
use slide_sdk.Executor.Only.{Extends, Only-after, Extends-trans, Extends-start}
use slide_sdk.Executor.Next.{Made, next_state-Made}
use slide_sdk.Executor.Apply.{
  finalize_request, with_all_results, finalize, commit, conclude, apply_block,
}
use slide_sdk.Executor.Apply.Order.{AfterSave, prune-Only, fire_events-Only}

-- The calls that commit a block, the latest first, after those of `tr`.
abbrev pub commit_calls : Block → FinalizeResponse → State → Trace → Trace
commit_calls b resp t tr =
    Event.mempool_unlock
    ∷ Event.mempool_update b.header.height b.txs resp.tx_results t
    ∷ Event.app_commit
    ∷ Event.flush_app_conn
    ∷ Event.mempool_lock
    ∷ tr

-- What `ApplyBlock` did when it returned `u` and left the trace `tr'`.
pub record Applied (lib : Library) (w : World) (s : State) (id : BlockId) (b : Block) (tr : Trace)
    (u : State) (tr' : Trace) : Type 0 where
  pub info : CommitInfo
  pub resp : FinalizeResponse
  pub updates : List Validator
  pub before_commit : State
  pub valid : validate_block lib s b ≡ ok tt
  pub answered : w.finalize_block tr (finalize_request lib w b info) ≡ ok resp
  pub all_results : length b.txs ≡ length resp.tx_results
  pub told : build_last_commit_info_from_store lib w b s.initial_height tr ≡ (ok info, tr)
  pub new_state : Made lib s id b resp updates before_commit
  pub with_app_hash : u ≡ record before_commit { app_hash = resp.app_hash }
  pub calls :
      Extends AfterSave
        (Event.save_state u
          ∷ commit_calls b resp before_commit (
              Event.save_response b.header.height resp
              ∷ Event.finalize_block (finalize_request lib w b info)
              ∷ tr))
        tr'

with_all_results-eq-ok :
    (b : Block) (resp : FinalizeResponse) {r : FinalizeResponse}
    → with_all_results b resp ≡ ok r
    → (r ≡ resp) × (length b.txs ≡ length resp.tx_results)
unfolding with_all_results
with_all_results-eq-ok b resp h = (ground arith, ground arith)

module _ (lib : Library) (w : World) where
  finalize-eq-ok :
      (initial : ℤ) (b : Block) {resp : FinalizeResponse} {tr tr' : Trace}
      → finalize lib w initial b tr ≡ (ok resp, tr')
      → (info : CommitInfo) × (build_last_commit_info_from_store lib w b initial tr ≡ (ok info, tr))
        × (w.finalize_block tr (finalize_request lib w b info) ≡ ok resp)
        × (length b.txs ≡ length resp.tx_results)
        × (tr' ≡ Event.finalize_block (finalize_request lib w b info) ∷ tr)
  unfolding finalize build_last_commit_info_from_store
  finalize-eq-ok initial b {tr = tr} h =
      let (info, h1, k1) = bind-read-eq-ok _ _ h in
      let (resp', h2, k2) = bind-call-eq-ok _ _ _ k1 in
      let (same, all) = with_all_results-eq-ok b resp' (ap (λ r. r.0) k2) in
      (info, ap (λ r. (r, tr)) h1, rw same h2, rw same all, ap (λ r. r.1) (sym k2))

  commit-eq-ok :
      (t : State) (b : Block) (resp : FinalizeResponse) {retain : ℤ} {tr tr' : Trace}
      → commit lib w t b resp tr ≡ (ok retain, tr')
      → tr' ≡ commit_calls b resp t tr
  unfolding commit
  commit-eq-ok t b resp h =
      let (u, h0, e0) = with_mempool_lock-eq-ok _ h in
      let (_, h1, k1) = bind-call-eq-ok _ _ _ h0 in
      let (_, h2, k2) = bind-call-eq-ok _ _ _ k1 in
      let (_, h3, k3) = bind-call-eq-ok _ _ _ k2 in
      rw e0 (ap (◌∷◌ Event.mempool_unlock) (ap (λ r. r.1) (sym k3)))

  conclude-eq-ok :
      (u : State) (id : BlockId) (b : Block) (resp : FinalizeResponse) (updates : List Validator)
      (retain : ℤ) {v : State} {tr tr' : Trace}
      → conclude lib w u id b resp updates retain tr ≡ (ok v, tr')
      → (v ≡ u) × Extends AfterSave (Event.save_state u ∷ tr) tr'
  unfolding conclude
  conclude-eq-ok u id b resp updates retain h =
      let (_, h1, k1) = bind-call-eq-ok _ _ _ h in
      let (_, t1, h2, k2) = bind-eq-ok _ _ k1 in
      let (_, t2, h3, k3) = bind-eq-ok _ _ k2 in
      (
        cc,
        subst (Extends AfterSave _) (ap (λ r. r.1) k3) (
            Extends-trans (Only-after _ (prune-Only w lib retain u) h2)
              (Only-after _ (fire_events-Only w b id resp updates) h3)),
      )

  -- When `ApplyBlock` returns a state, the block was valid; the application was told of the last commit as
  -- `buildLastCommitInfoFromStore` builds it; its answer to the one `FinalizeBlock` has a result for each
  -- transaction; every validator update of the answer is permitted, and the new state is that of the
  -- block with the answer's validator updates, converted, and its parameters, if they are valid, and
  -- holds the answer's hash; and the calls were, in this order, `FinalizeBlock`, the save of the response, then
  -- under the lock of the mempool the flush, the commit of the application and the update of the
  -- mempool, then the save of the new state, and after it only prunings and publications.
  pub apply_block-Applied :
      (s : State) (id : BlockId) (b : Block) (tr : Trace) {u : State} {tr' : Trace}
      → apply_block lib w s id b tr ≡ (ok u, tr')
      → Applied lib w s id b tr u tr'
  unfolding apply_block
  apply_block-Applied s id b tr h =
      let (_, valid, k0) = bind-lift-eq-ok _ _ h in
      let (resp, t1, h1, k1) = bind-eq-ok _ _ k0 in
      let (info, told, answered, all, e1) = finalize-eq-ok _ b h1 in
      let (_, h2, k2) = bind-call-eq-ok _ _ _ k1 in
      let ((t, updates), h3, k3) = bind-lift-eq-ok _ _ k2 in
      let (retain, t2, h4, k4) = bind-eq-ok _ _ k3 in
      let e2 = commit-eq-ok t b resp (wrap_error-eq-ok _ _ h4) in
      let (same, later) = conclude-eq-ok _ id b resp updates retain k4 in
      record {
        info = info;
        told = told;
        resp = resp;
        updates = updates;
        before_commit = t;
        valid = valid;
        answered = answered;
        all_results = all;
        new_state = next_state-Made lib s id b resp h3;
        with_app_hash = same;
        calls = Extends-start (cc (same, e1, e2)) later;
      }
