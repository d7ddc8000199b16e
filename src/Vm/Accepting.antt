-- ===== src/Vm/Accepting.antt =====
-- A run of `BlockAccept` (vm/vm.go) that returns no error.
use slide_sdk.Common.{
  ℕ, ◌≡◌, refl, sym, ap, subst, Option, none, some, ◌∷◌, Bytes, get_elem?, arith,
}
use slide_sdk.Common.Outcome.{ok, err, panic}
use slide_sdk.Chain.Types.{Block, State, Result}
use slide_sdk.Chain.Library.{Library}
use slide_sdk.Executor.World.{World, Event, Trace, bind-eq-ok, bind-lift-eq-ok, bind-call-eq-ok}
use slide_sdk.Executor.Apply.NewState.{Applied, apply_block-Applied}
use slide_sdk.Vm.Storage.{Caches, WrappedBlock, get_cached_block}
use slide_sdk.Vm.Machine.{Vm, to_id, modify, on_storage, load, some_or_panic, continue, ◌>>=◌, ◌>>◌}
use slide_sdk.Vm.Commit.{block_id_of, commit_of, commit_block}
use slide_sdk.Vm.Consensus.{mark_accepted, accept_loaded, accept_cached, block_accept}

-- What the executor and the stores did when a block was accepted.
pub record Committed (lib : Library) (w : World) (s : State) (b : Block) (tr : Trace) (u : State)
    (tr' : Trace) : Type 0 where
  pub parts : Bytes
  pub after_apply : Trace
  pub has_parts : lib.part_set_header b ≡ ok parts
  pub applied : Applied lib w s (block_id_of lib w b parts) b tr u after_apply
  pub calls :
      tr' ≡ Event.save_state u ∷ Event.save_block b parts (commit_of lib w s b parts) ∷ after_apply

module _ (lib : Library) (w : World) where
  pub commit_block-Committed :
      (s : State) (b : Block) {tr : Trace} {u : State} {tr' : Trace}
      → commit_block lib w s b tr ≡ (ok u, tr')
      → Committed lib w s b tr u tr'
  unfolding commit_block
  commit_block-Committed s b {tr = tr} {u = u} h =
      let (parts, e, k0) = bind-lift-eq-ok _ _ h in
      let (t, t1, h1, k1) = bind-eq-ok _ _ k0 in
      let (_, h2, k2) = bind-call-eq-ok _ _ _ k1 in
      let (_, h3, k3) = bind-call-eq-ok _ _ _ k2 in
      let same : t ≡ u = cc in
      record {
        parts = parts;
        after_apply = t1;
        has_parts = e;
        applied =
            subst (λ x. Applied lib w s (block_id_of lib w b parts) b tr x t1) same
              (apply_block-Applied lib w s _ b tr h1);
        calls = cc;
      }

to_id-same : (bytes : Bytes) {id : Bytes} → to_id bytes ≡ ok id → id ≡ bytes
unfolding to_id
to_id-same bytes h = ground arith

-- What `BlockAccept` did when it returned no error.
pub record Accepted (lib : Library) (w : World) {c : Caches} (id : Bytes) (vm : Vm c) (tr : Trace)
    (vm' : Vm c) (tr' : Trace) : Type 0 where
  pub address : ℕ
  pub wrapped : WrappedBlock
  pub cached : (get_cached_block id vm.storage).0 ≡ some address
  pub stored : get_elem? (get_cached_block id vm.storage).1.objects address ≡ some wrapped
  pub committed : Committed lib w vm.state wrapped.block tr vm'.state tr'

module _ (lib : Library) (w : World) {c : Caches} where
  -- the state and the calls are not changed by the caches
  mark_accepted-eq :
      (id : Bytes) (b : Block) (vm : Vm c) (tr : Trace) {vm' : Vm c} {tr' : Trace}
      → mark_accepted id b vm tr ≡ (ok tt, vm', tr')
      → (vm'.state ≡ vm.state) × (tr' ≡ tr)
  unfolding mark_accepted ◌>>=◌
  mark_accepted-eq id b vm tr h = (ap (λ r. r.1.state) (sym h), ap (λ r. r.2) (sym h))

  accept_loaded-Committed :
      (id : Bytes) (b : Block) (vm : Vm c) (tr : Trace) {vm' : Vm c} {tr' : Trace}
      → accept_loaded lib w id b vm tr ≡ (ok tt, vm', tr')
      → Committed lib w vm.state b tr vm'.state tr'
  unfolding accept_loaded ◌>>=◌
  accept_loaded-Committed id b vm tr {vm' = vm'} {tr' = tr'} h =
      go (commit_block lib w vm.state b tr).0 (commit_block lib w vm.state b tr).1 refl h
    where
      go :
          (r : Result State) (t : Trace)
          → commit_block lib w vm.state b tr ≡ (r, t)
          → continue r (λ u. modify (λ v. record v { state = u }) >> mark_accepted id b) vm t
            ≡ (ok tt, vm', tr')
          → Committed lib w vm.state b tr vm'.state tr'
      go (ok u) t e k =
          let (e1, e2) = mark_accepted-eq id b (record vm { state = u }) t k in
          subst (λ x. Committed lib w vm.state b tr x tr') (sym e1)
            (subst (λ x. Committed lib w vm.state b tr u x) (sym e2)
              (commit_block-Committed lib w vm.state b e))
      go (err x) t e k = cc
      go panic t e k = cc

  accept_cached-Accepted :
      (id : Bytes) (vm : Vm c) (o : Option ℕ) (tr : Trace) {vm' : Vm c} {tr' : Trace}
      → accept_cached lib w id o vm tr ≡ (ok tt, vm', tr')
      → (r : ℕ) × (b : WrappedBlock) × (o ≡ some r)
        × (get_elem? vm.storage.objects r ≡ some b)
        × Committed lib w vm.state b.block tr vm'.state tr'
  unfolding accept_cached ◌>>=◌ load
  accept_cached-Accepted id vm none tr h = cc
  accept_cached-Accepted id vm (some r) tr {vm' = vm'} {tr' = tr'} h =
      go (get_elem? vm.storage.objects r) refl h
    where
      go :
          (o : Option WrappedBlock)
          → get_elem? vm.storage.objects r ≡ o
          → continue (some_or_panic o) (λ x. accept_loaded lib w id x.block) vm tr
            ≡ (ok tt, vm', tr')
          → (a : ℕ) × (b : WrappedBlock) × (some r ≡ some a)
            × (get_elem? vm.storage.objects a ≡ some b)
            × Committed lib w vm.state b.block tr vm'.state tr'
      go none e k = cc
      go (some b) e k = (r, b, refl, e, accept_loaded-Committed id b.block vm tr k)

  -- When `BlockAccept` returns no error, a cache held the block under the identifier; the block was
  -- applied to the machine's state as `ApplyBlock` describes, which made the new state; the new state
  -- was saved, then the block with its commit, then the new state a second time.
  pub block_accept-Accepted :
      (id : Bytes) (vm : Vm c) (tr : Trace) {vm' : Vm c} {tr' : Trace}
      → block_accept lib w id vm tr ≡ (ok tt, vm', tr')
      → Accepted lib w id vm tr vm' tr'
  unfolding block_accept ◌>>=◌
  block_accept-Accepted id vm tr {vm' = vm'} {tr' = tr'} h = go (to_id id) refl h
    where
      go :
          (o : Result Bytes)
          → to_id id ≡ o
          → continue o (λ i. on_storage (get_cached_block i) >>= accept_cached lib w i) vm tr
            ≡ (ok tt, vm', tr')
          → Accepted lib w id vm tr vm' tr'
      go (ok i) e k =
          let (r, b, found, stored, done) = accept_cached-Accepted i _ _ tr k in
          subst (λ x. Accepted lib w x vm tr vm' tr') (to_id-same id e)
            (record { address = r; wrapped = b; cached = found; stored = stored; committed = done })
      go (err x) e k = cc
      go panic e k = cc
