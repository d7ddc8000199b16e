-- ===== src/Vm/Invariant/Serving.antt =====
-- `GetBlock` and `BuildBlock` keep the invariant, and `GetBlock` answers with the block asked for.
use slide_sdk.Common.{ℕ, ◌≡◌, refl, sym, subst, Option, none, some, Bytes}
use slide_sdk.Chain.Types.{Block, accepted}
use slide_sdk.Chain.Library.{Library}
use slide_sdk.Executor.World.{World, Trace}
use slide_sdk.Executor.Apply.{Limits}
use slide_sdk.Vm.Storage.{Caches}
use slide_sdk.Vm.Blocks.{get_stored_block, get_unknown_block, get_cached, get_block}
use slide_sdk.Vm.Consensus.{build_block}
use slide_sdk.Vm.Triple.{Triple-pure, Triple-lift, Triple-bind, Triple-weaken, Triple-given, Any}
use slide_sdk.Vm.Invariant.{Promises}
use slide_sdk.Vm.Invariant.Steps.{
  evict_missing-IsValid, put_missing-IsValid, get_missing-IsValid, put_unverified-IsValid,
}
use slide_sdk.Vm.Invariant.Reads.{Found}
use slide_sdk.Vm.Invariant.Blocks.{
  Holds, to_id-eq-ok, Triple-change, Triple-on, allocate-Held, cached_block-Triple,
}
use slide_sdk.Vm.Invariant.Handlers.{
  Safe, Keeps, Keeps-lift, AnswersFor, serve_block-Triple, exec-Triple,
}

-- The store of blocks finds a block by its hash.
pub record FindsByHash (lib : Library) (w : World) : Type 0 where
  pub by_hash :
      (tr : Trace) (id : Bytes) (b : Block)
      → w.load_block_by_hash tr id ≡ some b
      → lib.block_hash b ≡ id

module _ (lib : Library) {c : Caches} (p : Promises c) (w : World) where
  module _ (finds : FindsByHash lib w) where
    abbrev StoredIs : Bytes → Option Block → Type 0
    StoredIs id none = Unit
    StoredIs id (some b) = lib.block_hash b ≡ id

    stored :
        (tr : Trace) (id : Bytes) (o : Option Block)
        → w.load_block_by_hash tr id ≡ o
        → StoredIs id o
    stored tr id none e = tt
    stored tr id (some b) e = finds.by_hash tr id b e

    get_stored_block-Triple :
        (id : Bytes) (o : Option Block)
        → Safe lib p
            (get_stored_block lib w id o)
            (λ _. StoredIs id o)
            (λ a _. AnswersFor lib p id a)
    unfolding get_stored_block
    get_stored_block-Triple id none =
        Triple-bind (λ _. Any)
          (Triple-change lib p _ _ (λ s v q. (put_missing-IsValid lib v id, tt)))
          (λ _. Triple-pure _ _ (λ vm i q. tt))
    get_stored_block-Triple id (some b) =
        Triple-bind (λ r. Holds lib p id r)
          (Triple-on lib p _ _
            (λ s v q. allocate-Held lib p v (record { block = b; status = accepted }) q))
          (λ r. serve_block-Triple lib p id r)

    get_unknown_block-Triple :
        (id : Bytes) (o : Option (Unit {0}))
        → Safe lib p (get_unknown_block lib w id o) Any (λ a _. AnswersFor lib p id a)
    unfolding get_unknown_block
    get_unknown_block-Triple id (some _) = Triple-pure _ _ (λ vm i q. tt)
    get_unknown_block-Triple id none =
        Triple-bind (λ o _. StoredIs id o) (record { at = λ vm tr i q. (i, stored tr id _ refl) })
          (λ o. get_stored_block-Triple id o)

    get_cached-Triple :
        (id : Bytes) (o : Option ℕ)
        → Safe lib p
            (get_cached lib w id o)
            (λ vm. Found lib vm.storage.objects id o)
            (λ a _. AnswersFor lib p id a)
    unfolding get_cached
    get_cached-Triple id (some r) = serve_block-Triple lib p id r
    get_cached-Triple id none =
        Triple-bind (λ _. Any) (Triple-on lib p _ _ (λ s v q. (get_missing-IsValid lib v id, tt)))
          (λ o. get_unknown_block-Triple id o)

    -- `GetBlock` keeps the invariant, and a block that it answers has the requested identifier as its
    -- hash, with its own encoding, parent, height and time.
    pub get_block-Triple :
        (requested : Bytes)
        → Safe lib p (get_block lib w requested) Any (λ a _. AnswersFor lib p requested a)
    unfolding get_block
    get_block-Triple requested =
        Triple-bind (λ id _. id ≡ requested) (Triple-lift _ _ (λ vm id i q e. to_id-eq-ok _ e))
          (λ id.
            Triple-bind (λ o vm. Found lib vm.storage.objects id o × (id ≡ requested))
              (cached_block-Triple lib p id)
              (λ o. Triple-given (λ e.
                Triple-weaken _ _ (λ vm h. h) (λ a vm q. subst (λ x. AnswersFor lib p x a) e q)
                  (get_cached-Triple id o))))

  pub build_block-Keeps : (limits : Limits) → Keeps lib p (build_block lib w limits)
  unfolding build_block
  build_block-Keeps limits =
      Triple-bind (λ _. Any) (record { at = λ vm tr i q. (i, tt) })
        (λ s.
          Triple-bind (λ _. Any) (exec-Triple lib p Any _)
            (λ commit.
              Triple-bind (λ _. Any) (exec-Triple lib p Any _)
                (λ b.
                  Triple-bind (λ _. Any) (Keeps-lift lib p _)
                    (λ bytes.
                      Triple-bind (λ id _. lib.block_hash b ≡ id)
                        (Triple-lift _ _ (λ vm id i q e. sym (to_id-eq-ok _ e)))
                        (λ id.
                          Triple-bind (λ r. Holds lib p id r)
                            (Triple-on lib p _ _ (λ s v q. allocate-Held lib p v _ q))
                            (λ r.
                              Triple-bind (λ _. Any)
                                (Triple-change lib p _ _
                                  (λ s v q. (put_unverified-IsValid lib v id r q, tt)))
                                (λ _.
                                  Triple-bind (λ _. Any)
                                    (Triple-change lib p _ _
                                      (λ s v q. (evict_missing-IsValid lib v id, tt)))
                                    (λ _. Triple-pure _ _ (λ vm i q. tt)))))))))
