-- ===== src/Vm/Invariant/Handlers.antt =====
-- The other handlers of blocks keep the invariant.
use slide_sdk.Common.{ℕ, ◌≡◌, refl, sym, Option, none, some, List, [], ◌∷◌, Bytes}
use slide_sdk.Common.Int.{to_uint64}
use slide_sdk.Common.Outcome.{ok, err, panic}
use slide_sdk.Chain.Types.{Block, accepted, Result}
use slide_sdk.Chain.Library.{Library}
use slide_sdk.Chain.Validate.{encode_block_with_status}
use slide_sdk.Executor.World.{World, Exec}
use slide_sdk.Vm.Storage.{Caches, Storage, get_cached_block, delete_verified}
use slide_sdk.Vm.Machine.{Vm, Handler, to_id, lift, exec, on_storage, ◌>>=◌}
use slide_sdk.Vm.Blocks.{
  batched_parse_block, serve_block, block_verify, reject_cached, block_reject, GetResponse,
}
use slide_sdk.Vm.Consensus.{mark_accepted, accept_loaded, accept_cached, block_accept}
use slide_sdk.Vm.Triple.{
  Triple, Triple-pure, Triple-lift, Triple-bind, Triple-weaken, Triple-given, IfOk, Any,
}
use slide_sdk.Vm.Invariant.{Promises, Held}
use slide_sdk.Vm.Invariant.Steps.{
  evict_missing-IsValid, evict_unverified-IsValid, put_decided-IsValid, put_verified-IsValid,
  delete_verified-IsValid,
}
use slide_sdk.Vm.Invariant.Reads.{Found, set_rejected-IsValid}
use slide_sdk.Vm.Invariant.Blocks.{
  Inv, Holds, to_id-eq-ok, Triple-change, Triple-on, load-Triple, put_by_status-Triple,
  allocate-Held, cached_block-Triple, parse_block-Triple,
}

module _ (lib : Library) {c : Caches} (p : Promises c) where
  -- a handler that keeps the invariant
  abbrev pub Keeps : {A : Type 0} → Handler c A → Type 0
  Keeps m = Triple (Inv lib p) Any m (λ _. Any)

  abbrev pub Safe : {A : Type 0} → Handler c A → (Vm c → Type 0) → (A → Vm c → Type 0) → Type 0
  Safe m Pre Post = Triple (Inv lib p) Pre m Post

  pub Keeps-lift : {A : Type 0} (r : Result A) → Keeps (lift r)
  Keeps-lift r = Triple-lift r _ (λ vm a i q e. tt)

  pub batched_parse_block-Keeps : (bs : List Bytes) → Keeps (batched_parse_block lib bs)
  unfolding batched_parse_block
  batched_parse_block-Keeps [] = Triple-pure _ _ (λ vm i q. tt)
  batched_parse_block-Keeps (b ∷ bs) =
      Triple-bind (λ _. Any)
        (Triple-weaken _ _ (λ vm h. h) (λ r vm q. tt) (parse_block-Triple lib p b))
        (λ r.
          Triple-bind (λ _. Any) (batched_parse_block-Keeps bs)
            (λ rs. Triple-pure _ _ (λ vm i q. tt)))

  delete_verified-Held :
      (s : Storage c) (id : Bytes) (r : ℕ)
      → Held lib s.objects id r
      → Held lib (delete_verified id s).objects id r
  unfolding delete_verified
  delete_verified-Held s id r h = h

  -- the answer is the block with the identifier
  abbrev pub AnswersFor : Bytes → GetResponse → Type 0
  AnswersFor id GetResponse.missing = Unit
  AnswersFor id (GetResponse.found parent bytes status height time) =
      (b : Block) × (lib.block_hash b ≡ id)
      × (encode_block_with_status lib b status ≡ ok bytes)
      × (parent ≡ b.header.last_block_id.hash)
      × (height ≡ to_uint64 b.header.height)
      × (time ≡ b.header.time)

  pub serve_block-Triple :
      (id : Bytes) (r : ℕ) → Safe (serve_block lib id r) (Holds lib p id r) (λ a _. AnswersFor id a)
  unfolding serve_block
  serve_block-Triple id r =
      Triple-bind (λ b vm. Held lib vm.storage.objects id r × (lib.block_hash b.block ≡ id))
        (Triple-weaken _ _ (λ vm h. h) (λ b vm q. (q.1, q.0)) (load-Triple lib p id r))
        (λ b.
          Triple-bind (λ _ _. lib.block_hash b.block ≡ id)
            (Triple-given (λ e.
              Triple-weaken _ _ (λ vm h. h) (λ a vm q. e)
                (put_by_status-Triple lib p id r b.status)))
            (λ _.
              Triple-bind
                (λ bytes _.
                  (lib.block_hash b.block ≡ id)
                  × (encode_block_with_status lib b.block b.status ≡ ok bytes))
                (Triple-lift _ _ (λ vm bytes i q e. (q, e)))
                (λ bytes. Triple-pure _ _ (λ vm i q. (b.block, q.0, q.1, refl, refl, refl)))))

  mark_accepted-Triple :
      (id : Bytes) (b : Block) → lib.block_hash b ≡ id → Keeps (mark_accepted id b)
  unfolding mark_accepted
  mark_accepted-Triple id b e =
      Triple-bind (λ _. Any)
        (Triple-change lib p _ _ (λ s v q. (delete_verified-IsValid lib v id, tt)))
        (λ _.
          Triple-bind (λ _. Any)
            (Triple-change lib p _ _ (λ s v q. (evict_missing-IsValid lib v id, tt)))
            (λ _.
              Triple-bind (λ _. Any)
                (Triple-change lib p _ _ (λ s v q. (evict_unverified-IsValid lib v id, tt)))
                (λ _.
                  Triple-bind (λ r. Holds lib p id r)
                    (Triple-on lib p _ _
                      (λ s v q. allocate-Held lib p v (record { block = b; status = accepted }) e))
                    (λ r.
                      Triple-change lib p _ _ (λ s v q. (put_decided-IsValid lib v id r q, tt))))))

  IfOk-const : {A P : Type 0} (r : Result A) → P → IfOk (λ _. P) r
  IfOk-const (ok a) q = q
  IfOk-const (err e) q = tt
  IfOk-const panic q = tt

  -- the reads that every handler of one block begins with
  Keeps-cached :
      {A : Type 0} (requested : Bytes) (f : Bytes → Option ℕ → Handler c A)
      → ((id : Bytes) (o : Option ℕ)
          → Safe (f id o) (λ vm. Found lib vm.storage.objects id o × Unit {0}) (λ _. Any))
      → Keeps (lift (to_id requested) >>= λ id. on_storage (get_cached_block id) >>= f id)
  Keeps-cached requested f h =
      Triple-bind (λ _. Any) (Keeps-lift _)
        (λ id.
          Triple-bind (λ o vm. Found lib vm.storage.objects id o × Unit {0})
            (Triple-weaken _ _ (λ vm q. tt) (λ o vm q. q) (cached_block-Triple lib p id)) (h id))

  reject_cached-Triple :
      (id : Bytes) (o : Option ℕ)
      → Safe (reject_cached id o) (λ vm. Found lib vm.storage.objects id o × Unit {0}) (λ _. Any)
  unfolding reject_cached
  reject_cached-Triple id none = Triple-lift _ _ (λ vm a i q e. tt)
  reject_cached-Triple id (some r) =
      Triple-bind (λ _. Holds lib p id r)
        (Triple-change lib p _ _ (λ s v q. set_rejected-IsValid lib v r id q.0))
        (λ _.
          Triple-bind (λ _. Holds lib p id r)
            (Triple-change lib p _ _
              (λ s v q. (delete_verified-IsValid lib v id, delete_verified-Held s id r q)))
            (λ _. Triple-change lib p _ _ (λ s v q. (put_decided-IsValid lib v id r q, tt))))

  pub block_reject-Keeps : (requested : Bytes) → Keeps (block_reject requested)
  unfolding block_reject
  block_reject-Keeps requested = Keeps-cached requested reject_cached reject_cached-Triple

  -- the executor does not touch the storage
  pub exec-Triple : {A : Type 0} (Pre : Vm c → Type 0) (m : Exec A) → Safe (exec m) Pre (λ _. Pre)
  exec-Triple Pre m = record { at = λ vm tr i q. (i, IfOk-const (m tr).0 q) }

  accept_loaded-Triple :
      (w : World) (id : Bytes) (b : Block)
      → lib.block_hash b ≡ id
      → Keeps (accept_loaded lib w id b)
  unfolding accept_loaded
  accept_loaded-Triple w id b e =
      Triple-bind (λ _. Any) (record { at = λ vm tr i q. (i, tt) })
        (λ s.
          Triple-bind (λ _. Any) (exec-Triple _ _)
            (λ t.
              Triple-bind (λ _. Any) (record { at = λ vm tr i q. (i, tt) })
                (λ _. mark_accepted-Triple id b e)))

  accept_cached-Triple :
      (w : World) (id : Bytes) (o : Option ℕ)
      → Safe
          (accept_cached lib w id o)
          (λ vm. Found lib vm.storage.objects id o × Unit {0})
          (λ _. Any)
  unfolding accept_cached
  accept_cached-Triple w id none = Triple-lift _ _ (λ vm a i q e. tt)
  accept_cached-Triple w id (some r) =
      Triple-bind (λ b _. lib.block_hash b.block ≡ id)
        (Triple-weaken _ _ (λ vm q. q.0) (λ b vm q. q.0) (load-Triple lib p id r))
        (λ b. record { at = λ vm tr i q. (accept_loaded-Triple w id b.block q).at vm tr i tt })

  pub block_accept-Keeps : (w : World) (requested : Bytes) → Keeps (block_accept lib w requested)
  unfolding block_accept
  block_accept-Keeps w requested =
      Keeps-cached requested (accept_cached lib w) (accept_cached-Triple w)

  pub block_verify-Keeps : (bytes : Bytes) → Keeps (block_verify lib bytes)
  unfolding block_verify
  block_verify-Keeps bytes =
      Triple-bind (λ _. Any) (Keeps-lift _)
        (λ r.
          Triple-bind (λ _. Any) (record { at = λ vm tr i q. (i, tt) })
            (λ s.
              Triple-bind (λ _. Any) (Keeps-lift _)
                (λ _.
                  Triple-bind (λ id _. lib.block_hash r.0 ≡ id)
                    (Triple-lift _ _ (λ vm id i q e. sym (to_id-eq-ok _ e)))
                    (λ id.
                      Triple-bind (λ _ _. lib.block_hash r.0 ≡ id)
                        (Triple-change lib p (λ _. lib.block_hash r.0 ≡ id) _
                          (λ s v q. (evict_unverified-IsValid lib v id, q)))
                        (λ _.
                          Triple-bind (λ a. Holds lib p id a)
                            (Triple-on lib p _ _ (λ s v q. allocate-Held lib p v _ q))
                            (λ a.
                              Triple-bind (λ _. Any)
                                (Triple-change lib p _ _
                                  (λ s v q. (put_verified-IsValid lib v id a q, tt)))
                                (λ _. Triple-pure _ _ (λ vm i q. tt))))))))
