-- ===== src/Vm/Invariant/Blocks.antt =====
-- The handlers of blocks keep the invariant, and what they answer is about the block asked for.
use slide_sdk.Common.{ℕ, ◌≡◌, refl, sym, ◌∙◌, Option, none, some, Bytes, get_elem?, arith}
use slide_sdk.Common.Outcome.{ok}
use slide_sdk.Chain.Types.{Block, Status, unspecified, processing, rejected, accepted}
use slide_sdk.Chain.Library.{Library}
use slide_sdk.Chain.Validate.{decode_block_with_status}
use slide_sdk.Vm.Storage.{Caches, Storage, Objects, WrappedBlock, get_cached_block, allocate}
use slide_sdk.Vm.Machine.{Vm, to_id, pure, change_storage, on_storage, load, some_or_panic}
use slide_sdk.Vm.Blocks.{put_by_status, decode_bytes, identify, register, parse_block}
use slide_sdk.Vm.Triple.{
  Triple, Triple-pure, Triple-lift, Triple-bind, Triple-weaken, Triple-given, IfOk, Any,
}
use slide_sdk.Vm.Invariant.{Promises, Held, Names, IsValid}
use slide_sdk.Vm.Invariant.Steps.{
  allocate-IsValid, evict_missing-IsValid, put_decided-IsValid, put_unverified-IsValid,
}
use slide_sdk.Vm.Invariant.Reads.{
  Found, Named, get_cached_block-Reads, get_cached_id-IsValid, put_id-IsValid,
}

pub to_id-eq-ok : (bytes : Bytes) {id : Bytes} → to_id bytes ≡ ok id → id ≡ bytes
unfolding to_id
to_id-eq-ok bytes h = ground arith

module _ (lib : Library) {c : Caches} (p : Promises c) where
  -- the invariant of a machine is that of its storage
  abbrev pub Inv : Vm c → Type 0
  Inv vm = IsValid lib p vm.storage

  pub Triple-change :
      {Pre : Storage c → Type 0} (Post : Storage c → Type 0) (f : Storage c → Storage c)
      → ((s : Storage c) → IsValid lib p s → Pre s → IsValid lib p (f s) × Post (f s))
      → Triple Inv (λ vm. Pre vm.storage) (change_storage f) (λ _ vm. Post vm.storage)
  Triple-change Post f h = record { at = λ vm tr i q. h vm.storage i q }

  pub Triple-on :
      {A : Type 0} {Pre : Storage c → Type 0} (Post : A → Storage c → Type 0)
      (f : Storage c → A × Storage c)
      → ((s : Storage c) → IsValid lib p s → Pre s → IsValid lib p (f s).1 × Post (f s).0 (f s).1)
      → Triple Inv (λ vm. Pre vm.storage) (on_storage f) (λ a vm. Post a vm.storage)
  Triple-on Post f h = record { at = λ vm tr i q. h vm.storage i q }

  abbrev pub Holds : Bytes → ℕ → Vm c → Type 0
  Holds id r vm = Held lib vm.storage.objects id r

  load_go :
      (id : Bytes) (objects : Objects) (r : ℕ) (o : Option WrappedBlock)
      → get_elem? objects r ≡ o
      → Held lib objects id r
      → IfOk (λ b. (lib.block_hash b.block ≡ id) × Held lib objects id r) (some_or_panic o)
  load_go id objects r none e h = tt
  load_go id objects r (some b) e h = let (x, at, hash) = h in (ground arith, h)

  pub load-Triple :
      (id : Bytes) (r : ℕ)
      → Triple Inv
          (Holds id r)
          (load r)
          (λ b vm. (lib.block_hash b.block ≡ id) × Held lib vm.storage.objects id r)
  unfolding load
  load-Triple id r = record { at = λ vm tr i h. (i, load_go id vm.storage.objects r _ refl h) }

  pub put_by_status-Triple :
      (id : Bytes) (r : ℕ) (status : Status)
      → Triple Inv (Holds id r) (put_by_status id r status) (λ _. Any)
  unfolding put_by_status
  put_by_status-Triple id r accepted =
      Triple-change _ _ (λ s v h. (put_decided-IsValid lib v id r h, tt))
  put_by_status-Triple id r rejected =
      Triple-change _ _ (λ s v h. (put_decided-IsValid lib v id r h, tt))
  put_by_status-Triple id r processing =
      Triple-change _ _ (λ s v h. (put_unverified-IsValid lib v id r h, tt))
  put_by_status-Triple id r unspecified = Triple-lift _ _ (λ vm a i h e. tt)
  put_by_status-Triple id r (Status.other n) = Triple-lift _ _ (λ vm a i h e. tt)

  pub allocate-Held :
      {s : Storage c}
      → IsValid lib p s
      → (b : WrappedBlock) {id : Bytes} → lib.block_hash b.block ≡ id
      → IsValid lib p (allocate b s).1 × Held lib (allocate b s).1.objects id (allocate b s).0
  allocate-Held v b e =
      let (w, held) = allocate-IsValid lib v b in let (x, at, hash) = held in (w, (x, at, hash ∙ e))

  -- what `identify` found: an identifier that the bytes name, and the decoded block if there is one
  abbrev pub Decoded : Bytes → Option (Block × Status) → Type 0
  Decoded id none = Unit
  Decoded id (some (b, status)) = lib.block_hash b ≡ id

  abbrev pub Identified : Bytes → Bytes × Option (Block × Status) → Type 0
  Identified bytes (id, decoded) = Names lib bytes id × Decoded id decoded

  pub register-Triple :
      (id : Bytes) (decoded : Option (Block × Status))
      → Decoded id decoded
      → Triple Inv Any (register id decoded) (λ b _. lib.block_hash b.block ≡ id)
  unfolding register
  register-Triple id none h = Triple-lift _ _ (λ vm a i q e. absurd (cc e))
  register-Triple id (some (b, status)) h =
      Triple-bind (λ r. Holds id r)
        (Triple-on _ _ (λ s v q. allocate-Held v (record { block = b; status = status }) h))
        (λ r.
          Triple-bind (λ _. Any) (put_by_status-Triple id r status)
            (λ _.
              Triple-bind (λ _. Any)
                (Triple-change _ _ (λ s v q. (evict_missing-IsValid lib v id, tt)))
                (λ _. Triple-pure _ _ (λ vm i q. h))))

  abbrev Decodes : Bytes → Block × Status → Type 0
  Decodes bytes r = decode_block_with_status lib bytes ≡ ok r

  decode_bytes-Triple :
      (bytes : Bytes) → Triple Inv Any (decode_bytes lib bytes) (λ r _. Identified bytes r)
  unfolding decode_bytes
  decode_bytes-Triple bytes =
      Triple-bind (λ r _. Decodes bytes r) (Triple-lift _ _ (λ vm r i q e. e))
        (λ r.
          Triple-bind (λ id _. Decodes bytes r × (lib.block_hash r.0 ≡ id))
            (Triple-lift _ _ (λ vm id i q e. (q, sym (to_id-eq-ok _ e))))
            (λ id.
              Triple-bind (λ _ _. Decodes bytes r × (lib.block_hash r.0 ≡ id))
                (Triple-change _ _
                  (λ s v q. (put_id-IsValid lib v bytes id (r.0, r.1, q.0, q.1), q)))
                (λ _. Triple-pure _ _ (λ vm i q. ((r.0, r.1, q.0, q.1), q.1)))))

  identify-Triple :
      (bytes : Bytes) → Triple Inv Any (identify lib bytes) (λ r _. Identified bytes r)
  unfolding identify
  identify-Triple bytes =
      Triple-bind (λ o _. Named lib bytes o)
        (Triple-on _ _ (λ s v q. get_cached_id-IsValid lib v bytes)) (λ o. after_cache o)
    where
      after_cache :
          (o : Option Bytes)
          → Triple Inv
              (λ _. Named lib bytes o)
              (elim o [ some id ↦ pure (id, none) | none ↦ decode_bytes lib bytes ])
              (λ r _. Identified bytes r)
      after_cache (some id) = Triple-pure _ _ (λ vm i n. (n, tt))
      after_cache none = decode_bytes-Triple bytes

  -- A read of the three caches of blocks.
  pub cached_block-Triple :
      {P : Type 0} (id : Bytes)
      → Triple Inv
          (λ _. P)
          (on_storage (get_cached_block id))
          (λ o vm. Found lib vm.storage.objects id o × P)
  cached_block-Triple id =
      Triple-on _ _
        (λ s v q. let (w, same, found) = get_cached_block-Reads lib id v in (w, (found, q)))

  -- `ParseBlock` keeps the invariant, and the identifier that it answers is the hash of the block that
  -- the bytes decode to, also where the caches answered.
  pub parse_block-Triple :
      (bytes : Bytes) → Triple Inv Any (parse_block lib bytes) (λ r _. Names lib bytes r.id)
  unfolding parse_block
  parse_block-Triple bytes =
      Triple-bind (λ r _. Identified bytes r) (identify-Triple bytes)
        (λ r.
          Triple-bind (λ o vm. Found lib vm.storage.objects r.0 o × Identified bytes r)
            (cached_block-Triple r.0)
            (λ o.
              Triple-bind (λ b _. (lib.block_hash b.block ≡ r.0) × Names lib bytes r.0)
                (block_at r o) (λ b. Triple-pure _ _ (λ vm i q. Names-move (sym q.0) q.1))))
    where
      Names-move : {id j : Bytes} → id ≡ j → Names lib bytes id → Names lib bytes j
      Names-move e (b, st, d, h) = (b, st, d, h ∙ e)

      block_at :
          (r : Bytes × Option (Block × Status)) (o : Option ℕ)
          → Triple Inv
              (λ vm. Found lib vm.storage.objects r.0 o × Identified bytes r)
              (elim o [ some a ↦ load a | none ↦ register r.0 r.1 ])
              (λ b _. (lib.block_hash b.block ≡ r.0) × Names lib bytes r.0)
      block_at r (some a) =
          Triple-given
            (λ n. Triple-weaken _ _ (λ vm h. h) (λ b vm q. (q.0, n.0)) (load-Triple r.0 a))
      block_at r none =
          Triple-given
            (λ n. Triple-weaken _ _ (λ vm h. h) (λ b vm q. (q, n.0)) (register-Triple r.0 r.1 n.1))
