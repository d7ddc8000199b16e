-- ===== src/Vm/Invariant/Reads.antt =====
-- The reads of the caches, the cache of identifiers and the write of `BlockReject` keep the invariant,
-- and what a read finds is held.
use slide_sdk.Common.{
  ℕ, zero, suc, ◌≡◌, refl, sym, ◌∙◌, subst, inl, inr, Option, none, some, Option-cases, [], ◌∷◌,
  Bytes, Bytes-discrete, get_elem?, set,
}
use slide_sdk.Common.Map
use slide_sdk.Chain.Types.{rejected}
use slide_sdk.Chain.Library.{Library}
use slide_sdk.Vm.Storage.{
  Caches, Storage, Objects, WrappedBlock, get_cached_block, cached_decided, cached_unverified,
}
use slide_sdk.Vm.Blocks.{get_cached_id, put_id, set_rejected}
use slide_sdk.Vm.Invariant.{Promises, Held, Names, IsValid, Keyed-get}

-- What a cache read finds is held by the objects, under the invariant.
abbrev pub Found : Library → Objects → Bytes → Option ℕ → Type 0
Found lib objects id none = Unit
Found lib objects id (some r) = Held lib objects id r

abbrev pub Named : Library → Bytes → Option Bytes → Type 0
Named lib bytes none = Unit
Named lib bytes (some id) = Names lib bytes id

Found-of :
    (lib : Library) (objects : Objects) (id : Bytes) (o : Option ℕ)
    → ((r : ℕ) → o ≡ some r → Held lib objects id r)
    → Found lib objects id o
Found-of lib objects id none h = tt
Found-of lib objects id (some r) h = h r refl

Named-of :
    (lib : Library) (bytes : Bytes) (o : Option Bytes)
    → ((id : Bytes) → o ≡ some id → Names lib bytes id)
    → Named lib bytes o
Named-of lib bytes none h = tt
Named-of lib bytes (some id) h = h id refl

-- A read, as the invariant sees it.
abbrev pub Reads :
    (lib : Library) {c : Caches} → Promises c → Bytes → Objects → Option ℕ × Storage c → Type 0
Reads lib p id objects (found, t) =
    IsValid lib p t × (t.objects ≡ objects) × Found lib t.objects id found

module _ (lib : Library) {c : Caches} {p : Promises c} (id : Bytes) where
  cached_unverified-Reads :
      {s : Storage c} → IsValid lib p s → Reads lib p id s.objects (cached_unverified id s)
  unfolding cached_unverified
  cached_unverified-Reads {s} v = (
    record {
      decided_cache = v.decided_cache;
      unverified_cache = p.blocks.IsValid-get id s.unverified v.unverified_cache;
      missing_cache = v.missing_cache;
      ids_cache = v.ids_cache;
      verified = v.verified;
      decided = v.decided;
      unverified =
          Keyed-get lib c.blocks p.blocks s.objects id s.unverified v.unverified_cache v.unverified;
      ids = v.ids;
    },
    refl,
    Found-of lib s.objects id _ (v.unverified id),
  )

  after_decided :
      {s : Storage c}
      → IsValid lib p s
      → IsValid lib p (record s { decided = (c.blocks.get id s.decided).1 })
  after_decided {s} v = record {
    decided_cache = p.blocks.IsValid-get id s.decided v.decided_cache;
    unverified_cache = v.unverified_cache;
    missing_cache = v.missing_cache;
    ids_cache = v.ids_cache;
    verified = v.verified;
    decided = Keyed-get lib c.blocks p.blocks s.objects id s.decided v.decided_cache v.decided;
    unverified = v.unverified;
    ids = v.ids;
  }

  cached_decided-Reads :
      {s : Storage c} → IsValid lib p s → Reads lib p id s.objects (cached_decided id s)
  unfolding cached_decided
  cached_decided-Reads {s} v = elim (Option-cases (c.blocks.get id s.decided).0) [
    | inl e ↦ rw (e, cached_decided) (cached_unverified-Reads (after_decided v))
    | inr (r, e) ↦ rw (e, cached_decided) (after_decided v, refl, v.decided id r e)
  ]

  pub get_cached_block-Reads :
      {s : Storage c} → IsValid lib p s → Reads lib p id s.objects (get_cached_block id s)
  unfolding get_cached_block
  get_cached_block-Reads {s} v = elim (Option-cases (Map.lookup Bytes-discrete id s.verified)) [
    | inl e ↦ rw (e, get_cached_block) (cached_decided-Reads v)
    | inr (r, e) ↦ rw (e, get_cached_block) (v, refl, v.verified id r e)
  ]

module _ (lib : Library) {c : Caches} {p : Promises c} {s : Storage c} (v : IsValid lib p s) where
  ids-IsValid :
      (m : c.ids.Cache)
      → p.ids.IsValid m
      → ((bytes id : Bytes) → (c.ids.get bytes m).0 ≡ some id → Names lib bytes id)
      → IsValid lib p (record s { bytes_to_id = m })
  ids-IsValid m w n = record {
    decided_cache = v.decided_cache;
    unverified_cache = v.unverified_cache;
    missing_cache = v.missing_cache;
    ids_cache = w;
    verified = v.verified;
    decided = v.decided;
    unverified = v.unverified;
    ids = n;
  }

  pub get_cached_id-IsValid :
      (bytes : Bytes)
      → IsValid lib p (get_cached_id bytes s).1 × Named lib bytes (get_cached_id bytes s).0
  unfolding get_cached_id
  get_cached_id-IsValid bytes = (
    ids-IsValid _ (p.ids.IsValid-get bytes s.bytes_to_id v.ids_cache)
        (λ b id h. v.ids b id (sym (p.ids.get-get bytes b s.bytes_to_id v.ids_cache) ∙ h)),
    Named-of lib bytes _ (v.ids bytes),
  )

  pub put_id-IsValid : (bytes id : Bytes) → Names lib bytes id → IsValid lib p (put_id bytes id s)
  unfolding put_id
  put_id-IsValid bytes id n =
      ids-IsValid _ (p.ids.IsValid-put tt bytes id s.bytes_to_id v.ids_cache) names
    where
      names :
          (b i : Bytes)
          → (c.ids.get b (c.ids.put tt bytes id s.bytes_to_id)).0 ≡ some i
          → Names lib b i
      names b i h = elim (Bytes-discrete bytes b) [
        | yes e ↦
            let there : (c.ids.get bytes (c.ids.put tt bytes id s.bytes_to_id)).0 ≡ some i =
              subst (λ x. (c.ids.get x (c.ids.put tt bytes id s.bytes_to_id)).0 ≡ some i) (sym e)
                h in
            elim (p.ids.get-put_self tt bytes id s.bytes_to_id v.ids_cache) [
              | inl x ↦ absurd (cc)
              | inr x ↦ let (d, st, de, hash) = n in (d, st, cc, cc)
            ]
        | no ne ↦ elim (p.ids.get-put_ne tt bytes b id s.bytes_to_id v.ids_cache ne) [
          | inl x ↦ absurd (cc)
          | inr x ↦ v.ids b i (sym x ∙ h)
        ]
      ]

-- The write changes a status, and no block.
Held-set :
    (lib : Library) (objects : Objects) (r : ℕ) (b : WrappedBlock) (id : Bytes) (q : ℕ)
    → get_elem? objects r ≡ some b
    → Held lib objects id q
    → Held lib (set objects r (record b { status = rejected })) id q
Held-set lib [] r b id q e h = h
Held-set lib (x ∷ xs) zero b id zero e (y, at, hash) = (record b { status = rejected }, refl, cc)
Held-set lib (x ∷ xs) zero b id (suc q) e h = h
Held-set lib (x ∷ xs) (suc r) b id zero e h = h
Held-set lib (x ∷ xs) (suc r) b id (suc q) e h = Held-set lib xs r b id q e h

module _ (lib : Library) {c : Caches} {p : Promises c} {s : Storage c} (v : IsValid lib p s)
    (r : ℕ) where
  set_rejected-Held :
      (id : Bytes) (q : ℕ) → Held lib s.objects id q → Held lib (set_rejected r s).objects id q
  unfolding set_rejected
  set_rejected-Held id q h = elim (Option-cases (get_elem? s.objects r)) [
    | inl e ↦ rw (e, set_rejected) h
    | inr (b, e) ↦ rw (e, set_rejected) (Held-set lib s.objects r b id q e h)
  ]

  pub set_rejected-IsValid :
      (id : Bytes)
      → Held lib s.objects id r
      → IsValid lib p (set_rejected r s) × Held lib (set_rejected r s).objects id r
  unfolding set_rejected
  set_rejected-IsValid id h = (
    record {
      decided_cache = v.decided_cache;
      unverified_cache = v.unverified_cache;
      missing_cache = v.missing_cache;
      ids_cache = v.ids_cache;
      verified = λ j q e. set_rejected-Held j q (v.verified j q e);
      decided = λ j q e. set_rejected-Held j q (v.decided j q e);
      unverified = λ j q e. set_rejected-Held j q (v.unverified j q e);
      ids = v.ids;
    },
    set_rejected-Held id r h,
  )
