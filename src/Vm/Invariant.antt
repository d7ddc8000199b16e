-- ===== src/Vm/Invariant.antt =====
-- The invariant of the storage of blocks: what a cache holds under an identifier is an object whose
-- block has that hash, and a cached identifier is that of the block that the bytes decode to.
pub mod Steps
pub mod Reads
pub mod Blocks
pub mod Handlers
pub mod Serving
pub mod Runs
use slide_sdk.Common.{
  ℕ, zero, suc, ◌+◌, ◌<◌, ◌≡◌, ◌≢◌, refl, sym, ◌∙◌, subst, ◌⊎◌, inl, inr, Option, none, some, List,
  [], ◌∷◌, ◌++◌, Bytes, Bytes-discrete, length, get_elem?, set, arith, ite,
}
use slide_sdk.Common.Map
use slide_sdk.Common.Outcome.{ok}
use slide_sdk.Chain.Types.{Block, Status}
use slide_sdk.Chain.Library.{Library}
use slide_sdk.Chain.Validate.{decode_block_with_status}
use slide_sdk.Cache.Cacher.{Cacher, IsCacher}
use slide_sdk.Vm.Storage.{Caches, Storage, Objects, WrappedBlock}

-- The caches do what `Cacher` promises.
pub record Promises (c : Caches) : Type 1 where
  pub blocks : IsCacher c.blocks
  pub missing : IsCacher c.missing
  pub ids : IsCacher c.ids

module _ (lib : Library) where
  -- the object at `r` holds a block with the hash `id`
  abbrev pub Held : Objects → Bytes → ℕ → Type 0
  Held objects id r =
      (b : WrappedBlock) × (get_elem? objects r ≡ some b) × (lib.block_hash b.block ≡ id)

  abbrev pub Keyed : Objects → (Bytes → Option ℕ) → Type 0
  Keyed objects look = (id : Bytes) (r : ℕ) → look id ≡ some r → Held objects id r

  Held-move :
      (objects : Objects) {id j : Bytes} {r q : ℕ}
      → id ≡ j
      → some r ≡ some q
      → Held objects id r
      → Held objects j q
  Held-move objects e p (b, at, hash) = (b, cc, cc)

  -- the bytes decode to a block with the hash `id`
  abbrev pub Names : Bytes → Bytes → Type 0
  Names bytes id =
      (b : Block) × (status : Status) × (decode_block_with_status lib bytes ≡ ok (b, status))
      × (lib.block_hash b ≡ id)

  pub record IsValid {c : Caches} (p : Promises c) (s : Storage c) : Type 0 where
    pub decided_cache : p.blocks.IsValid s.decided
    pub unverified_cache : p.blocks.IsValid s.unverified
    pub missing_cache : p.missing.IsValid s.missing
    pub ids_cache : p.ids.IsValid s.bytes_to_id
    pub verified : Keyed s.objects (λ id. Map.lookup Bytes-discrete id s.verified)
    pub decided : Keyed s.objects (λ id. (c.blocks.get id s.decided).0)
    pub unverified : Keyed s.objects (λ id. (c.blocks.get id s.unverified).0)
    pub ids : (bytes id : Bytes) → (c.ids.get bytes s.bytes_to_id).0 ≡ some id → Names bytes id

  module _ (objects : Objects) where
    get_elem?-append :
        (xs ys : Objects) (r : ℕ) {b : WrappedBlock}
        → get_elem? xs r ≡ some b
        → get_elem? (xs ++ ys) r ≡ some b
    get_elem?-append [] ys r h = cc
    get_elem?-append (x ∷ xs) ys zero h = h
    get_elem?-append (x ∷ xs) ys (suc r) h = get_elem?-append xs ys r h

    pub Keyed-grow :
        (b : WrappedBlock) (look : Bytes → Option ℕ)
        → Keyed objects look
        → Keyed (objects ++ b ∷ []) look
    Keyed-grow b look k id r h =
        let (x, at, hash) = k id r h in (x, get_elem?-append objects (b ∷ []) r at, hash)

  pub get_elem?-append_last :
      (xs : Objects) (b : WrappedBlock) → get_elem? (xs ++ b ∷ []) (length xs) ≡ some b
  get_elem?-append_last [] b = refl
  get_elem?-append_last (x ∷ xs) b = get_elem?-append_last xs b

  pub Keyed-store :
      (objects : Objects) (id : Bytes) (r : ℕ) (m : List (Bytes × ℕ))
      → Held objects id r
      → Keyed objects (λ j. Map.lookup Bytes-discrete j m)
      → Keyed objects (λ j. Map.lookup Bytes-discrete j (Map.store Bytes-discrete id r m))
  Keyed-store objects id r m held k j q h = elim (Bytes-discrete id j) [
    | yes e ↦ Held-move objects e (ground (arith, Map.lookup-store Bytes-discrete id j r m)) held
    | no e ↦ k j q (ground (arith, Map.lookup-store Bytes-discrete id j r m))
  ]

  pub Keyed-delete :
      (objects : Objects) (id : Bytes) (m : List (Bytes × ℕ))
      → Keyed objects (λ j. Map.lookup Bytes-discrete j m)
      → Keyed objects (λ j. Map.lookup Bytes-discrete j (Map.delete Bytes-discrete id m))
  Keyed-delete objects id m k j q h =
      k j q (ground (arith, Map.lookup-delete Bytes-discrete id j m))

  module _ {H : Type 0} (b : Cacher H Bytes ℕ) (laws : IsCacher b) (objects : Objects) where
    pub Keyed-get :
        (id : Bytes) (m : b.Cache)
        → laws.IsValid m
        → Keyed objects (λ j. (b.get j m).0)
        → Keyed objects (λ j. (b.get j (b.get id m).1).0)
    Keyed-get id m v k j q h = k j q (sym (laws.get-get id j m v) ∙ h)

    pub Keyed-put :
        (e : H) (id : Bytes) (r : ℕ) (m : b.Cache)
        → laws.IsValid m
        → Held objects id r
        → Keyed objects (λ j. (b.get j m).0)
        → Keyed objects (λ j. (b.get j (b.put e id r m)).0)
    Keyed-put e id r m v held k j q h = elim (Bytes-discrete id j) [
      | yes eq ↦
          let there : (b.get id (b.put e id r m)).0 ≡ some q =
            subst (λ x. (b.get x (b.put e id r m)).0 ≡ some q) (sym eq) h in
          elim (laws.get-put_self e id r m v) [
            | inl x ↦ absurd (cc)
            | inr x ↦ Held-move objects eq (sym x ∙ there) held
          ]
      | no ne ↦ elim (laws.get-put_ne e id j r m v ne) [
        | inl x ↦ absurd (cc)
        | inr x ↦ k j q (sym x ∙ h)
      ]
    ]

    pub Keyed-evict :
        (e : H) (id : Bytes) (m : b.Cache)
        → laws.IsValid m
        → Keyed objects (λ j. (b.get j m).0)
        → Keyed objects (λ j. (b.get j (b.evict e id m)).0)
    Keyed-evict e id m v k j q h = elim (Bytes-discrete id j) [
      | yes eq ↦
          let there : (b.get id (b.evict e id m)).0 ≡ some q =
            subst (λ x. (b.get x (b.evict e id m)).0 ≡ some q) (sym eq) h in
          let gone = laws.get-evict_self e id m v in absurd (cc)
      | no ne ↦ k j q (sym (laws.get-evict_ne e id j m v ne) ∙ h)
    ]
