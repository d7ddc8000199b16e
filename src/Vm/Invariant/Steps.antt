-- ===== src/Vm/Invariant/Steps.antt =====
-- Every change of the storage keeps the invariant.
use slide_sdk.Common.{ℕ, refl, Bytes}
use slide_sdk.Common.Map
use slide_sdk.Chain.Library.{Library}
use slide_sdk.Vm.Storage.{
  Caches, Storage, WrappedBlock, new_storage, flush, allocate, put_decided, put_unverified,
  evict_unverified, evict_missing, put_missing, put_verified, delete_verified,
}
use slide_sdk.Vm.Blocks.{get_missing}
use slide_sdk.Vm.Invariant.{
  Promises, Held, IsValid, Keyed-grow, get_elem?-append_last, Keyed-store, Keyed-delete, Keyed-put,
  Keyed-evict,
}

module _ (lib : Library) {c : Caches} (p : Promises c) where
  pub new_storage-IsValid : IsValid lib p new_storage
  unfolding new_storage
  new_storage-IsValid = record {
    decided_cache = p.blocks.IsValid-empty;
    unverified_cache = p.blocks.IsValid-empty;
    missing_cache = p.missing.IsValid-empty;
    ids_cache = p.ids.IsValid-empty;
    verified = λ id r h. absurd (unfold Map.lookup in cc h);
    decided = λ id r h. absurd (cc (h, p.blocks.get-empty id));
    unverified = λ id r h. absurd (cc (h, p.blocks.get-empty id));
    ids = λ bytes id h. absurd (cc (h, p.ids.get-empty bytes));
  }

module _ (lib : Library) {c : Caches} {p : Promises c} {s : Storage c} (v : IsValid lib p s) where
  pub flush-IsValid : IsValid lib p (flush s)
  unfolding flush
  flush-IsValid = record {
    decided_cache = p.blocks.IsValid-flush _ v.decided_cache;
    unverified_cache = p.blocks.IsValid-flush _ v.unverified_cache;
    missing_cache = p.missing.IsValid-flush _ v.missing_cache;
    ids_cache = p.ids.IsValid-flush _ v.ids_cache;
    verified = v.verified;
    decided = λ id r h. absurd (cc (h, p.blocks.get-flush id _ v.decided_cache));
    unverified = λ id r h. absurd (cc (h, p.blocks.get-flush id _ v.unverified_cache));
    ids = λ bytes id h. absurd (cc (h, p.ids.get-flush bytes _ v.ids_cache));
  }

  pub allocate-IsValid :
      (b : WrappedBlock)
      → IsValid lib p (allocate b s).1
        × Held lib (allocate b s).1.objects (lib.block_hash b.block) (allocate b s).0
  unfolding allocate
  allocate-IsValid b = (
    record {
      decided_cache = v.decided_cache;
      unverified_cache = v.unverified_cache;
      missing_cache = v.missing_cache;
      ids_cache = v.ids_cache;
      verified = Keyed-grow lib s.objects b _ v.verified;
      decided = Keyed-grow lib s.objects b _ v.decided;
      unverified = Keyed-grow lib s.objects b _ v.unverified;
      ids = v.ids;
    },
    (b, get_elem?-append_last lib s.objects b, refl),
  )

  module _ (id : Bytes) where
    pub put_decided-IsValid : (r : ℕ) → Held lib s.objects id r → IsValid lib p (put_decided id r s)
    unfolding put_decided
    put_decided-IsValid r held = record {
      decided_cache = p.blocks.IsValid-put s.objects id r s.decided v.decided_cache;
      unverified_cache = v.unverified_cache;
      missing_cache = v.missing_cache;
      ids_cache = v.ids_cache;
      verified = v.verified;
      decided =
          Keyed-put lib c.blocks p.blocks s.objects s.objects id r s.decided v.decided_cache held
            v.decided;
      unverified = v.unverified;
      ids = v.ids;
    }

    pub put_unverified-IsValid :
        (r : ℕ) → Held lib s.objects id r → IsValid lib p (put_unverified id r s)
    unfolding put_unverified
    put_unverified-IsValid r held = record {
      decided_cache = v.decided_cache;
      unverified_cache = p.blocks.IsValid-put s.objects id r s.unverified v.unverified_cache;
      missing_cache = v.missing_cache;
      ids_cache = v.ids_cache;
      verified = v.verified;
      decided = v.decided;
      unverified =
          Keyed-put lib c.blocks p.blocks s.objects s.objects id r s.unverified v.unverified_cache
            held v.unverified;
      ids = v.ids;
    }

    pub evict_unverified-IsValid : IsValid lib p (evict_unverified id s)
    unfolding evict_unverified
    evict_unverified-IsValid = record {
      decided_cache = v.decided_cache;
      unverified_cache = p.blocks.IsValid-evict s.objects id s.unverified v.unverified_cache;
      missing_cache = v.missing_cache;
      ids_cache = v.ids_cache;
      verified = v.verified;
      decided = v.decided;
      unverified =
          Keyed-evict lib c.blocks p.blocks s.objects s.objects id s.unverified v.unverified_cache
            v.unverified;
      ids = v.ids;
    }

    pub put_verified-IsValid :
        (r : ℕ) → Held lib s.objects id r → IsValid lib p (put_verified id r s)
    unfolding put_verified
    put_verified-IsValid r held = record {
      decided_cache = v.decided_cache;
      unverified_cache = v.unverified_cache;
      missing_cache = v.missing_cache;
      ids_cache = v.ids_cache;
      verified = Keyed-store lib s.objects id r s.verified held v.verified;
      decided = v.decided;
      unverified = v.unverified;
      ids = v.ids;
    }

    pub delete_verified-IsValid : IsValid lib p (delete_verified id s)
    unfolding delete_verified
    delete_verified-IsValid = record {
      decided_cache = v.decided_cache;
      unverified_cache = v.unverified_cache;
      missing_cache = v.missing_cache;
      ids_cache = v.ids_cache;
      verified = Keyed-delete lib s.objects id s.verified v.verified;
      decided = v.decided;
      unverified = v.unverified;
      ids = v.ids;
    }

    missing-IsValid :
        (m : c.missing.Cache) → p.missing.IsValid m → IsValid lib p (record s { missing = m })
    missing-IsValid m w = record {
      decided_cache = v.decided_cache;
      unverified_cache = v.unverified_cache;
      missing_cache = w;
      ids_cache = v.ids_cache;
      verified = v.verified;
      decided = v.decided;
      unverified = v.unverified;
      ids = v.ids;
    }

    pub evict_missing-IsValid : IsValid lib p (evict_missing id s)
    unfolding evict_missing
    evict_missing-IsValid =
        missing-IsValid _ (p.missing.IsValid-evict tt id s.missing v.missing_cache)

    pub put_missing-IsValid : IsValid lib p (put_missing id s)
    unfolding put_missing
    put_missing-IsValid =
        missing-IsValid _ (p.missing.IsValid-put tt id tt s.missing v.missing_cache)

    pub get_missing-IsValid : IsValid lib p (get_missing id s).1
    unfolding get_missing
    get_missing-IsValid = missing-IsValid _ (p.missing.IsValid-get id s.missing v.missing_cache)
