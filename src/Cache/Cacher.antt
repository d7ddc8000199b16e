-- ===== src/Cache/Cacher.antt =====
-- `cache.Cacher` (utils/cache/cache.go): a bounded cache that may forget, with the laws that its users
-- rely on. The sizes of the entries are read from an environment `H`, which `Put` and `Evict` are given.
use slide_sdk.Common.{◌≡◌, ◌≢◌, ◌⊎◌, Option, none, some}

pub record Cacher (H K V : Type 0) : Type 1 where
  pub Cache : Type 0
  pub empty : Cache
  pub get : K → Cache → Option V × Cache
  pub put : H → K → V → Cache → Cache
  pub evict : H → K → Cache → Cache
  pub flush : Cache → Cache

-- What a cache promises: it may forget an entry, and it never makes one up.
pub record IsCacher {H K V : Type 0} (c : Cacher H K V) : Type 1 where
  pub IsValid : c.Cache → Type 0
  pub IsValid-empty : IsValid c.empty
  pub IsValid-get : (k : K) (m : c.Cache) → IsValid m → IsValid (c.get k m).1
  pub IsValid-put : (h : H) (k : K) (v : V) (m : c.Cache) → IsValid m → IsValid (c.put h k v m)
  pub IsValid-evict : (h : H) (k : K) (m : c.Cache) → IsValid m → IsValid (c.evict h k m)
  pub IsValid-flush : (m : c.Cache) → IsValid m → IsValid (c.flush m)
  pub get-empty : (k : K) → (c.get k c.empty).0 ≡ none
  pub get-get : (k j : K) (m : c.Cache) → IsValid m → (c.get j (c.get k m).1).0 ≡ (c.get j m).0
  pub get-put_self :
      (h : H) (k : K) (v : V) (m : c.Cache)
      → IsValid m
      → ((c.get k (c.put h k v m)).0 ≡ none) ⊎ ((c.get k (c.put h k v m)).0 ≡ some v)
  pub get-put_ne :
      (h : H) (k j : K) (v : V) (m : c.Cache)
      → IsValid m
      → k ≢ j
      → ((c.get j (c.put h k v m)).0 ≡ none) ⊎ ((c.get j (c.put h k v m)).0 ≡ (c.get j m).0)
  pub get-evict_self :
      (h : H) (k : K) (m : c.Cache) → IsValid m → (c.get k (c.evict h k m)).0 ≡ none
  pub get-evict_ne :
      (h : H) (k j : K) (m : c.Cache)
      → IsValid m
      → k ≢ j
      → (c.get j (c.evict h k m)).0 ≡ (c.get j m).0
  pub get-flush : (k : K) (m : c.Cache) → IsValid m → (c.get k (c.flush m)).0 ≡ none
