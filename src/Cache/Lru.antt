-- ===== src/Cache/Lru.antt =====
-- `LRU` (utils/cache/lru_cache.go): a cache that keeps the entries used last, a bounded number of them.
-- The lock is left out: a call holds it from its start to its end.
pub mod Bounded
pub mod Implements
use slide_sdk.Common.{
  ℕ, suc, zero, ◌≡◌, refl, Option, none, some, List, [], ◌∷◌, length, ltb, ◌==◌, if◌then◌else◌,
}
use slide_sdk.Common.Int.{ℤ, pos, pos_part, leb_ℤ}
use slide_sdk.Cache.LinkedHashmap.{LinkedHashmap, new, put, get, delete, len, oldest}

-- `elements` is nil before the first use.
pub record Lru (K V : Type 0) : Type 0 where
  pub elements : Option (LinkedHashmap K V)
  pub size : ℤ

-- a size that is not positive stands for 1
abbrev pub capacity : ℤ → ℕ
capacity size = if leb_ℤ size (pos 0) then 1 else pos_part size

module _ {K V : Type 0} where
  abbrev pub elements_of : Option (LinkedHashmap K V) → LinkedHashmap K V
  elements_of none = new
  elements_of (some m) = m

  -- a cache with its elements present and its size positive
  abbrev pub sized : LinkedHashmap K V → ℕ → Lru K V
  sized m size = record { elements = some m; size = pos size }

  -- `flush`
  abbrev pub flush_lru : Lru K V → Lru K V
  flush_lru c = record c { elements = some new }

  abbrev pub len_lru : Lru K V → ℕ
  len_lru c = elim c.elements [ none ↦ 0 | some m ↦ len m ]

  module _ (dec : Discrete K) where
    -- `Oldest`, then `Delete`; an empty map has no key to delete
    unfoldable pub drop_oldest : LinkedHashmap K V → LinkedHashmap K V
    drop_oldest m = elim (oldest m) [ none ↦ m | some (k, v) ↦ (delete dec k m).1 ]

    -- the loop of `resize`, whose fuel is the number of elements
    unfoldable pub trim : ℕ → ℕ → LinkedHashmap K V → LinkedHashmap K V
    trim zero size m = m
    trim (suc fuel) size m =
        let rest = trim fuel size (drop_oldest m) in if ltb size (len m) then rest else m

    -- `resize`: the elements and the size that it leaves
    unfoldable pub resize : Lru K V → LinkedHashmap K V
    resize c = let m = elements_of c.elements in let size = capacity c.size in trim (len m) size m

    unfoldable pub put_lru : K → V → Lru K V → Lru K V
    put_lru k v c =
        let size = capacity c.size in
        let m = resize c in
        let room = if len m == size then drop_oldest m else m in sized (put dec k v room) size

    unfoldable pub get_lru : K → Lru K V → Option V × Lru K V
    get_lru k c =
        let size = capacity c.size in
        let m = resize c in
        elim (get dec k m) [
          | none ↦ (none, sized m size)
          | some v ↦ (some v, sized (put dec k v m) size)
        ]

    unfoldable pub evict_lru : K → Lru K V → Lru K V
    evict_lru k c = let size = capacity c.size in let m = resize c in sized (delete dec k m).1 size
