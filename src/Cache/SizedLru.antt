-- ===== src/Cache/SizedLru.antt =====
-- `sizedLRU` (utils/cache/lru_sized_cache.go): a cache whose entries have sizes, which it counts against
-- a maximal size. The size of an entry is read from an environment, since it may follow a pointer. The lock is
-- left out: a call holds it from its start to its end.
pub mod Laws
pub mod Counted
pub mod Implements
use slide_sdk.Common.{ℕ, zero, suc, ◌+◌, Option, none, some, if◌then◌else◌}
use slide_sdk.Common.Int.{ℤ, pos, pos_part, ltb_ℤ, add_int64, sub_int64}
use slide_sdk.Cache.LinkedHashmap.{LinkedHashmap, new, put, get, delete, len, oldest}

pub record SizedLru (K V : Type 0) : Type 0 where
  pub elements : LinkedHashmap K V
  pub max_size : ℤ
  pub current_size : ℤ

module _ {H K V : Type 0} (dec : Discrete K) (size : H → K → V → ℤ) (zero_size : H → ℤ) where
  -- the body of the loop of `put`; an empty map has zero values as its oldest
  unfoldable pub drop_sized : H → SizedLru K V → SizedLru K V
  drop_sized h c = elim (oldest c.elements) [
    | none ↦ record c { current_size = sub_int64 c.current_size (zero_size h) }
    | some (k, v) ↦ record c {
      elements = (delete dec k c.elements).1;
      current_size = sub_int64 c.current_size (size h k v);
    }
  ]

  -- the loop of `put`, with fuel; `none` when the fuel is used up
  unfoldable pub shrink : ℕ → H → ℤ → SizedLru K V → Option (SizedLru K V)
  shrink zero h room c = none
  shrink (suc fuel) h room c =
      let rest = shrink fuel h room (drop_sized h c) in
      if ltb_ℤ room c.current_size then rest else some c

  unfoldable pub flush_sized : SizedLru K V → SizedLru K V
  flush_sized c = record c { elements = new; current_size = pos 0 }

  -- the size of a key that is updated is taken off first
  unfoldable pub without_old : H → K → SizedLru K V → SizedLru K V
  without_old h k c = elim (get dec k c.elements) [
    | none ↦ c
    | some old ↦ record c { current_size = sub_int64 c.current_size (size h k old) }
  ]

  -- enough turns for the loop
  unfoldable pub turns : SizedLru K V → ℕ
  turns c = len c.elements + pos_part c.current_size + 1

  unfoldable pub add_sized : H → K → V → SizedLru K V → SizedLru K V
  add_sized h k v c = record c {
    elements = put dec k v c.elements;
    current_size = add_int64 c.current_size (size h k v);
  }

  -- `put`; `none` when the loop runs out of fuel
  unfoldable pub put_sized : H → K → V → SizedLru K V → Option (SizedLru K V)
  put_sized h k v c =
      let new_entry_size = size h k v in
      if ltb_ℤ c.max_size new_entry_size
      then some (flush_sized c)
      else let d = without_old h k c in
        elim (shrink (turns d) h (sub_int64 c.max_size new_entry_size) d) [
          | none ↦ none
          | some e ↦ some (add_sized h k v e)
        ]

  unfoldable pub get_sized : K → SizedLru K V → Option V × SizedLru K V
  get_sized k c = elim (get dec k c.elements) [
    | none ↦ (none, c)
    | some v ↦ (some v, record c { elements = put dec k v c.elements })
  ]

  unfoldable pub evict_sized : H → K → SizedLru K V → SizedLru K V
  evict_sized h k c = elim (get dec k c.elements) [
    | none ↦ c
    | some v ↦ record c {
      elements = (delete dec k c.elements).1;
      current_size = sub_int64 c.current_size (size h k v);
    }
  ]

  unfoldable pub len_sized : SizedLru K V → ℕ
  len_sized c = len c.elements
