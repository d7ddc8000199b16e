-- ===== src/Examples/CacheCase.antt =====
-- The theorems on the caches, at small ones with numbers as keys and values.
use native.Mathlib.Decide.{ℕ_discrete}
use slide_sdk.Common.{ℕ, ◌≤◌, ◌≡◌, refl, none, some, [], ◌∷◌}
use slide_sdk.Common.Int.{negsuc}
use slide_sdk.Common.Map
use slide_sdk.Cache.LinkedHashmap.{
  LinkedHashmap, new, put, get, delete, oldest, find_element, remove_element, front, len,
}
use slide_sdk.Cache.LinkedHashmap.Iterator.{
  Unique, new_iterator, next, walk, entries, walk_lem, put-Unique,
}
use slide_sdk.Cache.LinkedHashmap.Agree.{IsValid, new-IsValid, put-IsValid}
use slide_sdk.Cache.Lru.{Lru, elements_of, len_lru, put_lru, drop_oldest, trim, resize, sized}
use slide_sdk.Cache.Lru.Bounded.{put_lru-bounded}

program : Unit {0}
unfolding ℕ_discrete Map.lookup Map.store Map.delete put get delete oldest find_element
    remove_element front len put_lru drop_oldest trim resize
program = tt

-- two entries, the first the oldest
abbrev two : LinkedHashmap ℕ ℕ
two = put ℕ_discrete 2 20 (put ℕ_discrete 1 10 new)

two-IsValid : IsValid ℕ_discrete two
two-IsValid = put-IsValid ℕ_discrete (put-IsValid ℕ_discrete (new-IsValid ℕ_discrete) 1 10) 2 20

two-Unique : Unique two.entry_list
two-Unique =
    put-Unique ℕ_discrete (put-IsValid ℕ_discrete (new-IsValid ℕ_discrete) 1 10) 2 20
      (put-Unique ℕ_discrete (new-IsValid ℕ_discrete) 1 10 tt)

-- a write moves its key to the back
moved : oldest (put ℕ_discrete 1 11 two) ≡ some (2, 20)
unfolding program
moved = refl

-- a cache that is full drops the oldest entry, also where the key is in the cache
full : get ℕ_discrete 1 (elements_of (put_lru ℕ_discrete 2 21 (sized two 2)).elements) ≡ none
unfolding program
full = refl

abbrev negative : Lru ℕ ℕ
negative = record { elements = some two; size = negsuc 0 }

put_lru-bounded_example :
    IsValid ℕ_discrete (elements_of (put_lru ℕ_discrete 3 30 negative).elements)
    × (len_lru (put_lru ℕ_discrete 3 30 negative) ≤ 1)
    × (get ℕ_discrete 3 (elements_of (put_lru ℕ_discrete 3 30 negative).elements) ≡ some 30)
put_lru-bounded_example = put_lru-bounded ℕ_discrete 3 30 negative two-IsValid

-- a loop over the two entries
walk_lem_example : walk 2 two (next two new_iterator) ≡ some (some (1, 10) ∷ some (2, 20) ∷ [])
unfolding program entries next walk
walk_lem_example = walk_lem two two-Unique
