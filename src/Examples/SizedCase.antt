-- ===== src/Examples/SizedCase.antt =====
-- The theorems on the caches behind the interface, at caches of numbers where each entry has the size 2.
use mathlib.Core.Option
use slide_sdk.Common.{ℕ, ◌≡◌, refl, Option, none, some, ℕ_discrete, arith}
use slide_sdk.Common.Int.{ℤ, pos, ◌≤ℤ◌, add_int64, sub_int64, to_int64, to_uint64, ◌+ℤ◌, ◌-ℤ◌}
use slide_sdk.Common.Map
use slide_sdk.Cache.Cacher.{IsCacher}
use slide_sdk.Cache.LinkedHashmap
use slide_sdk.Cache.LinkedHashmap.{new, put, get}
use slide_sdk.Cache.LinkedHashmap.Agree.{new-IsValid, put-IsValid}
use slide_sdk.Cache.SizedLru.{
  SizedLru, put_sized, flush_sized, without_old, shrink, drop_sized, turns, add_sized,
}
use slide_sdk.Cache.SizedLru.Laws.{Sizes, ValidSized}
use slide_sdk.Cache.SizedLru.Counted.{Counted, total, put_sized_counts}
use slide_sdk.Cache.SizedLru.Implements.{sized_cacher, sized_cacher-IsCacher}

abbrev size : Unit {0} → ℕ → ℕ → ℤ
size h k v = pos 2

abbrev zero_size : Unit {0} → ℤ
zero_size h = pos 2

sizes : Sizes ℕ_discrete size zero_size
sizes = record {
  natural = λ h k v. (2, (refl, omega arith));
  zero_pos = λ h. (1, (refl, omega arith));
}

-- a full cache of one entry
abbrev cache : SizedLru ℕ ℕ
cache = record { elements = put ℕ_discrete 4 5 new; max_size = pos 3; current_size = pos 2 }

cache-ValidSized : ValidSized ℕ_discrete size zero_size cache
cache-ValidSized = record {
  valid = put-IsValid ℕ_discrete (new-IsValid ℕ_discrete) 4 5;
  in_range = (omega arith, omega arith);
  max_natural = (3, (refl, omega arith));
}

cache-Counted : Counted ℕ_discrete size zero_size tt cache
unfolding LinkedHashmap.put Map.lookup total LinkedHashmap.find_element
cache-Counted = record { counter = refl; unique = (refl, tt) }

not_cached : get ℕ_discrete 6 cache.elements ≡ none
unfolding LinkedHashmap.get LinkedHashmap.put LinkedHashmap.find_element Map.lookup Map.store
    Map.delete ℕ_discrete
not_cached = refl

put_sized_counts_example :
    (d : SizedLru ℕ ℕ) × ((put_sized ℕ_discrete size zero_size tt 6 7 cache ≡ some d)
      × Counted ℕ_discrete size zero_size tt d
      × (pos (total ℕ_discrete size zero_size tt d.elements.entry_list) ≤ℤ pos 3))
put_sized_counts_example =
    put_sized_counts ℕ_discrete size zero_size sizes tt 6 7 cache cache-ValidSized cache-Counted
      not_cached

sized_cacher-IsCacher_example : IsCacher (sized_cacher ℕ_discrete size zero_size 3)
sized_cacher-IsCacher_example =
    sized_cacher-IsCacher ℕ_discrete size zero_size 3 sizes (omega arith)

-- Two entries of the sizes 3 and 2, which fill a cache of the size 5.
abbrev own_size : Unit {0} → ℕ → ℕ → ℤ
own_size h k v = pos v

abbrev full : SizedLru ℕ ℕ
full = record {
  elements = put ℕ_discrete 5 2 (put ℕ_discrete 4 3 new);
  max_size = pos 5;
  current_size = pos 5;
}

program : Unit {0}
unfolding put_sized flush_sized without_old shrink drop_sized turns add_sized LinkedHashmap.get
    LinkedHashmap.put LinkedHashmap.delete LinkedHashmap.oldest LinkedHashmap.front
    LinkedHashmap.len LinkedHashmap.find_element LinkedHashmap.remove_element Map.lookup Map.store
    Map.delete add_int64 sub_int64 to_int64 to_uint64 ◌+ℤ◌ ◌-ℤ◌ ℕ_discrete
program = tt

-- the entry 4 grows to 5: its old size is taken off, then once more as it is the oldest, so that the
-- entries of the sizes 2 and 5 are accounted for by 4
update_oldest :
    Option.map {B = ℤ × Option ℕ × Option ℕ}
      (λ d. (d.current_size, get ℕ_discrete 4 d.elements, get ℕ_discrete 5 d.elements))
      (put_sized ℕ_discrete own_size zero_size tt 4 5 full)
    ≡ some (pos 4, some 5, some 2)
unfolding program
update_oldest = refl
