-- ===== src/Cache/SizedLru/Implements.antt =====
-- A `sizedLRU` fills the interface of caches.
use slide_sdk.Common.{
  ℕ, ◌<◌, ◌≡◌, refl, sym, ◌∙◌, inl, inr, none, some, ite, arith, Option-cases, subst,
}
use slide_sdk.Common.Int.{ℤ, pos, int64_limit}
use slide_sdk.Common.Map
use slide_sdk.Cache.Cacher.{Cacher, IsCacher}
use slide_sdk.Cache.LinkedHashmap.{new, get}
use slide_sdk.Cache.LinkedHashmap.Agree.{new-IsValid, put-IsValid, delete-IsValid}
use slide_sdk.Cache.LinkedHashmap.Lookups.{get-put, get-delete}
use slide_sdk.Cache.SizedLru.{SizedLru, flush_sized, put_sized, get_sized, evict_sized}
use slide_sdk.Cache.SizedLru.Laws.{Sizes, ValidSized, Put, put_sized_ends, sub_in}

module _ {H K V : Type 0} (dec : Discrete K) (size : H → K → V → ℤ) (zero_size : H → ℤ)
    (max_size : ℕ) where
  -- a `Put` without a result does not occur in a valid cache
  abbrev pub sized_cacher : Cacher H K V
  sized_cacher = record {
    Cache = SizedLru K V;
    empty = record { elements = new; max_size = pos max_size; current_size = pos 0 };
    get = get_sized dec size zero_size;
    put = λ h k v c. elim (put_sized dec size zero_size h k v c) [ none ↦ c | some d ↦ d ];
    evict = evict_sized dec size zero_size;
    flush = flush_sized dec size zero_size;
  }

  abbrev Valid : SizedLru K V → Type 0
  Valid = ValidSized dec size zero_size

  get_sized-fst :
      (k : K) (c : SizedLru K V) → (get_sized dec size zero_size k c).0 ≡ get dec k c.elements
  unfolding get_sized
  get_sized-fst k c = elim (Option-cases (get dec k c.elements)) [
    | inl e ↦ rw (get_sized, e) refl
    | inr (v, e) ↦ rw (get_sized, e) refl
  ]

  get_sized-Valid :
      (k : K) (c : SizedLru K V) → Valid c → Valid (get_sized dec size zero_size k c).1
  unfolding get_sized
  get_sized-Valid k c w = elim (Option-cases (get dec k c.elements)) [
    | inl e ↦ rw (get_sized, e) w
    | inr (v, e) ↦
        rw (get_sized, e)
          (record {
            valid = put-IsValid dec w.valid k v;
            in_range = w.in_range;
            max_natural = w.max_natural;
          })
  ]

  get_sized-get_sized :
      (k j : K) (c : SizedLru K V)
      → Valid c
      → get dec j (get_sized dec size zero_size k c).1.elements ≡ get dec j c.elements
  unfolding get_sized
  get_sized-get_sized k j c w = elim (Option-cases (get dec k c.elements)) [
    | inl e ↦ rw (get_sized, e) refl
    | inr (v, e) ↦
        rw (get_sized, e)
          (elim (dec k j) [
            | yes same ↦
                let own = subst (λ x. get dec x c.elements ≡ some v) same e in
                ground (arith, get-put dec c.elements k j v w.valid)
            | no ne ↦ ground (arith, get-put dec c.elements k j v w.valid)
          ])
  ]

  evict_sized-Valid :
      (h : H) (k : K) (c : SizedLru K V) → Valid c → Valid (evict_sized dec size zero_size h k c)
  unfolding evict_sized
  evict_sized-Valid h k c w = elim (Option-cases (get dec k c.elements)) [
    | inl e ↦ rw (evict_sized, e) w
    | inr (v, e) ↦
        rw (evict_sized, e)
          (record {
            valid = delete-IsValid dec w.valid k;
            in_range = sub_in c.current_size (size h k v);
            max_natural = w.max_natural;
          })
  ]

  get-evict_sized :
      (h : H) (k j : K) (c : SizedLru K V)
      → Valid c
      → get dec j (evict_sized dec size zero_size h k c).elements
        ≡ ite (dec k j) none (get dec j c.elements)
  unfolding evict_sized
  get-evict_sized h k j c w = elim (Option-cases (get dec k c.elements)) [
    | inl e ↦ rw (evict_sized, e) (ground arith)
    | inr (v, e) ↦ rw (evict_sized, e) (get-delete dec c.elements k j w.valid)
  ]

  module _ (s : Sizes dec size zero_size) (small : max_size < int64_limit) where
    put_sized-Put :
        (h : H) (k : K) (v : V) (c : SizedLru K V)
        → Valid c
        → Put dec size zero_size h k v c (sized_cacher.put h k v c)
    put_sized-Put h k v c w =
        let (d, (e, p)) = put_sized_ends dec size zero_size s h k v c w in
        subst (λ o. Put dec size zero_size h k v c (elim o [ none ↦ c | some d ↦ d ])) (sym e) p

    -- A `sizedLRU` is a cache: it never makes up an entry, and a flush or an eviction forgets it.
    pub sized_cacher-IsCacher : IsCacher sized_cacher
    unfolding flush_sized get Map.lookup
    sized_cacher-IsCacher = record {
      IsValid = Valid;
      IsValid-empty = record {
        valid = new-IsValid dec;
        in_range = (omega arith, omega arith);
        max_natural = (max_size, (refl, small));
      };
      IsValid-get = get_sized-Valid;
      IsValid-put = λ h k v c w. (put_sized-Put h k v c w).still_valid;
      IsValid-evict = evict_sized-Valid;
      IsValid-flush = λ c w. record {
        valid = new-IsValid dec;
        in_range = (omega arith, omega arith);
        max_natural = w.max_natural;
      };
      get-empty = λ k. get_sized-fst k _;
      get-get =
          λ k j c w. get_sized-fst j _ ∙ get_sized-get_sized k j c w ∙ sym (get_sized-fst j c);
      get-put_self = λ h k v c w.
          rw (get_sized-fst k (sized_cacher.put h k v c)) ((put_sized-Put h k v c w).own);
      get-put_ne = λ h k j v c w ne.
          rw (get_sized-fst j (sized_cacher.put h k v c), get_sized-fst j c)
            ((put_sized-Put h k v c w).others j ne);
      get-evict_self = λ h k c w. get_sized-fst k _ ∙ get-evict_sized h k k c w ∙ ground arith;
      get-evict_ne = λ h k j c w ne.
          get_sized-fst j _ ∙ get-evict_sized h k j c w ∙ ground arith ∙ sym (get_sized-fst j c);
      get-flush = λ k c w. get_sized-fst k _;
    }
