-- ===== src/Cache/Lru/Implements.antt =====
-- An `LRU` fills the interface of caches.
use slide_sdk.Common.{
  ◌≤◌, ◌≡◌, ◌≢◌, refl, sym, ap, ◌∙◌, ◌⊎◌, inl, inr, none, some, ite, ◌==◌, arith, Option-cases,
  Bool-cases, subst,
}
use slide_sdk.Common.Int.{ℤ, pos}
use slide_sdk.Common.Map
use slide_sdk.Cache.Cacher.{Cacher, IsCacher}
use slide_sdk.Cache.LinkedHashmap.{LinkedHashmap, put, get, delete, len}
use slide_sdk.Cache.LinkedHashmap.Agree.{IsValid, new-IsValid, put-IsValid, delete-IsValid}
use slide_sdk.Cache.LinkedHashmap.Lookups.{get-put, get-delete}
use slide_sdk.Cache.Lru.{
  Lru, elements_of, capacity, sized, drop_oldest, trim, resize, put_lru, get_lru, evict_lru,
  flush_lru,
}
use slide_sdk.Cache.Lru.Bounded.{
  drop_oldest-IsValid, trim-IsValid, len-trim, trim-fits, put_lru-bounded, length-delete,
}
use slide_sdk.Cache.Forgets.{drop_oldest-Forgets}

module _ {H K V : Type 0} (dec : Discrete K) (size : ℤ) where
  abbrev pub lru_cacher : Cacher H K V
  lru_cacher = record {
    Cache = Lru K V;
    empty = record { elements = none; size = size };
    get = get_lru dec;
    put = λ h k v c. put_lru dec k v c;
    evict = λ h k c. evict_lru dec k c;
    flush = flush_lru;
  }

capacity_again : (size : ℤ) → capacity (pos (capacity size)) ≡ capacity size
capacity_again size = ground arith

module _ {K V : Type 0} (dec : Discrete K) where
  abbrev Valid : Lru K V → Type 0
  Valid c = IsValid dec (elements_of c.elements)

  -- a cache within its capacity is left alone by `resize`
  resize_fits :
      (m : LinkedHashmap K V) (size : ℤ)
      → len m ≤ capacity size
      → resize dec (sized m (capacity size)) ≡ m
  unfolding resize
  resize_fits m size h =
      trim-fits dec (len m) (capacity (pos (capacity size))) m (rw (capacity_again size) h)

  resize-Valid : (c : Lru K V) → Valid c → IsValid dec (resize dec c)
  unfolding resize
  resize-Valid c w =
      trim-IsValid dec (len (elements_of c.elements)) (capacity c.size) (elements_of c.elements) w

  len-resize : (c : Lru K V) → Valid c → len (resize dec c) ≤ capacity c.size
  unfolding resize
  len-resize c w =
      len-trim dec (len (elements_of c.elements)) (capacity c.size) (elements_of c.elements) w
        (omega arith)

  get_lru-fst : (k : K) (c : Lru K V) → (get_lru dec k c).0 ≡ get dec k (resize dec c)
  unfolding get_lru
  get_lru-fst k c = elim (Option-cases (get dec k (resize dec c))) [
    | inl e ↦ rw (get_lru, e) refl
    | inr (v, e) ↦ rw (get_lru, e) refl
  ]

  len-put_known :
      (k : K) (v u : V) (m : LinkedHashmap K V) → get dec k m ≡ some u → len (put dec k v m) ≡ len m
  unfolding get put len
  len-put_known k v u m e = elim (Option-cases (Map.lookup dec k m.entry_map)) [
    | inl gone ↦ ground arith
    | inr (i, found) ↦ rw (put, found) refl
  ]

  get_lru-Valid : (k : K) (c : Lru K V) → Valid c → Valid (get_lru dec k c).1
  unfolding get_lru
  get_lru-Valid k c w = elim (Option-cases (get dec k (resize dec c))) [
    | inl e ↦ rw (get_lru, e) (resize-Valid c w)
    | inr (v, e) ↦ rw (get_lru, e) (put-IsValid dec (resize-Valid c w) k v)
  ]

  -- a `Get` keeps all values
  get_lru-get_lru :
      (k j : K) (c : Lru K V)
      → Valid c
      → get dec j (resize dec (get_lru dec k c).1) ≡ get dec j (resize dec c)
  unfolding get_lru
  get_lru-get_lru k j c w =
      let m = resize dec c in
      let small = len-resize c w in
      elim (Option-cases (get dec k (resize dec c))) [
        | inl e ↦ rw (get_lru, e, resize_fits m c.size small) refl
        | inr (v, e) ↦
            let same_len = len-put_known k v v m e in
            rw (get_lru, e, resize_fits (put dec k v m) c.size (omega (arith, same_len)))
              (elim (dec k j) [
                | yes same ↦
                    let own = subst (λ x. get dec x m ≡ some v) same e in
                    ground (arith, get-put dec m k j v (resize-Valid c w))
                | no ne ↦ ground (arith, get-put dec m k j v (resize-Valid c w))
              ])
      ]

  put_lru-size : (k : K) (v : V) (c : Lru K V) → (put_lru dec k v c).size ≡ pos (capacity c.size)
  unfolding put_lru
  put_lru-size k v c = refl

  -- a put keeps or forgets the values of the other keys
  put_lru-others :
      (k j : K) (v : V) (c : Lru K V)
      → Valid c
      → k ≢ j
      → (get dec j (elements_of (put_lru dec k v c).elements) ≡ none)
        ⊎ (get dec j (elements_of (put_lru dec k v c).elements) ≡ get dec j (resize dec c))
  unfolding put_lru
  put_lru-others k j v c w ne =
      let m = resize dec c in
      let mw = resize-Valid c w in
      elim (Bool-cases (len (resize dec c) == capacity c.size)) [
        | inl full ↦
            let kept = drop_oldest-Forgets dec m mw j in
            ground (arith, get-put dec (drop_oldest dec m) k j v (drop_oldest-IsValid dec m mw))
        | inr free ↦ inr (ground (arith, get-put dec m k j v mw))
      ]

  resize-put_lru :
      (k : K) (v : V) (c : Lru K V)
      → Valid c
      → resize dec (put_lru dec k v c) ≡ elements_of (put_lru dec k v c).elements
  unfolding put_lru
  resize-put_lru k v c w =
      let (_, small, _) = put_lru-bounded dec k v c w in
      resize_fits (elements_of (put_lru dec k v c).elements) c.size small

  len-delete : (k : K) (m : LinkedHashmap K V) → len (delete dec k m).1 ≤ len m
  unfolding len delete
  len-delete k m = ground (arith, length-delete dec k m.entry_map)

  get-evict_lru :
      (k j : K) (c : Lru K V)
      → Valid c
      → get dec j (resize dec (evict_lru dec k c)) ≡ ite (dec k j) none (get dec j (resize dec c))
  unfolding evict_lru
  get-evict_lru k j c w =
      let small = len-resize c w in
      let fewer = len-delete k (resize dec c) in
      rw (resize_fits (delete dec k (resize dec c)).1 c.size (omega (arith, fewer)))
        (get-delete dec (resize dec c) k j (resize-Valid c w))

module _ {H K V : Type 0} (dec : Discrete K) (size : ℤ) where
  -- An `LRU` is a cache: it never makes up an entry, and a flush or an eviction forgets it.
  pub lru_cacher-IsCacher : IsCacher (lru_cacher {H = H} {K = K} {V = V} dec size)
  unfolding get Map.lookup resize trim evict_lru len
  lru_cacher-IsCacher = record {
    IsValid = Valid dec;
    IsValid-empty = new-IsValid dec;
    IsValid-get = get_lru-Valid dec;
    IsValid-put = λ h k v c w. let (ok, _, _) = put_lru-bounded dec k v c w in ok;
    IsValid-evict = λ h k c w. delete-IsValid dec (resize-Valid dec c w) k;
    IsValid-flush = λ c w. new-IsValid dec;
    get-empty = λ k. get_lru-fst dec k _;
    get-get =
        λ k j c w. get_lru-fst dec j _ ∙ get_lru-get_lru dec k j c w ∙ sym (get_lru-fst dec j c);
    get-put_self = λ h k v c w.
        let (_, _, own) = put_lru-bounded dec k v c w in
        inr (get_lru-fst dec k _ ∙ ap (get dec k) (resize-put_lru dec k v c w) ∙ own);
    get-put_ne = λ h k j v c w ne.
        let at =
          get_lru-fst dec j (put_lru dec k v c) ∙ ap (get dec j) (resize-put_lru dec k v c w) in
        elim (put_lru-others dec k j v c w ne) [
          | inl gone ↦ inl (at ∙ gone)
          | inr same ↦ inr (at ∙ same ∙ sym (get_lru-fst dec j c))
        ];
    get-evict_self = λ h k c w. get_lru-fst dec k _ ∙ get-evict_lru dec k k c w ∙ ground arith;
    get-evict_ne = λ h k j c w ne.
        get_lru-fst dec j _ ∙ get-evict_lru dec k j c w ∙ ground arith ∙ sym (get_lru-fst dec j c);
    get-flush = λ k c w. get_lru-fst dec k _;
  }
