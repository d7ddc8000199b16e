-- ===== src/Cache/SizedLru/Laws.antt =====
-- A `sizedLRU`: its loop ends, its size counter stays in the bound, and it fills the interface of caches.
use slide_sdk.Common.{
  subst, true, false, ℕ, zero, suc, ◌+◌, ◌-◌, ◌≤◌, ◌<◌, ◌≡◌, ◌≢◌, refl, sym, ap, ◌∙◌, ◌⊎◌, inl, inr,
  none, some, arith, Option-cases, Bool-cases,
}
use slide_sdk.Common.Int.{
  ℤ, pos, negsuc, pos_part, ltb_ℤ, ◌≤ℤ◌, add_int64, sub_int64, sub_int64_pos, to_int64, to_uint64,
  ◌+ℤ◌, ◌-ℤ◌, int64_limit, InInt64,
}
use slide_sdk.Common.Map
use slide_sdk.Cache.LinkedHashmap.{get, len, oldest}
use slide_sdk.Cache.LinkedHashmap.Agree.{IsValid, new-IsValid, put-IsValid}
use slide_sdk.Cache.LinkedHashmap.Lookups.{get-put}
use slide_sdk.Cache.Lru.{drop_oldest}
use slide_sdk.Cache.Lru.Bounded.{drop_oldest-IsValid, len-drop_oldest}
use slide_sdk.Cache.Forgets.{
  Forgets, Forgets-nothing, Forgets-trans, drop_oldest-Forgets, oldest-len,
}
use slide_sdk.Cache.SizedLru.{
  SizedLru, drop_sized, shrink, flush_sized, without_old, turns, add_sized, put_sized,
}

-- a natural number less another, or less than nothing
sub_pos :
    (c n : ℕ) → c < int64_limit → n < int64_limit → pos_part (sub_int64 (pos c) (pos n)) ≡ c - n
unfolding sub_int64 to_int64 to_uint64 ◌-ℤ◌
sub_pos c n h l = ground arith

-- a number above a natural one is positive
above :
    (room : ℕ) (c : ℤ)
    → ltb_ℤ (pos room) c ≡ true
    → InInt64 c
    → (n : ℕ) × ((c ≡ pos (suc n)) × (suc n < int64_limit))
above room (pos zero) h l = absurd (ground arith)
above room (pos (suc n)) h l = (n, (refl, l.0))
above room (negsuc n) h l = absurd (ground arith)

pub sub_in : (a b : ℤ) → InInt64 (sub_int64 a b)
unfolding sub_int64 to_int64
sub_in a b = (ground arith, ground arith)

add_in : (a b : ℤ) → InInt64 (add_int64 a b)
unfolding add_int64 to_int64
add_in a b = (ground arith, ground arith)

add_fits :
    (c : ℤ) (n m : ℕ)
    → InInt64 c
    → n ≤ m
    → m < int64_limit
    → c ≤ℤ pos (m - n)
    → add_int64 c (pos n) ≤ℤ pos m
unfolding add_int64 to_int64 to_uint64 ◌+ℤ◌
add_fits (pos c) n m (a, b) p l h = ground arith
add_fits (negsuc c) n m (a, b) p l h = ground arith

module _ {H K V : Type 0} (dec : Discrete K) (size : H → K → V → ℤ) (zero_size : H → ℤ) where
  drop_sized-elements :
      (h : H) (c : SizedLru K V)
      → (drop_sized dec size zero_size h c).elements ≡ drop_oldest dec c.elements
  unfolding drop_sized drop_oldest
  drop_sized-elements h c = elim (Option-cases (oldest c.elements)) [
    | inl e ↦ rw (drop_sized, drop_oldest, e) refl
    | inr (p, e) ↦ rw (drop_sized, drop_oldest, e) refl
  ]

  -- no size is negative or beyond an `int`, and that of the zero values is positive
  pub record Sizes : Type 0 where
    pub natural : (h : H) (k : K) (v : V) → (n : ℕ) × ((size h k v ≡ pos n) × (n < int64_limit))
    pub zero_pos : (h : H) → (n : ℕ) × ((zero_size h ≡ pos (suc n)) × (suc n < int64_limit))

  pub turns_enough :
      (d : SizedLru K V) → len d.elements + pos_part d.current_size < turns dec size zero_size d
  unfolding turns
  turns_enough d = omega arith

  pub fits_le : (a b : ℤ) (m n : ℕ) → a ≡ pos m → b ≡ pos n → ltb_ℤ a b ≡ false → n ≤ m
  fits_le a b m n p q h = ground arith

  -- what the loop leaves of a cache
  pub record Shrunk (c d : SizedLru K V) (room : ℤ) : Type 0 where
    pub forgets : Forgets dec c.elements d.elements
    pub valid : IsValid dec d.elements
    pub fits : d.current_size ≤ℤ room
    pub same_max : d.max_size ≡ c.max_size
    pub in_range : InInt64 d.current_size

  module _ (s : Sizes) (h : H) where
    drop_smaller :
        (c : SizedLru K V) (n : ℕ)
        → IsValid dec c.elements
        → c.current_size ≡ pos (suc n)
        → suc n < int64_limit
        → len (drop_sized dec size zero_size h c).elements
            + pos_part (drop_sized dec size zero_size h c).current_size
          < len c.elements + suc n
    unfolding drop_sized
    drop_smaller c n w e l = elim (Option-cases (oldest c.elements)) [
      | inl none_left ↦
          let (z, (zero_is, small)) = s.zero_pos h in
          let less = sub_pos (suc n) (suc z) l small in
          rw (drop_sized, none_left, e, zero_is, less) (omega arith)
      | inr (p, found) ↦
          let (k, (size_is, small)) = s.natural h p.0 p.1 in
          let less = sub_pos (suc n) k l small in
          let fewer : len (drop_sized dec size zero_size h c).elements < len c.elements =
            subst (λ m. len m < len c.elements) (sym (drop_sized-elements h c))
              (len-drop_oldest dec c.elements w (oldest-len dec c.elements w found)) in
          let at : pos_part (drop_sized dec size zero_size h c).current_size ≡ suc n - k =
            rw (drop_sized, found, e, size_is) less in
          omega arith
    ]

    pub drop_keeps :
        (c : SizedLru K V)
        → IsValid dec c.elements
        → IsValid dec (drop_sized dec size zero_size h c).elements
          × InInt64 (drop_sized dec size zero_size h c).current_size
          × ((drop_sized dec size zero_size h c).max_size ≡ c.max_size)
          × Forgets dec c.elements (drop_sized dec size zero_size h c).elements
    unfolding drop_sized
    drop_keeps c w =
        let e = drop_sized-elements h c in
        (
          subst (IsValid dec) (sym e) (drop_oldest-IsValid dec c.elements w),
          elim (Option-cases (oldest c.elements)) [
            | inl none_left ↦ rw (drop_sized, none_left) (sub_in c.current_size (zero_size h))
            | inr (p, found) ↦ rw (drop_sized, found) (sub_in c.current_size (size h p.0 p.1))
          ],
          ground arith,
          subst (Forgets dec c.elements) (sym e) (drop_oldest-Forgets dec c.elements w),
        )

    pub shrink_ends :
        (fuel room : ℕ) (c : SizedLru K V)
        → IsValid dec c.elements
        → InInt64 c.current_size
        → len c.elements + pos_part c.current_size < fuel
        → (d : SizedLru K V) × ((shrink dec size zero_size fuel h (pos room) c ≡ some d)
            × Shrunk c d (pos room))
    unfolding shrink
    shrink_ends zero room c w l f = absurd (omega arith)
    shrink_ends (suc fuel) room c w l f = elim (Bool-cases (ltb_ℤ (pos room) c.current_size)) [
      | inl more ↦
          let (n, (at, small)) = above room c.current_size more l in
          let (w', l', m', g) = drop_keeps c w in
          let less = drop_smaller c n w at small in
          let here = ap pos_part at in
          let (d, (e, t)) =
            shrink_ends fuel room (drop_sized dec size zero_size h c) w' l'
              (omega (arith, less, here)) in
          (
            d,
            (
              rw (more, e) refl,
              record {
                forgets =
                    Forgets-trans dec c.elements (drop_sized dec size zero_size h c).elements
                      d.elements g t.forgets;
                valid = t.valid;
                fits = t.fits;
                same_max = t.same_max ∙ m';
                in_range = t.in_range;
              },
            ),
          )
      | inr enough ↦ (
        c,
        (
          rw enough refl,
          record {
            forgets = Forgets-nothing dec c.elements;
            valid = w;
            fits = ground arith;
            same_max = refl;
            in_range = l;
          },
        ),
      )
    ]

  -- the elements agree with their map, and the numbers are in the range of an `int`
  pub record ValidSized (c : SizedLru K V) : Type 0 where
    pub valid : IsValid dec c.elements
    pub in_range : InInt64 c.current_size
    pub max_natural : (n : ℕ) × ((c.max_size ≡ pos n) × (n < int64_limit))

  -- what `Put` promises of the cache that it leaves
  pub record Put (h : H) (k : K) (v : V) (c d : SizedLru K V) : Type 0 where
    pub still_valid : ValidSized d
    pub own : (get dec k d.elements ≡ none) ⊎ (get dec k d.elements ≡ some v)
    pub others :
        (j : K)
        → k ≢ j
        → (get dec j d.elements ≡ none) ⊎ (get dec j d.elements ≡ get dec j c.elements)
    pub fits : d.current_size ≤ℤ d.max_size

  flush-Put :
      (h : H) (k : K) (v : V) (c : SizedLru K V)
      → ValidSized c
      → Put h k v c (flush_sized dec size zero_size c)
  unfolding flush_sized get Map.lookup
  flush-Put h k v c w =
      let (n, (max_is, small)) = w.max_natural in
      record {
        still_valid = record {
          valid = new-IsValid dec;
          in_range = (omega arith, omega arith);
          max_natural = w.max_natural;
        };
        own = inl refl;
        others = λ j ne. inl refl;
        fits = rw max_is (omega arith);
      }

  without_old_keeps :
      (h : H) (k : K) (c : SizedLru K V)
      → InInt64 c.current_size
      → ((without_old dec size zero_size h k c).elements ≡ c.elements)
        × ((without_old dec size zero_size h k c).max_size ≡ c.max_size)
        × InInt64 (without_old dec size zero_size h k c).current_size
  unfolding without_old
  without_old_keeps h k c r = elim (Option-cases (get dec k c.elements)) [
    | inl e ↦ rw (without_old, e) (refl, refl, r)
    | inr (v, e) ↦ rw (without_old, e) (refl, refl, sub_in c.current_size (size h k v))
  ]

  pub put_at :
      (h : H) (k : K) (v : V) (c e : SizedLru K V) {room : ℤ}
      → ltb_ℤ c.max_size (size h k v) ≡ false
      → sub_int64 c.max_size (size h k v) ≡ room
      → shrink dec size zero_size
          (turns dec size zero_size (without_old dec size zero_size h k c))
          h
          room
          (without_old dec size zero_size h k c)
        ≡ some e
      → put_sized dec size zero_size h k v c ≡ some (add_sized dec size zero_size h k v e)
  unfolding put_sized
  put_at h k v c e f r t = rw (put_sized, f, r, t) refl

  add_Put :
      (h : H) (k : K) (v : V) (c d e : SizedLru K V) (m n : ℕ)
      → c.max_size ≡ pos m
      → size h k v ≡ pos n
      → n ≤ m
      → m < int64_limit
      → d.elements ≡ c.elements
      → d.max_size ≡ c.max_size
      → Shrunk d e (pos (m - n))
      → Put h k v c (add_sized dec size zero_size h k v e)
  unfolding add_sized
  add_Put h k v c d e m n max_is size_is le small same same_max t = record {
    still_valid = record {
      valid = put-IsValid dec t.valid k v;
      in_range = add_in e.current_size (size h k v);
      max_natural = (m, (t.same_max ∙ same_max ∙ max_is, small));
    };
    own = inr (ground (arith, get-put dec e.elements k k v t.valid));
    others = λ j ne.
        let kept = t.forgets j in ground (arith, get-put dec e.elements k j v t.valid, same);
    fits =
        rw (t.same_max ∙ same_max ∙ max_is, size_is)
          (add_fits e.current_size n m t.in_range le small t.fits);
  }

  module _ (s : Sizes) where
    -- `Put` ends in every valid cache, with its size counter in the bound: its loop drops entries until the new one
    -- fits. A later `Get` finds the new value or nothing, and of another key what it found before or nothing.
    pub put_sized_ends :
        (h : H) (k : K) (v : V) (c : SizedLru K V)
        → ValidSized c
        → (d : SizedLru K V) × ((put_sized dec size zero_size h k v c ≡ some d) × Put h k v c d)
    unfolding put_sized
    put_sized_ends h k v c w = elim (Bool-cases (ltb_ℤ c.max_size (size h k v))) [
      | inl large ↦ (flush_sized dec size zero_size c, (rw large refl, flush-Put h k v c w))
      | inr fits ↦
          let (m, (max_is, small_max)) = w.max_natural in
          let (n, (size_is, small)) = s.natural h k v in
          let le = fits_le c.max_size (size h k v) m n max_is size_is fits in
          let (same, same_max, r) = without_old_keeps h k c w.in_range in
          let room : sub_int64 c.max_size (size h k v) ≡ pos (m - n) =
            rw (max_is, size_is) (sub_int64_pos m n small_max le) in
          let d = without_old dec size zero_size h k c in
          let (e, (ends, t)) =
            shrink_ends s h (turns dec size zero_size d) (m - n) d
              (subst (IsValid dec) (sym same) w.valid) r (turns_enough d) in
          (
            add_sized dec size zero_size h k v e,
            (
              put_at h k v c e fits room ends,
              add_Put h k v c d e m n max_is size_is le small_max same same_max t,
            ),
          )
    ]
