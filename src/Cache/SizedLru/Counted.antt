-- ===== src/Cache/SizedLru/Counted.antt =====
-- The size counter of a `sizedLRU` against the sizes of the entries that it holds.
use slide_sdk.Common.{
  subst, true, ℕ, zero, suc, ◌+◌, ◌-◌, ◌≤◌, ◌<◌, ◌≡◌, refl, sym, ap, ◌∙◌, ◌⊎◌, inl, inr, none, some,
  List, [], ◌∷◌, ◌++◌, arith, Option-cases, Bool-cases,
}
use slide_sdk.Common.Int.{
  ℤ, pos, pos_part, ltb_ℤ, ◌≤ℤ◌, sub_int64, sub_int64_pos, add_int64_pos, int64_limit,
}
use slide_sdk.Common.Map
use slide_sdk.Cache.LinkedHashmap.{
  Element, LinkedHashmap, find_element, remove_element, front, get, put, delete, oldest,
}
use slide_sdk.Cache.LinkedHashmap.Agree.{IsValid}
use slide_sdk.Cache.LinkedHashmap.Iterator.{Unique, put-Unique}
use slide_sdk.Cache.SizedLru.{
  SizedLru, drop_sized, shrink, flush_sized, without_old, turns, add_sized, put_sized,
}
use slide_sdk.Cache.SizedLru.Laws.{
  Sizes, ValidSized, drop_keeps, fits_le, turns_enough, shrink_ends, put_at,
}

module _ {H K V : Type 0} (dec : Discrete K) (size : H → K → V → ℤ) (zero_size : H → ℤ) where
  -- the sizes of all the elements
  unfoldable pub total : H → List (Element K V) → ℕ
  total h [] = 0
  total h (x ∷ xs) = pos_part (size h x.key x.value) + total h xs

  -- the counter is the sizes of the entries, and no element stands twice
  pub record Counted (h : H) (c : SizedLru K V) : Type 0 where
    pub counter : c.current_size ≡ pos (total h c.elements.entry_list)
    pub unique : Unique c.elements.entry_list

  total-append :
      (h : H) (xs : List (Element K V)) (y : Element K V)
      → total h (xs ++ y ∷ []) ≡ total h xs + pos_part (size h y.key y.value)
  unfolding total
  total-append h [] y = omega arith
  total-append h (x ∷ xs) y = let ih = total-append h xs y in omega (arith, ih)

  remove_element-absent :
      (e : ℕ) (xs : List (Element K V)) → find_element e xs ≡ none → remove_element e xs ≡ xs
  unfolding find_element remove_element
  remove_element-absent e [] f = refl
  remove_element-absent e (x ∷ xs) f = ground (arith, remove_element-absent e xs)

  -- where the key of the first element points to it, its deletion leaves the others
  delete-front :
      (m : LinkedHashmap K V) (x : Element K V) (xs : List (Element K V))
      → IsValid dec m
      → m.entry_list ≡ x ∷ xs
      → find_element x.id xs ≡ none
      → (delete dec x.key m).1.entry_list ≡ xs
  unfolding delete find_element remove_element
  delete-front m x xs w e fresh =
      let at : find_element x.id m.entry_list ≡ some x = rw e (ground arith) in
      let points = w.listed x.id x at in
      rw (delete, points, e) (ground (arith, remove_element-absent x.id xs fresh))

  List-cases :
      (xs : List (Element K V))
      → (xs ≡ []) ⊎ ((x : Element K V) × (rest : List (Element K V)) × (xs ≡ x ∷ rest))
  List-cases [] = inl refl
  List-cases (x ∷ xs) = inr (x, xs, refl)

  not_below : (h : H) (room : ℕ) → ltb_ℤ (pos room) (pos (total h [])) ≡ true → ⊥
  unfolding total
  not_below h room e = ground arith

  module _ (s : Sizes dec size zero_size) (h : H) where
    -- a turn of the loop, on a cache that is not empty, takes the oldest entry and its size off
    drop_sized-Counted :
        (c : SizedLru K V) (x : Element K V) (xs : List (Element K V))
        → IsValid dec c.elements
        → Counted h c
        → total h c.elements.entry_list < int64_limit
        → c.elements.entry_list ≡ x ∷ xs
        → Counted h (drop_sized dec size zero_size h c)
          × (total h (drop_sized dec size zero_size h c).elements.entry_list < int64_limit)
          × IsValid dec (drop_sized dec size zero_size h c).elements
    unfolding drop_sized oldest front total
    drop_sized-Counted c x xs w k l e =
        let (n, (size_is, small)) = s.natural h x.key x.value in
        let (fresh, rest) = subst Unique e k.unique in
        let sum : total h c.elements.entry_list ≡ n + total h xs = rw (e, size_is) refl in
        let shown : oldest c.elements ≡ some (x.key, x.value) = rw e refl in
        let at : drop_sized dec size zero_size h c ≡ record c {
          elements = (delete dec x.key c.elements).1;
          current_size = sub_int64 c.current_size (size h x.key x.value);
        } =
          rw (drop_sized, shown) refl in
        let list : (drop_sized dec size zero_size h c).elements.entry_list ≡ xs =
          ap (λ d. d.elements.entry_list) at ∙ delete-front c.elements x xs w e fresh in
        let less = sub_int64_pos (n + total h xs) n (omega (arith, sum)) (omega arith) in
        let same : n + total h xs - n ≡ total h xs = omega arith in
        let counts : sub_int64 c.current_size (size h x.key x.value) ≡ pos (total h xs) =
          rw (k.counter, sum, size_is, less, same) refl in
        (
          record {
            counter = ap (λ d. d.current_size) at ∙ counts ∙ ap (λ ys. pos (total h ys)) (sym list);
            unique = subst Unique (sym list) rest;
          },
          rw list (omega (arith, sum)),
          (drop_keeps dec size zero_size s h c w).0,
        )

    shrink-Counted :
        (fuel room : ℕ) (c d : SizedLru K V)
        → IsValid dec c.elements
        → Counted h c
        → total h c.elements.entry_list < int64_limit
        → shrink dec size zero_size fuel h (pos room) c ≡ some d
        → Counted h d × (total h d.elements.entry_list ≤ room)
    unfolding shrink
    shrink-Counted zero room c d w k l e = absurd cc
    shrink-Counted (suc fuel) room c d w k l e =
        elim (Bool-cases (ltb_ℤ (pos room) c.current_size)) [
          | inl more ↦ elim (List-cases c.elements.entry_list) [
            | inl empty ↦ absurd (
                not_below h room (
                  subst (λ xs. ltb_ℤ (pos room) (pos (total h xs)) ≡ true) empty
                    (subst (λ z. ltb_ℤ (pos room) z ≡ true) k.counter more)))
            | inr (x, xs, shape) ↦
                let (k', l', w') = drop_sized-Counted c x xs w k l shape in
                shrink-Counted fuel room (drop_sized dec size zero_size h c) d w' k' l'
                  (rw (sym e) (rw more refl))
          ]
          | inr enough ↦
              let stops : shrink dec size zero_size (suc fuel) h (pos room) c ≡ some c =
                rw enough refl in
              let same : c ≡ d = cc in
              let counter = k.counter in
              subst (λ x. Counted h x × (total h x.elements.entry_list ≤ room)) same
                (k, ground arith)
        ]

    lookup-absent :
        (k : K) (m : LinkedHashmap K V)
        → IsValid dec m
        → get dec k m ≡ none
        → Map.lookup dec k m.entry_map ≡ none
    unfolding get
    lookup-absent k m w e = elim (Option-cases (Map.lookup dec k m.entry_map)) [
      | inl absent ↦ absent
      | inr (i, there) ↦
          let (v, found) = w.points k i there in
          let shown : get dec k m ≡ some v = rw (get, there, found) refl in absurd cc
    ]

    -- an entry of a new key is counted
    add_sized-Counted :
        (k : K) (v : V) (c : SizedLru K V) (n room : ℕ)
        → IsValid dec c.elements
        → get dec k c.elements ≡ none
        → Counted h c
        → size h k v ≡ pos n
        → total h c.elements.entry_list ≤ room
        → room + n < int64_limit
        → Counted h (add_sized dec size zero_size h k v c)
          × (total h (add_sized dec size zero_size h k v c).elements.entry_list ≤ room + n)
    unfolding add_sized put
    add_sized-Counted k v c n room w new_key counted size_is low high =
        let x : Element K V = record { id = c.elements.next_id; key = k; value = v } in
        let absent = lookup-absent k c.elements w new_key in
        let list : (put dec k v c.elements).entry_list ≡ c.elements.entry_list ++ x ∷ [] =
          rw (put, absent) refl in
        let sum : total h (put dec k v c.elements).entry_list ≡ total h c.elements.entry_list + n =
          ap (total h) list
          ∙ total-append h c.elements.entry_list x
          ∙ ap (λ z. total h c.elements.entry_list + pos_part z) size_is in
        let more = add_int64_pos (total h c.elements.entry_list) n (omega arith) in
        (
          record {
            counter = rw (counted.counter, size_is) more ∙ ap pos (sym sum);
            unique = put-Unique dec w k v counted.unique;
          },
          omega (arith, sum),
        )

    flush_sized-Counted :
        (c : SizedLru K V)
        → Counted h (flush_sized dec size zero_size c)
          × (total h (flush_sized dec size zero_size c).elements.entry_list ≡ 0)
    unfolding flush_sized total
    flush_sized-Counted c = (record { counter = refl; unique = tt }, refl)

    within : (a n m : ℕ) → a ≤ m - n + n → n ≤ m → pos a ≤ℤ pos m
    within a n m most le = omega arith

    -- `Put` of a key that is not cached, in a cache whose elements agree with its map, whose numbers are
    -- those of an `int`, its maximal size not negative, and whose size counter is the sum of the sizes of
    -- its entries, ends, and leaves a cache whose counter is the sum of the sizes of its entries and whose
    -- entries are not larger together than the maximal size. No size is negative or beyond an `int`, and
    -- that of the zero values is positive.
    pub put_sized_counts :
        (k : K) (v : V) (c : SizedLru K V)
        → ValidSized dec size zero_size c
        → Counted h c
        → get dec k c.elements ≡ none
        → (d : SizedLru K V) × ((put_sized dec size zero_size h k v c ≡ some d)
            × Counted h d
            × (pos (total h d.elements.entry_list) ≤ℤ c.max_size))
    unfolding put_sized without_old
    put_sized_counts k v c w counted new_key =
        let (m, (max_is, small_max)) = w.max_natural in
        elim (Bool-cases (ltb_ℤ c.max_size (size h k v))) [
          | inl large ↦
              let (flushed, empty) = flush_sized-Counted c in
              (
                flush_sized dec size zero_size c,
                (rw large refl, flushed, rw (empty, max_is) (omega arith)),
              )
          | inr fits ↦
              let (n, (size_is, small)) = s.natural h k v in
              let le = fits_le dec size zero_size c.max_size (size h k v) m n max_is size_is fits in
              let room : sub_int64 c.max_size (size h k v) ≡ pos (m - n) =
                rw (max_is, size_is) (sub_int64_pos m n small_max le) in
              let same : without_old dec size zero_size h k c ≡ c =
                rw (without_old, new_key) refl in
              let bound : total h c.elements.entry_list < int64_limit =
                subst (λ z. pos_part z < int64_limit) counted.counter w.in_range.0 in
              let (e, (ends, t)) =
                shrink_ends dec size zero_size s h (turns dec size zero_size c) (m - n) c w.valid
                  w.in_range (turns_enough dec size zero_size c) in
              let (counted', low) =
                shrink-Counted (turns dec size zero_size c) (m - n) c e w.valid counted bound
                  ends in
              let still_new : get dec k e.elements ≡ none = elim (t.forgets k) [
                | inl gone ↦ gone
                | inr kept ↦ kept ∙ new_key
              ] in
              let (counts, most) =
                add_sized-Counted k v e n (m - n) t.valid still_new counted' size_is low
                  (omega arith) in
              (
                add_sized dec size zero_size h k v e,
                (
                  put_at dec size zero_size h k v c e fits room (rw (same, ends) refl),
                  counts,
                  subst
                      (λ z.
                        pos (total h (add_sized dec size zero_size h k v e).elements.entry_list)
                        ≤ℤ z)
                      (sym max_is)
                      (within (total h (add_sized dec size zero_size h k v e).elements.entry_list) n
                        m most le),
                ),
              )
        ]
