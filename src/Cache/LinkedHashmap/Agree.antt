-- ===== src/Cache/LinkedHashmap/Agree.antt =====
-- The map and the list of a `linkedHashmap` agree: every operation keeps that each key points to the
-- element that holds it.
use slide_sdk.Common.{
  ℕ, ◌+◌, ◌<◌, ◌≡◌, ◌≢◌, refl, none, some, List, [], ◌∷◌, ◌++◌, ◌==◌, if◌then◌else◌, arith,
  Option-cases, inl, inr,
}
use native.Mathlib.Decide.{ℕ_discrete}
use slide_sdk.Common.Map
use slide_sdk.Cache.LinkedHashmap.{
  Element, LinkedHashmap, find_element, remove_element, new, put, delete,
}

module _ {K V : Type 0} where
  pub find_element-remove_element :
      (e j : ℕ) (xs : List (Element K V))
      → find_element j (remove_element e xs) ≡ (if e == j then none else find_element j xs)
  unfolding find_element remove_element
  find_element-remove_element e j [] = ground arith
  find_element-remove_element e j (x ∷ xs) = ground (arith, find_element-remove_element e j xs)

  pub find_element-append :
      (j : ℕ) (xs : List (Element K V)) (y : Element K V)
      → find_element j (xs ++ y ∷ [])
        ≡ elim (find_element j xs) [ some x ↦ some x | none ↦ if y.id == j then some y else none ]
  unfolding find_element
  find_element-append j [] y = refl
  find_element-append j (x ∷ xs) y = ground (arith, find_element-append j xs y)

  -- an element that is moved to the back with a new value
  pub find_element-move :
      (j : ℕ) (y : Element K V) (xs : List (Element K V))
      → find_element j (remove_element y.id xs ++ y ∷ [])
        ≡ (if y.id == j then some y else find_element j xs)
  find_element-move j y xs = ground (
    arith,
    find_element-append j (remove_element y.id xs) y,
    find_element-remove_element y.id j xs,
  )

  module _ (dec : Discrete K) where
    pub record IsValid (m : LinkedHashmap K V) : Type 0 where
      pub points :
          (k : K) (e : ℕ)
          → Map.lookup dec k m.entry_map ≡ some e
          → (v : V) × (find_element e m.entry_list ≡ some (record { id = e; key = k; value = v }))
      pub listed :
          (e : ℕ) (x : Element K V)
          → find_element e m.entry_list ≡ some x
          → Map.lookup dec x.key m.entry_map ≡ some e
      pub below : (e : ℕ) (x : Element K V) → find_element e m.entry_list ≡ some x → e < m.next_id

    pub new-IsValid : IsValid new
    unfolding Map.lookup find_element
    new-IsValid = record {
      points = λ k e h. absurd (cc h);
      listed = λ e x h. absurd (cc h);
      below = λ e x h. absurd (cc h);
    }

    module _ {m : LinkedHashmap K V} (w : IsValid m) (k : K) where
      -- two keys do not point to one element
      pub points_apart :
          (j : K) (e i : ℕ)
          → k ≢ j
          → Map.lookup dec k m.entry_map ≡ some e
          → Map.lookup dec j m.entry_map ≡ some i
          → e ≢ i
      points_apart j e i ne p q same =
          let (v, a) = w.points k e p in let (u, b) = w.points j i q in ne cc

      put_known :
          (v : V) (e : ℕ)
          → Map.lookup dec k m.entry_map ≡ some e
          → IsValid (record m {
            entry_list =
                remove_element e m.entry_list ++ record { id = e; key = k; value = v } ∷ [];
          })
      put_known v e p = record {
        points = λ j i q. elim (dec k j) [
          | yes same ↦ (v, ground (arith, find_element-move i y m.entry_list))
          | no ne ↦
              let apart = points_apart j e i ne p q in
              let (u, a) = w.points j i q in (u, ground (arith, find_element-move i y m.entry_list))
        ];
        listed = λ i x q. elim (ℕ_discrete e i) [
          | yes same ↦ ground (arith, find_element-move i y m.entry_list)
          | no ne ↦ w.listed i x (ground (arith, find_element-move i y m.entry_list))
        ];
        below = λ i x q. elim (ℕ_discrete e i) [
          | yes same ↦ let (u, a) = w.points k e p in let b = w.below e _ a in omega arith
          | no ne ↦ w.below i x (ground (arith, find_element-move i y m.entry_list))
        ];
      }
        where
          y : Element K V
          y = record { id = e; key = k; value = v }

      pub next_id_free : find_element m.next_id m.entry_list ≡ none
      next_id_free = elim (Option-cases (find_element m.next_id m.entry_list)) [
        | inl a ↦ a
        | inr (x, a) ↦ let b = w.below m.next_id x a in absurd (omega arith)
      ]

      put_new :
          (v : V)
          → Map.lookup dec k m.entry_map ≡ none
          → IsValid (record {
            entry_map = Map.store dec k m.next_id m.entry_map;
            entry_list = m.entry_list ++ record { id = m.next_id; key = k; value = v } ∷ [];
            next_id = m.next_id + 1;
          })
      put_new v p = record {
        points = λ j i q. elim (dec k j) [
          | yes same ↦
              let at : i ≡ m.next_id =
                ground (arith, Map.lookup-store dec k j m.next_id m.entry_map) in
              let free = next_id_free in (v, ground (arith, find_element-append i m.entry_list y))
          | no ne ↦
              let (u, a) =
                w.points j i (ground (arith, Map.lookup-store dec k j m.next_id m.entry_map)) in
              (u, ground (arith, find_element-append i m.entry_list y))
        ];
        listed = λ i x q. elim (Option-cases (find_element i m.entry_list)) [
          | inl a ↦ ground (
            arith,
            find_element-append i m.entry_list y,
            Map.lookup-store dec k x.key m.next_id m.entry_map,
          )
          | inr (z, a) ↦
              let b = w.listed i z a in
              ground (
                arith,
                find_element-append i m.entry_list y,
                Map.lookup-store dec k x.key m.next_id m.entry_map,
              )
        ];
        below = λ i x q. elim (Option-cases (find_element i m.entry_list)) [
          | inl a ↦ ground (arith, find_element-append i m.entry_list y)
          | inr (z, a) ↦ let b = w.below i z a in omega arith
        ];
      }
        where
          y : Element K V
          y = record { id = m.next_id; key = k; value = v }

      delete_known :
          (e : ℕ)
          → Map.lookup dec k m.entry_map ≡ some e
          → IsValid (record m {
            entry_map = Map.delete dec k m.entry_map;
            entry_list = remove_element e m.entry_list;
          })
      delete_known e p = record {
        points = λ j i q. elim (dec k j) [
          | yes same ↦ absurd (ground (arith, Map.lookup-delete dec k j m.entry_map))
          | no ne ↦
              let r : Map.lookup dec j m.entry_map ≡ some i =
                ground (arith, Map.lookup-delete dec k j m.entry_map) in
              let apart = points_apart j e i ne p r in
              let (u, a) = w.points j i r in
              (u, ground (arith, find_element-remove_element e i m.entry_list))
        ];
        listed = λ i x q.
            let a : find_element i m.entry_list ≡ some x =
              ground (arith, find_element-remove_element e i m.entry_list) in
            let b = w.listed i x a in
            elim (dec k x.key) [
              | yes same ↦
                  let one : e ≡ i = cc in
                  absurd (ground (arith, find_element-remove_element e i m.entry_list))
              | no ne ↦ ground (arith, Map.lookup-delete dec k x.key m.entry_map)
            ];
        below = λ i x q. w.below i x (ground (arith, find_element-remove_element e i m.entry_list));
      }

      pub put-IsValid : (v : V) → IsValid (put dec k v m)
      unfolding put
      put-IsValid v = elim (Option-cases (Map.lookup dec k m.entry_map)) [
        | inl p ↦ rw (put, p) (put_new v p)
        | inr (e, p) ↦ rw (put, p) (put_known v e p)
      ]

      pub delete-IsValid : IsValid (delete dec k m).1
      unfolding delete
      delete-IsValid = elim (Option-cases (Map.lookup dec k m.entry_map)) [
        | inl p ↦ rw (delete, p) w
        | inr (e, p) ↦ rw (delete, p) (delete_known e p)
      ]
