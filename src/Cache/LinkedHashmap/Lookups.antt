-- ===== src/Cache/LinkedHashmap/Lookups.antt =====
-- A `linkedHashmap` looks up as a map does.
use slide_sdk.Common.{
  ℕ, ◌+◌, ◌≡◌, ◌≢◌, refl, sym, ◌∙◌, subst, none, some, [], ◌∷◌, ◌++◌, arith, ite, Option-cases, inl,
  inr,
}
use slide_sdk.Common.Map
use slide_sdk.Cache.LinkedHashmap.{LinkedHashmap, find_element, remove_element, put, get, delete}
use slide_sdk.Cache.LinkedHashmap.Agree.{
  IsValid, next_id_free, points_apart, find_element-move, find_element-append,
  find_element-remove_element,
}

module _ {K V : Type 0} (dec : Discrete K) where
  -- what the map and the list say of a key
  get-of :
      (k : K) (m : LinkedHashmap K V) (e : ℕ) (v : V)
      → Map.lookup dec k m.entry_map ≡ some e
      → find_element e m.entry_list ≡ some (record { id = e; key = k; value = v })
      → get dec k m ≡ some v
  unfolding get
  get-of k m e v p q = rw (get, p, q) refl

  get-missing :
      (k : K) (m : LinkedHashmap K V) → Map.lookup dec k m.entry_map ≡ none → get dec k m ≡ none
  unfolding get
  get-missing k m p = rw (get, p) refl

  -- two maps that agree on a key, in the map and in the list
  same_entry :
      (m n : LinkedHashmap K V) (j : K)
      → IsValid dec m
      → Map.lookup dec j n.entry_map ≡ Map.lookup dec j m.entry_map
      → ((i : ℕ)
          → Map.lookup dec j m.entry_map ≡ some i
          → find_element i n.entry_list ≡ find_element i m.entry_list)
      → get dec j n ≡ get dec j m
  same_entry m n j w e f = elim (Option-cases (Map.lookup dec j m.entry_map)) [
    | inl p ↦ get-missing j n (e ∙ p) ∙ sym (get-missing j m p)
    | inr (i, p) ↦
        let (u, q) = w.points j i p in get-of j n i u (e ∙ p) (f i p ∙ q) ∙ sym (get-of j m i u p q)
  ]

  module _ (m : LinkedHashmap K V) (w : IsValid dec m) (k : K) where
    abbrev moved : ℕ → V → LinkedHashmap K V
    moved e v = record m {
      entry_list = remove_element e m.entry_list ++ record { id = e; key = k; value = v } ∷ [];
    }

    abbrev added : V → LinkedHashmap K V
    added v = record {
      entry_map = Map.store dec k m.next_id m.entry_map;
      entry_list = m.entry_list ++ record { id = m.next_id; key = k; value = v } ∷ [];
      next_id = m.next_id + 1;
    }

    put_self : (v : V) → get dec k (put dec k v m) ≡ some v
    unfolding put
    put_self v = elim (Option-cases (Map.lookup dec k m.entry_map)) [
      | inr (e, p) ↦
          rw (put, p)
            (get-of k (moved e v) e v p (
              ground
                (arith, find_element-move e (record { id = e; key = k; value = v }) m.entry_list)))
      | inl p ↦
          let free = next_id_free dec w k in
          rw (put, p)
            (get-of k (added v) m.next_id v
              (ground (arith, Map.lookup-store dec k k m.next_id m.entry_map))
              (ground (
                arith,
                find_element-append m.next_id m.entry_list
                    (record { id = m.next_id; key = k; value = v }),
              )))
    ]

    put_other : (j : K) (v : V) → k ≢ j → get dec j (put dec k v m) ≡ get dec j m
    unfolding put
    put_other j v ne = elim (Option-cases (Map.lookup dec k m.entry_map)) [
      | inr (e, p) ↦
          rw (put, p)
            (same_entry m (moved e v) j w refl (λ i q.
              let apart = points_apart dec w k j e i ne p q in
              ground
                (arith, find_element-move i (record { id = e; key = k; value = v }) m.entry_list)))
      | inl p ↦
          rw (put, p)
            (same_entry m (added v) j w
              (ground (arith, Map.lookup-store dec k j m.next_id m.entry_map))
              (λ i q.
                let (u, a) = w.points j i q in
                ground (
                  arith,
                  find_element-append i m.entry_list
                      (record { id = m.next_id; key = k; value = v }),
                )))
    ]

    abbrev dropped : ℕ → LinkedHashmap K V
    dropped e = record m {
      entry_map = Map.delete dec k m.entry_map;
      entry_list = remove_element e m.entry_list;
    }

    delete_self : get dec k (delete dec k m).1 ≡ none
    unfolding delete
    delete_self = elim (Option-cases (Map.lookup dec k m.entry_map)) [
      | inl p ↦ rw (delete, p) (get-missing k m p)
      | inr (e, p) ↦
          rw (delete, p)
            (get-missing k (dropped e) (ground (arith, Map.lookup-delete dec k k m.entry_map)))
    ]

    delete_other : (j : K) → k ≢ j → get dec j (delete dec k m).1 ≡ get dec j m
    unfolding delete
    delete_other j ne = elim (Option-cases (Map.lookup dec k m.entry_map)) [
      | inl p ↦ rw (delete, p) refl
      | inr (e, p) ↦
          rw (delete, p)
            (same_entry m (dropped e) j w (ground (arith, Map.lookup-delete dec k j m.entry_map))
              (λ i q.
                let apart = points_apart dec w k j e i ne p q in
                ground (arith, find_element-remove_element e i m.entry_list)))
    ]

  -- After `Put` a key has the value that was put, and every other key the value that it had.
  pub get-put :
      (m : LinkedHashmap K V) (k j : K) (v : V)
      → IsValid dec m
      → get dec j (put dec k v m) ≡ ite (dec k j) (some v) (get dec j m)
  get-put m k j v w =
      elim (dec k j) as (λ d. get dec j (put dec k v m) ≡ ite d (some v) (get dec j m)) [
        | yes same ↦ subst (λ x. get dec x (put dec k v m) ≡ some v) same (put_self m w k v)
        | no ne ↦ put_other m w k j v ne
      ]

  -- After `Delete` the key has no value, and every other key the value that it had.
  pub get-delete :
      (m : LinkedHashmap K V) (k j : K)
      → IsValid dec m
      → get dec j (delete dec k m).1 ≡ ite (dec k j) none (get dec j m)
  get-delete m k j w =
      elim (dec k j) as (λ d. get dec j (delete dec k m).1 ≡ ite d none (get dec j m)) [
        | yes same ↦ subst (λ x. get dec x (delete dec k m).1 ≡ none) same (delete_self m w k)
        | no ne ↦ delete_other m w k j ne
      ]
