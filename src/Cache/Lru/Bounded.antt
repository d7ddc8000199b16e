-- ===== src/Cache/Lru/Bounded.antt =====
-- An `LRU` holds no more entries than its size, and the loop of `resize` ends.
use slide_sdk.Common.{
  ℕ, suc, zero, ◌+◌, ◌≤◌, ◌<◌, ◌≡◌, refl, some, Option-cases, inl, inr, List, [], ◌∷◌, length, ltb,
  ◌==◌, if◌then◌else◌, arith, Bool-cases, Bool, true, false,
}
use slide_sdk.Common.Int.{ℤ}
use slide_sdk.Common.Map
use slide_sdk.Cache.LinkedHashmap.{
  Element, LinkedHashmap, put, get, delete, len, oldest, front, find_element,
}
use slide_sdk.Cache.LinkedHashmap.Agree.{IsValid, put-IsValid, delete-IsValid}
use slide_sdk.Cache.LinkedHashmap.Lookups.{get-put}
use slide_sdk.Cache.Lru.{Lru, elements_of, capacity, drop_oldest, trim, resize, put_lru, len_lru}

capacity-pos : (size : ℤ) → 0 < capacity size
capacity-pos size = ground arith

module _ {K : Type 0} (dec : Discrete K) where
  pub length-delete : (k : K) (m : List (K × ℕ)) → length (Map.delete dec k m) ≤ length m
  unfolding Map.delete
  length-delete k [] = omega arith
  length-delete k ((j, e) ∷ m) = ground (arith, length-delete k m)

  length-delete_known :
      (k : K) (m : List (K × ℕ)) {e : ℕ}
      → Map.lookup dec k m ≡ some e
      → length (Map.delete dec k m) < length m
  unfolding Map.delete Map.lookup
  length-delete_known k [] h = absurd (cc)
  length-delete_known k ((j, i) ∷ m) {e = e} h = elim (dec j k) [
    | yes same ↦ ground (arith, length-delete k m)
    | no ne ↦
        let rest : Map.lookup dec k m ≡ some e = ground arith in
        let less = length-delete_known k m rest in ground arith
  ]

  first_key : (m : List (K × ℕ)) → 0 < length m → (k : K) × (e : ℕ) × (Map.lookup dec k m ≡ some e)
  unfolding Map.lookup
  first_key [] p = absurd (omega arith)
  first_key ((k, e) ∷ m) p = (k, e, ground arith)

  length-store : (k : K) (e : ℕ) (m : List (K × ℕ)) → length (Map.store dec k e m) ≤ length m + 1
  unfolding Map.store
  length-store k e m = let a = length-delete k m in omega arith

module _ {K V : Type 0} (dec : Discrete K) where
  module _ (m : LinkedHashmap K V) (w : IsValid dec m) where
    pub drop_oldest-IsValid : IsValid dec (drop_oldest dec m)
    unfolding drop_oldest
    drop_oldest-IsValid = elim (Option-cases (oldest m)) [
      | inl e ↦ rw (drop_oldest, e) w
      | inr (p, e) ↦ rw (drop_oldest, e) (delete-IsValid dec w p.0)
    ]

    -- there is an oldest entry unless the map is empty, and its key is in the map
    front_known :
        (xs : List (Element K V))
        → m.entry_list ≡ xs
        → 0 < len m
        → (k : K) × (v : V) × (e : ℕ) × (front xs ≡ some (k, v))
          × (Map.lookup dec k m.entry_map ≡ some e)
    unfolding len front find_element
    front_known [] h p =
        let (k, e, l) = first_key dec m.entry_map p in
        let (v, f) = w.points k e l in absurd (ground arith)
    front_known (x ∷ xs) h p = (x.key, x.value, x.id, refl, w.listed x.id x (rw h (ground arith)))

    pub len-drop_oldest : 0 < len m → len (drop_oldest dec m) < len m
    unfolding drop_oldest oldest delete len
    len-drop_oldest p =
        let (k, v, e, f, l) = front_known m.entry_list refl p in
        rw (drop_oldest, f, delete, l) (length-delete_known dec k m.entry_map l)

  pub trim-IsValid :
      (fuel size : ℕ) (m : LinkedHashmap K V) → IsValid dec m → IsValid dec (trim dec fuel size m)
  unfolding trim
  trim-IsValid zero size m w = w
  trim-IsValid (suc fuel) size m w = elim (Bool-cases (ltb size (len m))) [
    | inl e ↦ rw e (trim-IsValid fuel size (drop_oldest dec m) (drop_oldest-IsValid m w))
    | inr e ↦ rw e w
  ]

  -- the loop of `resize` ends with no more elements than the size
  pub len-trim :
      (fuel size : ℕ) (m : LinkedHashmap K V)
      → IsValid dec m
      → len m ≤ fuel
      → len (trim dec fuel size m) ≤ size
  unfolding trim
  len-trim zero size m w p = omega arith
  len-trim (suc fuel) size m w p =
      let less = len-drop_oldest m w in
      let rest = len-trim fuel size (drop_oldest dec m) (drop_oldest-IsValid m w) in ground arith

  -- a map that fits is left alone
  pub trim-fits : (fuel size : ℕ) (m : LinkedHashmap K V) → len m ≤ size → trim dec fuel size m ≡ m
  unfolding trim
  trim-fits zero size m p = refl
  trim-fits (suc fuel) size m p = ground arith

  pub len-put : (k : K) (v : V) (m : LinkedHashmap K V) → len (put dec k v m) ≤ len m + 1
  unfolding put len
  len-put k v m = ground (arith, length-store dec k m.next_id m.entry_map)

  -- In a cache whose elements agree with its map, after `Put` they agree too, the entry that was put is
  -- found, and there are no more entries than the size, or than one where the size is not positive.
  pub put_lru-bounded :
      (k : K) (v : V) (c : Lru K V)
      → IsValid dec (elements_of c.elements)
      → IsValid dec (elements_of (put_lru dec k v c).elements)
        × (len_lru (put_lru dec k v c) ≤ capacity c.size)
        × (get dec k (elements_of (put_lru dec k v c).elements) ≡ some v)
  unfolding put_lru resize
  put_lru-bounded k v c w =
      let m = elements_of c.elements in
      let t = trim dec (len m) (capacity c.size) m in
      let tw = trim-IsValid (len m) (capacity c.size) m w in
      let fits = len-trim (len m) (capacity c.size) m w (omega arith) in
      let some_room = capacity-pos c.size in
      let less = len-drop_oldest t tw in
      let room = if len t == capacity c.size then drop_oldest dec t else t in
      let room-IsValid = room_valid t tw (len t == capacity c.size) in
      let grows = len-put k v room in
      (put-IsValid dec room-IsValid k v, ground arith, put_found room room-IsValid)
    where
      room_valid :
          (t : LinkedHashmap K V)
          → IsValid dec t
          → (b : Bool) → IsValid dec (if b then drop_oldest dec t else t)
      room_valid t tw true = drop_oldest-IsValid t tw
      room_valid t tw false = tw

      put_found : (r : LinkedHashmap K V) → IsValid dec r → get dec k (put dec k v r) ≡ some v
      put_found r rw' = ground (arith, get-put dec r k k v rw')
