-- ===== src/Cache/Forgets.antt =====
-- Caches on a `linkedHashmap` forget entries from the oldest on, and make none up.
use slide_sdk.Common.{
  ℕ, zero, suc, ◌<◌, ◌≡◌, refl, ◌∙◌, ◌⊎◌, inl, inr, none, some, [], ◌∷◌, List, arith, length, ltb,
  Option-cases, Bool-cases,
}
use slide_sdk.Common.Map
use slide_sdk.Cache.LinkedHashmap.{LinkedHashmap, Element, get, oldest, front, len, find_element}
use slide_sdk.Cache.LinkedHashmap.Agree.{IsValid}
use slide_sdk.Cache.LinkedHashmap.Lookups.{get-delete}
use slide_sdk.Cache.Lru.{drop_oldest, trim}
use slide_sdk.Cache.Lru.Bounded.{drop_oldest-IsValid}

module _ {K : Type 0} (dec : Discrete K) where
  length-pos : (k : K) (es : List (K × ℕ)) {e : ℕ} → Map.lookup dec k es ≡ some e → 0 < length es
  unfolding Map.lookup
  length-pos k [] h = absurd (cc)
  length-pos k (x ∷ es) h = omega arith

module _ {K V : Type 0} (dec : Discrete K) where
  -- every key of the second map has the value that it has in the first
  abbrev pub Forgets : LinkedHashmap K V → LinkedHashmap K V → Type 0
  Forgets m n = (j : K) → (get dec j n ≡ none) ⊎ (get dec j n ≡ get dec j m)

  pub Forgets-nothing : (m : LinkedHashmap K V) → Forgets m m
  Forgets-nothing m j = inr refl

  pub Forgets-trans : (m n o : LinkedHashmap K V) → Forgets m n → Forgets n o → Forgets m o
  Forgets-trans m n o f g j = elim (g j) [
    | inl gone ↦ inl gone
    | inr same ↦ elim (f j) [ inl gone ↦ inl (same ∙ gone) | inr same' ↦ inr (same ∙ same') ]
  ]

  pub drop_oldest-Forgets : (m : LinkedHashmap K V) → IsValid dec m → Forgets m (drop_oldest dec m)
  unfolding drop_oldest
  drop_oldest-Forgets m w j = elim (Option-cases (oldest m)) [
    | inl e ↦ rw (drop_oldest, e) (inr refl)
    | inr (p, e) ↦
        rw (drop_oldest, e)
          (elim (dec p.0 j) [
            | yes same ↦ inl (ground (arith, get-delete dec m p.0 j w))
            | no ne ↦ inr (ground (arith, get-delete dec m p.0 j w))
          ])
  ]

  pub trim-Forgets :
      (fuel size : ℕ) (m : LinkedHashmap K V) → IsValid dec m → Forgets m (trim dec fuel size m)
  unfolding trim
  trim-Forgets zero size m w = Forgets-nothing m
  trim-Forgets (suc fuel) size m w = elim (Bool-cases (ltb size (len m))) [
    | inl e ↦ rw e (
        Forgets-trans m (drop_oldest dec m) (trim dec fuel size (drop_oldest dec m))
          (drop_oldest-Forgets m w)
          (trim-Forgets fuel size (drop_oldest dec m) (drop_oldest-IsValid dec m w)))
    | inr e ↦ rw e (Forgets-nothing m)
  ]

  front_listed :
      (m : LinkedHashmap K V) (xs : List (Element K V)) {p : K × V}
      → IsValid dec m
      → m.entry_list ≡ xs
      → front xs ≡ some p
      → 0 < len m
  unfolding front find_element len
  front_listed m [] w h e = absurd (cc)
  front_listed m (x ∷ xs) w h e =
      length-pos dec x.key m.entry_map (w.listed x.id x (rw h (ground arith)))

  -- a map with an oldest entry is not empty
  pub oldest-len :
      (m : LinkedHashmap K V) {p : K × V} → IsValid dec m → oldest m ≡ some p → 0 < len m
  unfolding oldest
  oldest-len m w e = front_listed m m.entry_list w refl e
