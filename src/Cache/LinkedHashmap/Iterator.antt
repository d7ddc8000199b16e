-- ===== src/Cache/LinkedHashmap/Iterator.antt =====
-- The iterator of a `linkedHashmap` (utils/linkedhashmap/iterator.go).
use slide_sdk.Common.{
  ℕ, zero, suc, ◌≡◌, refl, sym, subst, append_assoc, ap, ◌∙◌, Bool, true, false, Option, none, some,
  List, [], ◌∷◌, ◌++◌, length, ◌==◌, if◌then◌else◌, arith, inl, inr, Bool-cases, Option-cases,
}
use slide_sdk.Common.Map
use slide_sdk.Cache.LinkedHashmap.Agree.{
  IsValid, find_element-remove_element, find_element-append, next_id_free,
}
use slide_sdk.Cache.LinkedHashmap.{
  Element, LinkedHashmap, find_element, remove_element, put, delete,
}

-- `iterator`: the zero values of a key and a value are `none`, and `next` is the identity of an element
pub record Iterator (K V : Type 0) : Type 0 where
  pub current : Option (K × V)
  pub next : Option ℕ
  pub initialized : Bool
  pub exhausted : Bool

-- `it.exhausted = it.next == nil`
abbrev pub is_none : Option ℕ → Bool
is_none none = true
is_none (some e) = false

module _ {K V : Type 0} where
  -- `NewIterator`
  abbrev pub new_iterator : Iterator K V
  new_iterator = record { current = none; next = none; initialized = false; exhausted = false }

  -- `Front` of the list
  unfoldable pub front_id : List (Element K V) → Option ℕ
  front_id [] = none
  front_id (x ∷ xs) = some x.id

  -- `Next` of an element
  unfoldable pub following : ℕ → List (Element K V) → Option ℕ
  following e [] = none
  following e (x ∷ xs) = if x.id == e then front_id xs else following e xs

  abbrev pub exhaust : Iterator K V → Iterator K V
  exhaust it = record it { current = none; next = none; exhausted = true }

  -- the element of the iterator is read: its user deletes only elements that were shown before, and
  -- `none` is where it deleted this one
  unfoldable pub step : List (Element K V) → Option ℕ → Iterator K V → Option (Bool × Iterator K V)
  step elements none it = none
  step elements (some e) it = elim (find_element e elements) [
    | none ↦ none
    | some x ↦ some (
      true,
      record it {
        current = some (x.key, x.value);
        next = following e elements;
        exhausted = is_none (following e elements);
      },
    )
  ]

  -- the first element, where the iterator was not used yet
  unfoldable pub begin : List (Element K V) → Iterator K V → Option (Bool × Iterator K V)
  begin [] it = some (false, exhaust (record it { initialized = true }))
  begin (x ∷ xs) it = step (x ∷ xs) (some x.id) (record it { initialized = true })

  -- `Next`, on the list of the map; `none` is where its user deleted the element
  unfoldable pub next_in : List (Element K V) → Iterator K V → Option (Bool × Iterator K V)
  next_in elements it =
      if it.exhausted
      then some (false, record it { current = none; next = none })
      else if it.initialized
      then step elements it.next it
      else begin elements it

  unfoldable pub next : LinkedHashmap K V → Iterator K V → Option (Bool × Iterator K V)
  next m it = next_in m.entry_list it

  -- what a loop collects: the entry it is shown and those after it
  abbrev after_first :
      Option (K × V) → Option (List (Option (K × V))) → Option (List (Option (K × V)))
  after_first shown none = none
  after_first shown (some seen) = some (shown ∷ seen)

  -- A client's loop `for it.Next() { … it.Key(), it.Value() … }`, with fuel, from the answer of its first
  -- `Next`; `none` is a deleted element or no fuel.
  unfoldable pub walk :
      ℕ → LinkedHashmap K V → Option (Bool × Iterator K V) → Option (List (Option (K × V)))
  walk fuel m none = none
  walk fuel m (some (false, it)) = some []
  walk zero m (some (true, it)) = none
  walk (suc fuel) m (some (true, it)) = after_first it.current (walk fuel m (next m it))

  -- the entries of a list
  unfoldable pub entries : List (Element K V) → List (Option (K × V))
  entries [] = []
  entries (x ∷ xs) = some (x.key, x.value) ∷ entries xs

  -- no identity stands twice
  abbrev pub Unique : List (Element K V) → Type 0
  Unique [] = Unit
  Unique (x ∷ xs) = (find_element x.id xs ≡ none) × Unique xs

  find_element-after :
      (before : List (Element K V)) (x : Element K V) (rest : List (Element K V))
      → Unique (before ++ x ∷ rest)
      → (find_element x.id (before ++ x ∷ rest) ≡ some x)
        × (following x.id (before ++ x ∷ rest) ≡ front_id rest)
  unfolding find_element following
  find_element-after [] x rest u = (ground arith, ground arith)
  find_element-after (y ∷ before) x rest (fresh, u) =
      let (found, after) = find_element-after before x rest u in
      elim (Bool-cases (y.id == x.id)) [
        | inl same ↦
            let e : y.id ≡ x.id = ground arith in
            absurd (ground (arith, ap (λ i. find_element i (before ++ x ∷ rest)) e))
        | inr ne ↦ (ground arith, ground arith)
      ]

  -- the state of an iterator that shows `x` next
  At : Element K V → Iterator K V → Type 0
  At x it = (it.next ≡ some x.id) × (it.initialized ≡ true) × (it.exhausted ≡ false)

  shown : Element K V → List (Element K V) → Iterator K V → Iterator K V
  shown x rest it = record it {
    current = some (x.key, x.value);
    next = front_id rest;
    exhausted = is_none (front_id rest);
  }

  step-eq :
      (elements : List (Element K V)) (it : Iterator K V) (x : Element K V) (o : Option ℕ)
      → find_element x.id elements ≡ some x
      → following x.id elements ≡ o
      → step elements (some x.id) it
        ≡ some
            (true, record it { current = some (x.key, x.value); next = o; exhausted = is_none o })
  unfolding step
  step-eq elements it x o e f = rw (step, e, f) refl

  next_in-At :
      (it : Iterator K V) (before : List (Element K V)) (x : Element K V)
      (rest : List (Element K V))
      → Unique (before ++ x ∷ rest)
      → At x it
      → next_in (before ++ x ∷ rest) it ≡ some (true, shown x rest it)
  unfolding next_in At shown
  next_in-At it before x rest u (n, i, f) =
      let (found, after) = find_element-after before x rest u in
      rw (next_in, f, i, n) (step-eq (before ++ x ∷ rest) _ x (front_id rest) found after)

  next-At :
      (m : LinkedHashmap K V) (it : Iterator K V) (before : List (Element K V)) (x : Element K V)
      (rest : List (Element K V))
      → m.entry_list ≡ before ++ x ∷ rest
      → Unique m.entry_list
      → At x it
      → next m it ≡ some (true, shown x rest it)
  unfolding next
  next-At m it before x rest e u a =
      ap (λ l. next_in l it) e ∙ next_in-At it before x rest (subst Unique e u) a

  walk-shown :
      (rest : List (Element K V)) (m : LinkedHashmap K V) (it : Iterator K V)
      (before : List (Element K V)) (x : Element K V)
      → m.entry_list ≡ before ++ x ∷ rest
      → Unique m.entry_list
      → it.initialized ≡ true
      → walk (suc (length rest)) m (some (true, shown x rest it)) ≡ some (entries (x ∷ rest))
  unfolding walk entries shown front_id next next_in At
  walk-shown [] m it before x e u i = refl
  walk-shown (y ∷ rest) m it before x e u i =
      let e' = e ∙ sym (append_assoc before (x ∷ []) (y ∷ rest)) in
      let it' = shown x (y ∷ rest) it in
      let n = next-At m it' (before ++ x ∷ []) y rest e' u (refl, i, refl) in
      let ih = walk-shown rest m it' (before ++ x ∷ []) y e' u i in
      ap (after_first (some (x.key, x.value))) (ap (walk (suc (length rest)) m) n ∙ ih)

  -- A loop over an iterator of a map that is not changed meanwhile ends, and shows every entry once, from
  -- the oldest to the newest.
  pub walk_lem :
      (m : LinkedHashmap K V)
      → Unique m.entry_list
      → walk (length m.entry_list) m (next m new_iterator) ≡ some (entries m.entry_list)
  unfolding next next_in begin step walk entries shown At
  walk_lem m u = go m.entry_list refl
    where
      go :
          (l : List (Element K V))
          → m.entry_list ≡ l
          → walk (length l) m (next m new_iterator) ≡ some (entries l)
      go [] e = ap (λ l. walk 0 m (next_in l new_iterator)) e
      go (x ∷ xs) e =
          let started = record new_iterator { initialized = true; next = some x.id } in
          ap (λ l. walk (suc (length xs)) m (next_in l new_iterator)) e
          ∙ (ap (walk (suc (length xs)) m) (
                ap (λ l. next_in l started) (sym e)
                ∙ next-At m started [] x xs e u (refl, refl, refl))
              ∙ walk-shown xs m started [] x e u refl)

  remove_element-Unique :
      (e : ℕ) (xs : List (Element K V)) → Unique xs → Unique (remove_element e xs)
  unfolding remove_element
  remove_element-Unique e [] u = tt
  remove_element-Unique e (x ∷ xs) (fresh, u) =
      let rest = remove_element-Unique e xs u in
      elim (Bool-cases (x.id == e)) [
        | inl same ↦ rw (remove_element, same) rest
        | inr ne ↦
            rw (remove_element, ne) (ground (arith, find_element-remove_element e x.id xs), rest)
      ]

  append-Unique :
      (xs : List (Element K V)) (y : Element K V)
      → Unique xs
      → find_element y.id xs ≡ none
      → Unique (xs ++ y ∷ [])
  unfolding find_element
  append-Unique [] y u free = (refl, tt)
  append-Unique (x ∷ xs) y (fresh, u) free =
      (ground (arith, find_element-append x.id xs y), append-Unique xs y u (ground arith))

  module _ (dec : Discrete K) where
    -- The operations keep the identities apart.
    pub put-Unique :
        {m : LinkedHashmap K V}
        → IsValid dec m
        → (k : K) (v : V) → Unique m.entry_list
        → Unique (put dec k v m).entry_list
    unfolding put
    put-Unique {m} w k v u = elim (Option-cases (Map.lookup dec k m.entry_map)) [
      | inl n ↦ rw (put, n) (append-Unique m.entry_list _ u (next_id_free dec w k))
      | inr (e, p) ↦
          rw (put, p)
            (append-Unique (remove_element e m.entry_list) _
              (remove_element-Unique e m.entry_list u)
              (ground (arith, find_element-remove_element e e m.entry_list)))
    ]

    pub delete-Unique :
        (m : LinkedHashmap K V) (k : K) → Unique m.entry_list → Unique (delete dec k m).1.entry_list
    unfolding delete
    delete-Unique m k u = elim (Option-cases (Map.lookup dec k m.entry_map)) [
      | inl n ↦ rw (delete, n) u
      | inr (e, p) ↦ rw (delete, p) (remove_element-Unique e m.entry_list u)
    ]
