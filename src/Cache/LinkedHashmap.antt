-- ===== src/Cache/LinkedHashmap.antt =====
-- `linkedHashmap` (utils/linkedhashmap/linkedhashmap.go): a map from a key to an element of a list that
-- keeps the order of the last writes. A `*list.Element` of the Go library is a number that is its
-- identity: `PushBack` makes a new one, `MoveToBack` keeps it.
pub mod Agree
pub mod Lookups
pub mod Iterator
use mathlib.Core.Option
use slide_sdk.Common.{
  ℕ, ◌+◌, ◌≡◌, refl, Bool, true, false, Option, none, some, List, [], ◌∷◌, ◌++◌, length, ◌==◌,
  if◌then◌else◌,
}
use slide_sdk.Common.Map

-- A list element, with its `keyValue`.
pub record Element (K V : Type 0) : Type 0 where
  pub id : ℕ
  pub key : K
  pub value : V

pub record LinkedHashmap (K V : Type 0) : Type 0 where
  pub entry_map : List (K × ℕ)
  pub entry_list : List (Element K V)
  pub next_id : ℕ

module _ {K V : Type 0} where
  -- the element at an identity
  unfoldable pub find_element : ℕ → List (Element K V) → Option (Element K V)
  find_element e [] = none
  find_element e (x ∷ xs) = if x.id == e then some x else find_element e xs

  -- `entryList.Remove`
  unfoldable pub remove_element : ℕ → List (Element K V) → List (Element K V)
  remove_element e [] = []
  remove_element e (x ∷ xs) = let rest = remove_element e xs in if x.id == e then rest else x ∷ rest

  -- `New`
  abbrev pub new : LinkedHashmap K V
  new = record { entry_map = []; entry_list = []; next_id = 0 }

  unfoldable pub front : List (Element K V) → Option (K × V)
  front [] = none
  front (x ∷ xs) = some (x.key, x.value)

  unfoldable pub back : List (Element K V) → Option (K × V)
  back [] = none
  back (x ∷ []) = some (x.key, x.value)
  back (x ∷ y ∷ xs) = back (y ∷ xs)

  unfoldable pub oldest : LinkedHashmap K V → Option (K × V)
  oldest m = front m.entry_list

  unfoldable pub newest : LinkedHashmap K V → Option (K × V)
  newest m = back m.entry_list

  unfoldable pub len : LinkedHashmap K V → ℕ
  len m = length m.entry_map

  module _ (dec : Discrete K) where
    unfoldable pub put : K → V → LinkedHashmap K V → LinkedHashmap K V
    put k v m = elim (Map.lookup dec k m.entry_map) [
      | some e ↦ record m {
        entry_list = remove_element e m.entry_list ++ record { id = e; key = k; value = v } ∷ [];
      }
      | none ↦ record {
        entry_map = Map.store dec k m.next_id m.entry_map;
        entry_list = m.entry_list ++ record { id = m.next_id; key = k; value = v } ∷ [];
        next_id = m.next_id + 1;
      }
    ]

    unfoldable pub get : K → LinkedHashmap K V → Option V
    get k m = elim (Map.lookup dec k m.entry_map) [
      | none ↦ none
      | some e ↦ Option.map (λ x. x.value) (find_element e m.entry_list)
    ]

    -- `delete`, with whether the key was there
    unfoldable pub delete : K → LinkedHashmap K V → Bool × LinkedHashmap K V
    delete k m = elim (Map.lookup dec k m.entry_map) [
      | none ↦ (false, m)
      | some e ↦ (
        true,
        record m {
          entry_map = Map.delete dec k m.entry_map;
          entry_list = remove_element e m.entry_list;
        },
      )
    ]
