-- ===== src/Rpc/Search/Sorted.antt =====
-- The order of the results of `TxSearch`, and what is asked of `sort.Slice`.
use mathlib.Core.List.{Permᴰ}
use slide_sdk.Common.{◌≤◌, ◌≡◌, ◌≢◌, refl, ◌∙◌, Bool, true, false, List, [], ◌∷◌, length, arith}
use slide_sdk.Common.Int.{◌≤ℤ◌}
use slide_sdk.Common.Outcome.{ok}
use slide_sdk.Rpc.Blocks.{Stores}
use slide_sdk.Rpc.Search.{TxResult, Indexes, OrderBy, tx_after, tx_before, sort_txs}

-- each two neighbours are related
abbrev pub Chain : {A : Type 0} → (A → A → Type 0) → List A → Type 0
Chain R [] = Unit
Chain R (x ∷ []) = Unit
Chain R (x ∷ y ∷ xs) = R x y × Chain R (y ∷ xs)

Chain-map :
    {A : Type 0} (R S : A → A → Type 0)
    → ((a b : A) → R a b → S a b)
    → (xs : List A) → Chain R xs
    → Chain S xs
Chain-map R S f [] c = tt
Chain-map R S f (x ∷ []) c = tt
Chain-map R S f (x ∷ y ∷ xs) (r, c) = (f x y r, Chain-map R S f (y ∷ xs) c)

pub length-Permᴰ : {A : Type 0} {xs ys : List A} → Permᴰ xs ys → length xs ≡ length ys
length-Permᴰ Permᴰ.nil = refl
length-Permᴰ (Permᴰ.cons e p) = let ih = length-Permᴰ p in omega (arith, ih)
length-Permᴰ (Permᴰ.swap e f) = refl
length-Permᴰ (Permᴰ.trans p q) = length-Permᴰ p ∙ length-Permᴰ q

-- What `sort.Slice` asks of a function that it is given.
pub record Orders {A : Type 0} (less : A → A → Bool) : Type 0 where
  pub irreflexive : (a : A) → less a a ≡ false
  pub transitive : (a b c : A) → less a b ≡ true → less b c ≡ true → less a c ≡ true
  pub not_transitive : (a b c : A) → less a b ≡ false → less b c ≡ false → less a c ≡ false

-- What `sort.Slice` does: the elements are the same, and none is less than the one before it.
pub record SortsSlice (ix : Indexes) : Type 1 where
  pub permutes : {A : Type 0} (less : A → A → Bool) (xs : List A) → Permᴰ (ix.sort_slice less xs) xs
  pub sorts :
      {A : Type 0} (less : A → A → Bool)
      → Orders less
      → (xs : List A) → Chain (λ a b. less b a ≡ false) (ix.sort_slice less xs)

-- by the height, and at one height by the index
abbrev pub Before : TxResult → TxResult → Type 0
Before a b = (a.height ≤ℤ b.height) × (a.height ≡ b.height → a.index ≤ b.index)

-- the order that is asked for: ascending unless it is `desc`
abbrev pub InOrder : OrderBy → List TxResult → Type 0
InOrder OrderBy.desc rs = Chain (λ a b. Before b a) rs
InOrder OrderBy.asc rs = Chain Before rs
InOrder OrderBy.unset rs = Chain Before rs
InOrder OrderBy.unknown rs = ⊥

before_lem : (a b : TxResult) → tx_before b a ≡ false → Before a b
before_lem a b e = (ground arith, λ same. ground arith)

after_lem : (a b : TxResult) → tx_after b a ≡ false → Before b a
after_lem a b e = (ground arith, λ same. ground arith)

tx_before-Orders : Orders tx_before
tx_before-Orders = record {
  irreflexive = λ a. ground arith;
  transitive = λ a b c p q. ground arith;
  not_transitive = λ a b c p q. ground arith;
}

tx_after-Orders : Orders tx_after
tx_after-Orders = record {
  irreflexive = λ a. ground arith;
  transitive = λ a b c p q. ground arith;
  not_transitive = λ a b c p q. ground arith;
}

-- for an order that is known, the found results are sorted
pub sort_txs-InOrder :
    (s : Stores) (ix : Indexes)
    → SortsSlice ix
    → (order : OrderBy) → order ≢ OrderBy.unknown
    → (found : List TxResult)
    → (results : List TxResult) × (sort_txs s ix order found ≡ ok results)
      × Permᴰ results found
      × InOrder order results
unfolding sort_txs
sort_txs-InOrder s ix sorts OrderBy.desc known found = (
  ix.sort_slice tx_after found,
  refl,
  sorts.permutes tx_after found,
  Chain-map (λ a b. tx_after b a ≡ false) (λ a b. Before b a) after_lem
      (ix.sort_slice tx_after found) (sorts.sorts tx_after tx_after-Orders found),
)
sort_txs-InOrder s ix sorts OrderBy.asc known found = (
  ix.sort_slice tx_before found,
  refl,
  sorts.permutes tx_before found,
  Chain-map (λ a b. tx_before b a ≡ false) Before before_lem (ix.sort_slice tx_before found)
      (sorts.sorts tx_before tx_before-Orders found),
)
sort_txs-InOrder s ix sorts OrderBy.unset known found = (
  ix.sort_slice tx_before found,
  refl,
  sorts.permutes tx_before found,
  Chain-map (λ a b. tx_before b a ≡ false) Before before_lem (ix.sort_slice tx_before found)
      (sorts.sorts tx_before tx_before-Orders found),
)
sort_txs-InOrder s ix sorts OrderBy.unknown known found = absurd (known refl)
