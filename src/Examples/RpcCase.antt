-- ===== src/Examples/RpcCase.antt =====
-- The theorems on the requests, at a store with one block and an index with one transaction.
use mathlib.Core.List.{Permᴰ}
use mathlib.Core.List.Permᴰ
use slide_sdk.Common.{
  ℕ, Bool, Bool-cases, if◌then◌else◌, inl, inr, ◌≡◌, ◌+◌, ◌-◌, ◌≤◌, ◌<◌, refl, ◌⊎◌, true, false,
  none, some, List, [], ◌∷◌, Bytes, length, arith, map, Bytes-discrete,
}
use slide_sdk.Common.Int.{pos, ◌≤ℤ◌, magnitude, eqb_ℤ}
use slide_sdk.Common.Outcome.{ok, err, ◌>>=◌}
use slide_sdk.Rpc.{RpcError, validate_per_page, get_height}
use slide_sdk.Rpc.Genesis.{cut, genesis_chunk_size, decode_all, cut_round_trip}
use slide_sdk.Rpc.Pages.{paginate, page_count, expected}
use slide_sdk.Rpc.Pages.Cover.{paginate_lem, collect, collect_all}
use slide_sdk.Rpc.Blocks.{BlockMeta, Stores, blockchain_info, block}
use slide_sdk.Rpc.Blocks.Heights.{present, down, blockchain_info_lem, StoresTogether}
use slide_sdk.Rpc.Search.{TxResult, Indexes, OrderBy, describe, tx_search}
use slide_sdk.Rpc.Search.Sorted.{Chain, Orders, SortsSlice, InOrder}
use slide_sdk.Rpc.Search.Answers.{tx_search_page}
use slide_sdk.Examples.Instances.{first, validators, answer}

program : Unit {0}
unfolding get_height block Bytes-discrete
program = tt

abbrev meta : BlockMeta
meta = record { block_id = record { hash = 5 ∷ []; part_set_header = [] }; header = first.header }

-- the first block, at the height 1
abbrev stores : Stores
stores = record {
  base = pos 1;
  height = pos 1;
  load_block = λ h. some first;
  load_block_by_hash = λ id. some first;
  load_block_meta = λ h. some meta;
  load_base_meta = some meta;
  load_seen_commit = λ h. none;
  load_block_commit = λ h. none;
  load_finalize_block_response = λ h. ok answer;
  load_validators = λ h. ok validators;
}

cut_round_trip_example :
    (chunks : List Bytes) × ((cut (λ b. 0 ∷ b) 4 genesis_chunk_size 0 (7 ∷ 8 ∷ 9 ∷ [])
        ≡ some chunks)
      × (decode_all (λ b. elim b [ [] ↦ none | x ∷ xs ↦ some xs ]) chunks ≡ some (7 ∷ 8 ∷ 9 ∷ [])))
cut_round_trip_example =
    cut_round_trip (λ b. 0 ∷ b) (λ b. elim b [ [] ↦ none | x ∷ xs ↦ some xs ]) (λ b. refl)
      (7 ∷ 8 ∷ 9 ∷ [])

abbrev numbers : List ℕ
numbers = 4 ∷ 5 ∷ 6 ∷ []

paginate_lem_example :
    paginate (some (pos 2)) (some (pos 2)) numbers
    ≡ expected (some (pos 2)) (magnitude (validate_per_page (some (pos 2)))) numbers
paginate_lem_example = paginate_lem (some (pos 2)) (some (pos 2)) numbers (omega arith)

collect_all_example :
    collect (page_count (magnitude (validate_per_page (some (pos 2)))) 3) 1 (some (pos 2)) numbers
    ≡ ok numbers
collect_all_example = collect_all (some (pos 2)) numbers (omega arith)

blockchain_info_lem_example :
    ((e : RpcError) × (blockchain_info stores 21 (pos 0) (pos 0) ≡ some (err e)))
    ⊎ ((b : ℕ) × ((t : ℕ) × ((1 ≤ b)
            × (b ≤ t)
            × (t < b + 20)
            × (pos t ≤ℤ pos 1)
            × (blockchain_info stores 21 (pos 0) (pos 0)
                ≡ some (
                    ok (record {
                      last_height = pos 1;
                      block_metas = present stores (down t (t + 1 - b));
                    }))))))
blockchain_info_lem_example = blockchain_info_lem stores (pos 0) (pos 0) (omega arith)

-- the block only at its own height
abbrev at_one : Stores
at_one = record stores {
  load_block = λ h. elim (eqb_ℤ h (pos 1)) [ true ↦ some first | false ↦ none ];
}

together : StoresTogether at_one
together = record { with_meta = λ h b e. (meta, (refl, ground arith, ground arith)) }

abbrev found : TxResult
found = record { height = pos 2; index = 0; tx = 1 ∷ []; result = 4 ∷ [] }

abbrev earlier : TxResult
earlier = record { height = pos 1; index = 3; tx = 2 ∷ []; result = 4 ∷ [] }

-- insertion sort
abbrev insert : {A : Type 0} → (A → A → Bool) → A → List A → List A
insert less x [] = x ∷ []
insert less x (y ∷ ys) = let rest = insert less x ys in if less y x then y ∷ rest else x ∷ y ∷ ys

abbrev sort_slice : {A : Type 0} → (A → A → Bool) → List A → List A
sort_slice less [] = []
sort_slice less (x ∷ xs) = insert less x (sort_slice less xs)

insert-Permᴰ :
    {A : Type 0} (less : A → A → Bool) (x : A) (ys : List A) → Permᴰ (insert less x ys) (x ∷ ys)
insert-Permᴰ less x [] = Permᴰ.refl (x ∷ [])
insert-Permᴰ less x (y ∷ ys) = elim (Bool-cases (less y x)) [
  | inl e ↦ rw e (Permᴰ.trans (Permᴰ.cons refl (insert-Permᴰ less x ys)) (Permᴰ.swap refl refl))
  | inr e ↦ rw e (Permᴰ.refl (x ∷ y ∷ ys))
]

sort_slice-Permᴰ : {A : Type 0} (less : A → A → Bool) (xs : List A) → Permᴰ (sort_slice less xs) xs
sort_slice-Permᴰ less [] = Permᴰ.nil
sort_slice-Permᴰ less (x ∷ xs) =
    Permᴰ.trans (insert-Permᴰ less x (sort_slice less xs))
      (Permᴰ.cons refl (sort_slice-Permᴰ less xs))

-- no element is less than the one before it
abbrev Sorted : {A : Type 0} → (A → A → Bool) → List A → Type 0
Sorted less = Chain (λ a b. less b a ≡ false)

asymmetric :
    {A : Type 0} (less : A → A → Bool)
    → Orders less
    → (x y : A) → less y x ≡ true
    → less x y ≡ false
asymmetric less orders x y e = elim (Bool-cases (less x y)) [
  | inl f ↦ let g = orders.transitive x y x f e in let h = orders.irreflexive x in absurd cc
  | inr f ↦ f
]

-- behind an element that is not greater than `x`
insert-Sorted :
    {A : Type 0} (less : A → A → Bool)
    → Orders less
    → (x y : A) (ys : List A) → less x y ≡ false
    → Sorted less (y ∷ ys)
    → Sorted less (y ∷ insert less x ys)
insert-Sorted less orders x y [] e c = (e, tt)
insert-Sorted less orders x y (z ∷ ys) e (f, c) = elim (Bool-cases (less z x)) [
  | inl g ↦ rw g (f, insert-Sorted less orders x z ys (asymmetric less orders x z g) c)
  | inr g ↦ rw g (e, (g, c))
]

insert_first :
    {A : Type 0} (less : A → A → Bool)
    → Orders less
    → (x : A) (ys : List A) → Sorted less ys
    → Sorted less (insert less x ys)
insert_first less orders x [] c = tt
insert_first less orders x (y ∷ ys) c = elim (Bool-cases (less y x)) [
  | inl e ↦ rw e (insert-Sorted less orders x y ys (asymmetric less orders x y e) c)
  | inr e ↦ rw e (e, c)
]

sort_slice-Sorted :
    {A : Type 0} (less : A → A → Bool)
    → Orders less
    → (xs : List A) → Sorted less (sort_slice less xs)
sort_slice-Sorted less orders [] = tt
sort_slice-Sorted less orders (x ∷ xs) =
    insert_first less orders x (sort_slice less xs) (sort_slice-Sorted less orders xs)

abbrev indexes : Indexes
indexes = record {
  Query = Unit;
  new_query = λ q. ok tt;
  get = λ h. ok (some found);
  search_txs = λ q. ok (found ∷ earlier ∷ []);
  search_blocks = λ q. ok (pos 1 ∷ []);
  sort_slice = sort_slice;
  proof = λ b i. [];
  hash = λ t. t;
}

indexes-SortsSlice : SortsSlice indexes
indexes-SortsSlice = record { permutes = sort_slice-Permᴰ; sorts = sort_slice-Sorted }

tx_search_page_example :
    (results : List TxResult) × Permᴰ results (found ∷ earlier ∷ [])
    × InOrder OrderBy.asc results
    × (tx_search stores indexes [] false none none OrderBy.asc ≡ (
        expected none (magnitude (validate_per_page none)) results >>= λ here. ok (record {
          txs = map (λ r. describe stores indexes (indexes.hash r.tx) none r) here;
          total_count = length (found ∷ earlier ∷ []);
        })))
tx_search_page_example =
    tx_search_page stores indexes indexes-SortsSlice [] none none OrderBy.asc (λ e. absurd (cc e))
      refl refl (omega arith)
