-- ===== src/Rpc/Search/Answers.antt =====
-- What the searches answer, and where they panic.
use mathlib.Core.List.{Permᴰ}
use slide_sdk.Common.{
  ◌≤◌, ◌<◌, ◌≡◌, ◌≢◌, refl, ap, ◌↔◌, inl, inr, Bool, true, false, Option, none, some, List, [], ◌∷◌,
  Bytes, length, map, arith, Option-cases,
}
use slide_sdk.Common.Int.{ℤ, int64_limit, magnitude}
use slide_sdk.Common.Outcome.{Outcome, ok, panic, ◌>>=◌, Outcome-cases, >>=_congr}
use slide_sdk.Rpc.{RpcError, validate_per_page}
use slide_sdk.Rpc.Pages.{expected}
use slide_sdk.Rpc.Pages.Cover.{paginate_lem}
use slide_sdk.Rpc.Blocks.{Stores}
use slide_sdk.Rpc.Search.Sorted.{SortsSlice, InOrder, length-Permᴰ, sort_txs-InOrder}
use slide_sdk.Rpc.Search.{
  TxResult, Indexes, OrderBy, max_int32, each, proof_of, describe, tx, answer_tx, tx_search,
}

module _ (s : Stores) (ix : Indexes) where
  each_ok :
      {A B : Type 0} (f : A → Outcome RpcError B) (g : A → B)
      → ((x : A) → f x ≡ ok (g x))
      → (xs : List A) → each f xs ≡ ok (map g xs)
  unfolding each
  each_ok f g h [] = refl
  each_ok f g h (x ∷ xs) = rw (h x, each_ok f g h xs) refl

  proof_of-panic :
      (prove : Bool) (r : TxResult)
      → proof_of s ix prove r ≡ panic
      → (prove ≡ true) × (r.index ≤ max_int32) × (s.load_block r.height ≡ none)
  unfolding proof_of
  proof_of-panic true r e = (
    refl,
    ground arith,
    elim (Option-cases (s.load_block r.height)) [ inl gone ↦ gone | inr (b, found) ↦ ground arith ],
  )
  proof_of-panic false r e = absurd (cc)

  proof_of_panics :
      (r : TxResult)
      → r.index ≤ max_int32
      → s.load_block r.height ≡ none
      → proof_of s ix true r ≡ panic
  unfolding proof_of
  proof_of_panics r i l = ground arith

  tx-panic :
      (hash : Bytes) (prove : Bool)
      → (ix.get hash ≡ panic → ⊥)
      → tx s ix hash prove ≡ panic
      → (r : TxResult) × ((ix.get hash ≡ ok (some r))
          × (prove ≡ true)
          × (r.index ≤ max_int32)
          × (s.load_block r.height ≡ none))
  unfolding tx
  tx-panic hash prove calm e = elim (Outcome-cases (ix.get hash)) [
    | inl (none, got) ↦ absurd cc
    | inl (some r, got) ↦ elim (Outcome-cases (proof_of s ix prove r)) [
      | inl (p, q) ↦ absurd cc
      | inr (inl (x, q)) ↦ absurd cc
      | inr (inr q) ↦ (let (p, i, l) = proof_of-panic prove r q in (r, (got, p, i, l)))
    ]
    | inr (inl (x, got)) ↦ absurd cc
    | inr (inr got) ↦ absurd (calm got)
  ]

  tx_panics :
      (hash : Bytes) (prove : Bool) (r : TxResult)
      → ix.get hash ≡ ok (some r)
      → prove ≡ true
      → r.index ≤ max_int32
      → s.load_block r.height ≡ none
      → tx s ix hash prove ≡ panic
  unfolding tx
  tx_panics hash prove r g p i l = rw (tx, g, p, proof_of_panics r i l) refl

  -- `Tx` panics exactly where a proof is asked for a transaction whose block is no longer stored.
  pub tx-panic_iff :
      (hash : Bytes) (prove : Bool)
      → (ix.get hash ≡ panic → ⊥)
      → (tx s ix hash prove ≡ panic) ↔ (
          (r : TxResult) × ((ix.get hash ≡ ok (some r))
            × (prove ≡ true)
            × (r.index ≤ max_int32)
            × (s.load_block r.height ≡ none)))
  tx-panic_iff hash prove calm =
      ((λ e. tx-panic hash prove calm e), (λ (r, (g, p, i, l)). tx_panics hash prove r g p i l))

  answers : (r : TxResult) → answer_tx s ix false r ≡ ok (describe s ix (ix.hash r.tx) none r)
  unfolding answer_tx proof_of
  answers r = refl

  -- `TxSearch` with no proof and in an order that is known, where the query is read and the index answers
  -- with fewer than 2^63 results: the answer has the results on the page that is asked for of a list in
  -- which the results of the index stand by height and index, ascending, or descending for `desc`; and
  -- their number; it fails where there is no such page. `sort.Slice` sorts.
  pub tx_search_page :
      SortsSlice ix
      → (query : Bytes) (page per_page : Option ℤ) (order : OrderBy) → order ≢ OrderBy.unknown
      → {q : ix.Query} → ix.new_query query ≡ ok q
      → {found : List TxResult} → ix.search_txs q ≡ ok found
      → length found < int64_limit
      → (results : List TxResult) × Permᴰ results found
        × InOrder order results
        × (tx_search s ix query false page per_page order ≡ (
            expected page (magnitude (validate_per_page per_page)) results >>= λ here. ok (record {
              txs = map (λ r. describe s ix (ix.hash r.tx) none r) here;
              total_count = length found;
            })))
  unfolding tx_search
  tx_search_page sorts query page per_page order known asked {found} got small =
      let (results, sorted, same, in_order) = sort_txs-InOrder s ix sorts order known found in
      let count = length-Permᴰ same in
      let cut = paginate_lem page per_page results (omega (arith, count)) in
      (
        results,
        same,
        in_order,
        rw (asked, got, sorted, cut, count)
            (>>=_congr (expected page (magnitude (validate_per_page per_page)) results) (λ here _.
              ap (λ o. o >>= λ txs. ok (record { txs = txs; total_count = length found }))
                (each_ok (answer_tx s ix false) (λ r. describe s ix (ix.hash r.tx) none r) answers
                  here))),
      )
