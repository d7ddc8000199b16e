-- ===== src/Rpc/Search.antt =====
-- `Tx`, `TxSearch` and `BlockSearch` (vm/rpc.go). The indexes, the query language, `sort.Slice` and the
-- proofs of inclusion are parameters.
pub mod Sorted
pub mod Answers
use slide_sdk.Common.{
  ℕ, Bool, true, false, Option, none, some, List, [], ◌∷◌, Bytes, length, ltb, if◌then◌else◌,
}
use slide_sdk.Common.Int.{ℤ, eqb_ℤ, ltb_ℤ}
use slide_sdk.Common.Outcome.{Outcome, ok, err, panic, ◌>>=◌}
use slide_sdk.Chain.Types.{Block, BlockId}
use slide_sdk.Rpc.{RpcError}
use slide_sdk.Rpc.Pages.{paginate}
use slide_sdk.Rpc.Blocks.{Stores, ResultBlock}

-- `abci.TxResult`; an index is a `uint32`
pub record TxResult : Type 0 where
  pub height : ℤ
  pub index : ℕ
  pub tx : Bytes
  pub result : Bytes

-- `ResultTx`
pub record ResultTx : Type 0 where
  pub hash : Bytes
  pub height : ℤ
  pub index : ℕ
  pub tx_result : Bytes
  pub tx : Bytes
  pub proof : Option Bytes

pub record ResultTxSearch : Type 0 where
  pub txs : List ResultTx
  pub total_count : ℕ

pub record ResultBlockSearch : Type 0 where
  pub blocks : List ResultBlock
  pub total_count : ℕ

-- `orderBy`: the strings that are tested, and any other
pub data OrderBy : Type 0 where
  desc asc unset unknown : OrderBy

pub record Indexes : Type 1 where
  pub Query : Type 0
  pub new_query : Bytes → Outcome RpcError Query
  pub get : Bytes → Outcome RpcError (Option TxResult)
  pub search_txs : Query → Outcome RpcError (List TxResult)
  pub search_blocks : Query → Outcome RpcError (List ℤ)
  pub sort_slice : {A : Type 0} → (A → A → Bool) → List A → List A
  pub proof : Block → ℕ → Bytes
  pub hash : Bytes → Bytes

-- `math.MaxInt32`
abbrev pub max_int32 : ℕ
max_int32 = 2147483647

-- the functions that are passed to `sort.Slice`
abbrev pub tx_after : TxResult → TxResult → Bool
tx_after a b = if eqb_ℤ a.height b.height then ltb b.index a.index else ltb_ℤ b.height a.height

abbrev pub tx_before : TxResult → TxResult → Bool
tx_before a b = if eqb_ℤ a.height b.height then ltb a.index b.index else ltb_ℤ a.height b.height

-- a loop whose body may return early with an error
pub each : {A B : Type 0} → (A → Outcome RpcError B) → List A → Outcome RpcError (List B)
each f [] = ok []
each f (x ∷ xs) = let rest = each f xs in f x >>= λ y. rest >>= λ ys. ok (y ∷ ys)

module _ (s : Stores) (ix : Indexes) where
  -- the proof, if one is asked for: the index is tested before the block, which may be nil, is read
  unfoldable pub proof_of : Bool → TxResult → Outcome RpcError (Option Bytes)
  proof_of prove r =
      if prove
      then if ltb max_int32 r.index
        then err RpcError.index_overflows
        else elim (s.load_block r.height) [ none ↦ panic | some b ↦ ok (some (ix.proof b r.index)) ]
      else ok none

  abbrev pub describe : Bytes → Option Bytes → TxResult → ResultTx
  describe hash proof r = record {
    hash = hash;
    height = r.height;
    index = r.index;
    tx_result = r.result;
    tx = r.tx;
    proof = proof;
  }

  -- `Tx`
  unfoldable pub tx : Bytes → Bool → Outcome RpcError ResultTx
  tx hash prove = ix.get hash >>= λ found. elim found [
    | none ↦ err RpcError.tx_not_found
    | some r ↦ proof_of prove r >>= λ p. ok (describe hash p r)
  ]

  -- the body of the loop of `TxSearch`
  unfoldable pub answer_tx : Bool → TxResult → Outcome RpcError ResultTx
  answer_tx prove r = proof_of prove r >>= λ p. ok (describe (ix.hash r.tx) p r)

  unfoldable pub sort_txs : OrderBy → List TxResult → Outcome RpcError (List TxResult)
  sort_txs OrderBy.desc rs = ok (ix.sort_slice tx_after rs)
  sort_txs OrderBy.asc rs = ok (ix.sort_slice tx_before rs)
  sort_txs OrderBy.unset rs = ok (ix.sort_slice tx_before rs)
  sort_txs OrderBy.unknown rs = err RpcError.bad_order

  -- `TxSearch`
  unfoldable pub tx_search :
      Bytes → Bool → Option ℤ → Option ℤ → OrderBy → Outcome RpcError ResultTxSearch
  tx_search query prove page per_page order = ix.new_query query >>= λ q.
      ix.search_txs q >>= λ found. sort_txs order found >>= λ results.
      paginate page per_page results >>= λ here.
      each (answer_tx prove) here >>= λ txs. ok (record { txs = txs; total_count = length results })

  unfoldable pub sort_heights : OrderBy → List ℤ → Outcome RpcError (List ℤ)
  sort_heights OrderBy.desc hs = ok (ix.sort_slice (λ a b. ltb_ℤ b a) hs)
  sort_heights OrderBy.unset hs = ok (ix.sort_slice (λ a b. ltb_ℤ b a) hs)
  sort_heights OrderBy.asc hs = ok (ix.sort_slice (λ a b. ltb_ℤ a b) hs)
  sort_heights OrderBy.unknown hs = err RpcError.bad_order

  -- the loop of `BlockSearch`, which passes over the heights that are not stored
  unfoldable pub blocks_at : List ℤ → List ResultBlock
  blocks_at [] = []
  blocks_at (h ∷ hs) =
      let rest = blocks_at hs in
      elim (s.load_block h) [
        | none ↦ rest
        | some b ↦ elim (s.load_block_meta b.header.height) [
          | none ↦ rest
          | some m ↦ record { block_id = m.block_id; block = some b } ∷ rest
        ]
      ]

  -- `BlockSearch`
  unfoldable pub block_search :
      Bytes → Option ℤ → Option ℤ → OrderBy → Outcome RpcError ResultBlockSearch
  block_search query page per_page order = ix.new_query query >>= λ q.
      ix.search_blocks q >>= λ found. sort_heights order found >>= λ results.
      paginate page per_page results >>= λ here.
      ok (record { blocks = blocks_at here; total_count = length results })
