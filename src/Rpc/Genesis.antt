-- ===== src/Rpc/Genesis.antt =====
-- The genesis document in chunks: how `Initialize` cuts it (vm/vm.go) and how the RPC serves it
-- (vm/rpc.go). The base64 encoding is a parameter.
use slide_sdk.Common.{
  ℕ, zero, suc, ◌+◌, ◌-◌, ◌≤◌, ◌<◌, ◌≡◌, refl, sym, ap, ◌∙◌, Option, none, some, List, [], ◌∷◌,
  ◌++◌, Bytes, length, get_elem?, take, drop, ltb, if◌then◌else◌, arith, append-nil, dec_lt, lt→ltb,
  ge→ltb, take_all, drop_all, drop-drop, get_elem?_in, get_elem?_out, take-append-drop, length-drop,
}
use slide_sdk.Common.Int.{int64_limit, uint64_modulus, to_int64, pos, negsuc}
use slide_sdk.Common.Outcome.{Outcome, ok, err, panic}
use slide_sdk.Rpc.{RpcError}

-- `genesisChunkSize`
abbrev pub genesis_chunk_size : ℕ
genesis_chunk_size = 16777216

-- `req.GenesisBytes[i:end]`
unfoldable pub chunk_at : ℕ → ℕ → Bytes → Bytes
chunk_at size i bytes =
    let end = if ltb (length bytes) (i + size) then length bytes else i + size in
    take (end - i) (drop i bytes)

module _ (encode : Bytes → Bytes) where
  -- the loop from `i` on, with fuel; `none` when the fuel is used up
  unfoldable pub cut : ℕ → ℕ → ℕ → Bytes → Option (List Bytes)
  cut zero size i bytes = none
  cut (suc fuel) size i bytes =
      let rest = cut fuel size (i + size) bytes in
      if ltb i (length bytes)
      then (elim rest [
        | none ↦ none
        | some chunks ↦ some (encode (chunk_at size i bytes) ∷ chunks)
      ])
      else some []

-- `Genesis`
unfoldable pub serve_genesis : {A : Type 0} → List Bytes → A → Outcome RpcError A
serve_genesis chunks doc = if ltb 1 (length chunks) then err RpcError.genesis_is_large else ok doc

-- `ResultGenesisChunk`
pub record Chunk : Type 0 where
  pub total_chunks : ℕ
  pub chunk_number : ℕ
  pub chunk_data : Bytes

-- `GenesisChunked`, with `int(chunk)`, which is negative from 2 ^ 63 on
unfoldable pub genesis_chunked : List Bytes → ℕ → Outcome RpcError Chunk
genesis_chunked [] chunk = err RpcError.no_chunks
genesis_chunked (c ∷ cs) chunk = elim (to_int64 chunk) [
  | negsuc n ↦ err RpcError.bad_chunk
  | pos id ↦
      if ltb (length (c ∷ cs) - 1) id
      then err RpcError.bad_chunk
      else elim (get_elem? (c ∷ cs) id) [
        | none ↦ panic
        | some d ↦ ok (record { total_chunks = length (c ∷ cs); chunk_number = id; chunk_data = d })
      ]
]

-- a client that puts decoded chunks together
pub decode_all : (Bytes → Option Bytes) → List Bytes → Option Bytes
decode_all decode [] = some []
decode_all decode (c ∷ cs) = elim (decode c) [
  | none ↦ none
  | some b ↦ elim (decode_all decode cs) [ none ↦ none | some bs ↦ some (b ++ bs) ]
]

chunk_at_split :
    (size i : ℕ) (bytes : Bytes)
    → i < length bytes
    → chunk_at size i bytes ++ drop (i + size) bytes ≡ drop i bytes
unfolding chunk_at
chunk_at_split size i bytes h = elim (dec_lt (length bytes) (i + size)) [
  | yes lt ↦
      rw (lt→ltb (length bytes) (i + size) lt, drop_all (i + size) bytes (omega arith))
        (append-nil _
          ∙ take_all (length bytes - i) (drop i bytes) (omega (arith, length-drop i bytes)))
  | no ge ↦ rw (ge→ltb (length bytes) (i + size) (omega arith)) (
      ap (λ k. take k (drop i bytes) ++ drop (i + size) bytes) (omega arith)
      ∙ ap (λ d. take size (drop i bytes) ++ d) (sym (drop-drop i size bytes))
      ∙ take-append-drop size (drop i bytes))
]

module _ (encode : Bytes → Bytes) (decode : Bytes → Option Bytes)
    (decode-encode : (b : Bytes) → decode (encode b) ≡ some b) where
  cut_lem :
      (fuel size i : ℕ) (bytes : Bytes)
      → 1 ≤ size
      → length bytes ≤ i + fuel
      → (chunks : List Bytes) × ((cut encode (suc fuel) size i bytes ≡ some chunks)
          × (decode_all decode chunks ≡ some (drop i bytes)))
  unfolding cut decode_all
  cut_lem zero size i bytes p h =
      ([], (ground arith, ap some (sym (drop_all i bytes (omega arith)))))
  cut_lem (suc fuel) size i bytes p h = elim (dec_lt i (length bytes)) [
    | yes lt ↦
        let (rest, (c, d)) = cut_lem fuel size (i + size) bytes p (omega arith) in
        (
          encode (chunk_at size i bytes) ∷ rest,
          (
            ground (arith, c),
            rw (decode_all, decode-encode (chunk_at size i bytes), d)
                (ap some (chunk_at_split size i bytes lt)),
          ),
        )
    | no ge ↦ ([], (ground arith, ap some (sym (drop_all i bytes (omega arith)))))
  ]

  -- The loop that cuts the genesis document ends, and whoever decodes the chunks in their order has the
  -- document again.
  pub cut_round_trip :
      (bytes : Bytes)
      → (chunks : List Bytes) × ((cut encode (suc (length bytes)) genesis_chunk_size 0 bytes
            ≡ some chunks)
          × (decode_all decode chunks ≡ some bytes))
  cut_round_trip bytes =
      cut_lem (length bytes) genesis_chunk_size 0 bytes (omega arith) (omega arith)

-- `GenesisChunked` answers each of the chunks under its number, with their count, and an error for every
-- other number; it never panics.
pub genesis_chunked_lem :
    (chunks : List Bytes) (chunk : ℕ)
    → chunk < uint64_modulus
    → length chunks < int64_limit
    → genesis_chunked chunks chunk ≡ elim (get_elem? chunks chunk) [
      | some d ↦ ok (record { total_chunks = length chunks; chunk_number = chunk; chunk_data = d })
      | none ↦ err (elim chunks [ [] ↦ RpcError.no_chunks | c ∷ cs ↦ RpcError.bad_chunk ])
    ]
unfolding genesis_chunked to_int64
genesis_chunked_lem [] chunk h l = refl
genesis_chunked_lem (c ∷ cs) chunk h l = elim (dec_lt chunk (length (c ∷ cs))) [
  | yes lt ↦ let (d, e) = get_elem?_in (c ∷ cs) chunk lt in ground (arith, e)
  | no ge ↦ let e = get_elem?_out (c ∷ cs) chunk (omega arith) in ground (arith, e)
]
