-- ===== src/Vm/Blocks.antt =====
-- The handlers of blocks (vm/vm.go: `ParseBlock`, `GetBlock`, `BatchedParseBlock`,
-- `GetBlockIDAtHeight`, `BlockVerify`, `BlockReject`).
use slide_sdk.Common.{ℕ, Option, none, some, List, [], ◌∷◌, Bytes, get_elem?, set}
use slide_sdk.Common.Int.{to_uint64, to_int64}
use slide_sdk.Common.Outcome.{err}
use slide_sdk.Chain.Types.{
  Status, unspecified, processing, rejected, accepted, Block, unexpected_status, not_found,
}
use slide_sdk.Chain.Library.{Library}
use slide_sdk.Chain.Validate.{encode_block_with_status, decode_block_with_status, validate_block}
use slide_sdk.Executor.World.{World, ask}
use slide_sdk.Vm.Storage.{
  Caches, Storage, WrappedBlock, get_cached_block, allocate, put_decided, put_unverified,
  evict_unverified, evict_missing, put_missing, put_verified, delete_verified,
}
use slide_sdk.Vm.Machine.{
  Handler, to_id, lift, gets, pure, exec, on_storage, change_storage, load, ◌>>=◌, ◌>>◌,
}

-- `ParseBlockResponse`.
pub record ParseResponse : Type 0 where
  pub id : Bytes
  pub parent_id : Bytes
  pub status : Status
  pub height : ℕ
  pub timestamp : ℕ

-- `GetBlockResponse`: `ERROR_NOT_FOUND` or a block.
pub data GetResponse : Type 0 where
  missing : GetResponse
  found : Bytes → Bytes → Status → ℕ → ℕ → GetResponse

abbrev pub parse_response : Library → WrappedBlock → ParseResponse
parse_response lib b = record {
  id = lib.block_hash b.block;
  parent_id = b.block.header.last_block_id.hash;
  status = b.status;
  height = to_uint64 b.block.header.height;
  timestamp = b.block.header.time;
}

module _ {c : Caches} where
  -- the `switch` on the status of a block that is put into a cache
  unfoldable pub put_by_status : Bytes → ℕ → Status → Handler c (Unit {0})
  put_by_status id r accepted = change_storage (put_decided id r)
  put_by_status id r rejected = change_storage (put_decided id r)
  put_by_status id r processing = change_storage (put_unverified id r)
  put_by_status id r unspecified = lift (err (unexpected_status unspecified))
  put_by_status id r (Status.other n) = lift (err (unexpected_status (Status.other n)))

  unfoldable pub get_cached_id : Bytes → Storage c → Option Bytes × Storage c
  get_cached_id bytes s =
      let (id, m) = c.ids.get bytes s.bytes_to_id in (id, record s { bytes_to_id = m })

  unfoldable pub put_id : Bytes → Bytes → Storage c → Storage c
  put_id bytes id s = record s { bytes_to_id = c.ids.put tt bytes id s.bytes_to_id }

  unfoldable pub get_missing : Bytes → Storage c → Option (Unit {0}) × Storage c
  get_missing id s = let (m, n) = c.missing.get id s.missing in (m, record s { missing = n })

  -- `blk.Status = REJECTED`, a write to a shared object
  unfoldable pub set_rejected : ℕ → Storage c → Storage c
  set_rejected r s = record s {
    objects = elim (get_elem? s.objects r) [
      | some b ↦ set s.objects r (record b { status = rejected })
      | none ↦ s.objects
    ];
  }

  -- the branch of `ParseBlock` where no cache holds the block; where the identifier was cached the
  -- block is nil and the status is the zero value
  unfoldable pub register : Bytes → Option (Block × Status) → Handler c WrappedBlock
  register id none = lift (err (unexpected_status unspecified))
  register id (some (b, status)) = do
    r ← on_storage (allocate (record { block = b; status = status }))
    put_by_status id r status
    change_storage (evict_missing id)
    pure (record { block = b; status = status })

  -- `BlockReject` after the read of the caches
  unfoldable pub reject_cached : Bytes → Option ℕ → Handler c (Unit {0})
  reject_cached id none = lift (err not_found)
  reject_cached id (some r) = do
    change_storage (set_rejected r)
    change_storage (delete_verified id)
    change_storage (put_decided id r)

  unfoldable pub block_reject : Bytes → Handler c (Unit {0})
  block_reject requested = do
    id ← lift (to_id requested)
    cached ← on_storage (get_cached_block id)
    reject_cached id cached

module _ (lib : Library) {c : Caches} where
  -- the branch of `ParseBlock` where the bytes have no cached identifier
  unfoldable pub decode_bytes : Bytes → Handler c (Bytes × Option (Block × Status))
  decode_bytes bytes = do
    (b, status) ← lift (decode_block_with_status lib bytes)
    id ← lift (to_id (lib.block_hash b))
    change_storage (put_id bytes id)
    pure (id, some (b, status))

  -- the identifier of the bytes, with the block if they had to be decoded
  unfoldable pub identify : Bytes → Handler c (Bytes × Option (Block × Status))
  identify bytes = do
    cached ← on_storage (get_cached_id bytes)
    elim cached [ some id ↦ pure (id, none) | none ↦ decode_bytes bytes ]

  unfoldable pub parse_block : Bytes → Handler c ParseResponse
  parse_block bytes = do
    (id, decoded) ← identify bytes
    cached ← on_storage (get_cached_block id)
    b ← elim cached [ some r ↦ load r | none ↦ register id decoded ]
    pure (parse_response lib b)

  unfoldable pub batched_parse_block : List Bytes → Handler c (List ParseResponse)
  batched_parse_block [] = pure []
  batched_parse_block (bytes ∷ rest) = do
    response ← parse_block bytes
    responses ← batched_parse_block rest
    pure (response ∷ responses)

  -- the part of `GetBlock` after the block is at hand
  unfoldable pub serve_block : Bytes → ℕ → Handler c GetResponse
  serve_block id r = do
    b ← load r
    put_by_status id r b.status
    bytes ← lift (encode_block_with_status lib b.block b.status)
    pure (
        GetResponse.found b.block.header.last_block_id.hash bytes b.status
          (to_uint64 b.block.header.height) b.block.header.time)

  unfoldable pub block_verify : Bytes → Handler c ℕ
  block_verify bytes = do
    (b, status) ← lift (decode_block_with_status lib bytes)
    state ← gets (λ vm. vm.state)
    lift (validate_block lib state b)
    id ← lift (to_id (lib.block_hash b))
    change_storage (evict_unverified id)
    r ← on_storage (allocate (record { block = b; status = status }))
    change_storage (put_verified id r)
    pure b.header.time

module _ (lib : Library) (w : World) {c : Caches} where
  -- the branch of `GetBlock` after the store of blocks is read
  unfoldable pub get_stored_block : Bytes → Option Block → Handler c GetResponse
  get_stored_block id none = do change_storage (put_missing id); pure GetResponse.missing
  get_stored_block id (some b) = do
    r ← on_storage (allocate (record { block = b; status = accepted }))
    serve_block lib id r

  -- the branch after the cache of missing blocks is read
  unfoldable pub get_unknown_block : Bytes → Option (Unit {0}) → Handler c GetResponse
  get_unknown_block id (some _) = pure GetResponse.missing
  get_unknown_block id none = do
    stored ← exec (ask (λ tr. w.load_block_by_hash tr id))
    get_stored_block id stored

  -- the branch after the caches of blocks are read
  unfoldable pub get_cached : Bytes → Option ℕ → Handler c GetResponse
  get_cached id (some r) = serve_block lib id r
  get_cached id none = do known ← on_storage (get_missing id); get_unknown_block id known

  unfoldable pub get_block : Bytes → Handler c GetResponse
  get_block requested = do
    id ← lift (to_id requested)
    cached ← on_storage (get_cached_block id)
    get_cached id cached

  -- `GetBlockIDAtHeight`; `none` is `ERROR_NOT_FOUND`
  unfoldable pub get_block_id_at_height : ℕ → Handler c (Option Bytes)
  get_block_id_at_height height = do
    stored ← exec (ask (λ tr. w.load_block tr (to_int64 height)))
    pure (elim stored [ none ↦ none | some b ↦ some (lib.block_hash b) ])
