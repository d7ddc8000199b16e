-- ===== src/Vm/Storage.antt =====
-- `WrappedBlocksStorage` (vm/types/state/wrapped_block.go). A `*WrappedBlock` is an address in a list of
-- objects, since `BlockReject` writes to an object that several caches may share.
use slide_sdk.Common.{
  ℕ, Option, none, some, List, [], ◌∷◌, ◌++◌, Bytes, Bytes-discrete, length, get_elem?,
}
use slide_sdk.Common.Map
use slide_sdk.Chain.Types.{Block, Status}
use slide_sdk.Cache.Cacher.{Cacher}

pub record WrappedBlock : Type 0 where
  pub block : Block
  pub status : Status

-- The objects allocated so far, by address.
abbrev pub Objects : Type 0
Objects = List WrappedBlock

-- The implementations of the caches.
pub record Caches : Type 1 where
  pub blocks : Cacher Objects Bytes ℕ
  pub missing : Cacher (Unit {0}) Bytes (Unit {0})
  pub ids : Cacher (Unit {0}) Bytes Bytes

module _ (c : Caches) where
  pub record Storage : Type 0 where
    pub objects : Objects
    pub verified : List (Bytes × ℕ)
    pub decided : c.blocks.Cache
    pub unverified : c.blocks.Cache
    pub missing : c.missing.Cache
    pub bytes_to_id : c.ids.Cache

module _ {c : Caches} where
  -- `NewWrappedBlocksStorage`
  unfoldable pub new_storage : Storage c
  new_storage = record {
    objects = [];
    verified = [];
    decided = c.blocks.empty;
    unverified = c.blocks.empty;
    missing = c.missing.empty;
    bytes_to_id = c.ids.empty;
  }

  unfoldable pub flush : Storage c → Storage c
  flush s = record s {
    decided = c.blocks.flush s.decided;
    missing = c.missing.flush s.missing;
    unverified = c.blocks.flush s.unverified;
    bytes_to_id = c.ids.flush s.bytes_to_id;
  }

  -- the read of `UnverifiedBlocks`, and the two before it
  unfoldable pub cached_unverified : Bytes → Storage c → Option ℕ × Storage c
  cached_unverified id s =
      let (found, m) = c.blocks.get id s.unverified in (found, record s { unverified = m })

  unfoldable pub cached_decided : Bytes → Storage c → Option ℕ × Storage c
  cached_decided id s =
      let (found, m) = c.blocks.get id s.decided in
      let t : Storage c = record s { decided = m } in
      elim found [ some r ↦ (some r, t) | none ↦ cached_unverified id t ]

  unfoldable pub get_cached_block : Bytes → Storage c → Option ℕ × Storage c
  get_cached_block id s = elim (Map.lookup Bytes-discrete id s.verified) [
    | some r ↦ (some r, s)
    | none ↦ cached_decided id s
  ]

  -- `&WrappedBlock{…}`
  unfoldable pub allocate : WrappedBlock → Storage c → ℕ × Storage c
  allocate b s = (length s.objects, record s { objects = s.objects ++ b ∷ [] })

  abbrev pub dereference : ℕ → Storage c → Option WrappedBlock
  dereference r s = get_elem? s.objects r

  unfoldable pub put_decided : Bytes → ℕ → Storage c → Storage c
  put_decided id r s = record s { decided = c.blocks.put s.objects id r s.decided }

  unfoldable pub put_unverified : Bytes → ℕ → Storage c → Storage c
  put_unverified id r s = record s { unverified = c.blocks.put s.objects id r s.unverified }

  unfoldable pub evict_unverified : Bytes → Storage c → Storage c
  evict_unverified id s = record s { unverified = c.blocks.evict s.objects id s.unverified }

  unfoldable pub evict_missing : Bytes → Storage c → Storage c
  evict_missing id s = record s { missing = c.missing.evict tt id s.missing }

  unfoldable pub put_missing : Bytes → Storage c → Storage c
  put_missing id s = record s { missing = c.missing.put tt id tt s.missing }

  unfoldable pub put_verified : Bytes → ℕ → Storage c → Storage c
  put_verified id r s = record s { verified = Map.store Bytes-discrete id r s.verified }

  unfoldable pub delete_verified : Bytes → Storage c → Storage c
  delete_verified id s = record s { verified = Map.delete Bytes-discrete id s.verified }
