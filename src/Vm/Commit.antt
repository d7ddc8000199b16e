-- ===== src/Vm/Commit.antt =====
-- What `BlockAccept` (vm/vm.go) calls: a block is executed, then stored with the commit of `MakeCommit`
-- (vm/types/commit/commit.go), and the new state is saved once more.
use slide_sdk.Common.{ℕ, [], ◌∷◌, map, Bytes, if◌then◌else◌}
use slide_sdk.Common.Int.{ℤ, pos, ltb_ℤ}
use slide_sdk.Chain.Types.{Block, BlockId, Commit, flag_commit, ValidatorSet, State}
use slide_sdk.Chain.Library.{Library}
use slide_sdk.Executor.World.{World, Event, Exec, call, lift, pure, panic_on_error, ◌>>=◌, ◌>>◌}
use slide_sdk.Executor.Apply.{apply_block}

unfoldable pub make_commit : ℤ → ℕ → ValidatorSet → BlockId → Commit
make_commit height timestamp vals id = record {
  height = height;
  round = pos 0;
  block_id = id;
  signatures =
      if ltb_ℤ (pos 1) height
      then map
          (λ v. record {
            block_id_flag = flag_commit;
            validator_address = v.address;
            timestamp = timestamp;
            signature = 0 ∷ [];
          })
          vals.validators
      else [];
}

module _ (lib : Library) (w : World) where
  -- `types.BlockID` of a block
  abbrev pub block_id_of : Block → Bytes → BlockId
  block_id_of b parts = record { hash = lib.block_hash b; part_set_header = parts }

  abbrev pub commit_of : State → Block → Bytes → Commit
  commit_of s b parts = make_commit b.header.height b.header.time s.validators (block_id_of b parts)

  -- `SaveBlock` returns no error: what goes wrong there is a panic
  unfoldable pub commit_block : State → Block → Exec State
  commit_block s b = do
    parts ← lift (lib.part_set_header b)
    t ← apply_block lib w s (block_id_of b parts) b
    call (Event.save_block b parts (commit_of s b parts))
        (λ tr. panic_on_error (w.save_block tr b parts (commit_of s b parts)))
    call (Event.save_state t) (λ tr. w.save_state tr t)
    pure t
