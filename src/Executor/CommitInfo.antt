-- ===== src/Executor/CommitInfo.antt =====
-- The votes that an application is told of (vm/types/state/executor.go: the functions
-- `buildLastCommitInfoFromStore` to `BuildExtendedCommitInfo`).
pub mod Votes
use slide_sdk.Common.{
  ℕ, Bool, true, false, not, ◌&&◌, Option, none, some, List, [], ◌∷◌, Bytes, bytes_eq, length, ◌==◌,
  if◌then◌else◌,
}
use slide_sdk.Common.Int.{ℤ, pos, eqb_ℤ, ltb_ℤ, sub_int64}
use slide_sdk.Common.Outcome.{ok, err, panic, ◌>>=◌}
use slide_sdk.Chain.Types.{
  Block, CommitSig, ExtendedCommit, ExtendedCommitSig, flag_absent, Validator, ValidatorSet,
  VoteInfo, CommitInfo, ExtendedVoteInfo, ExtendedCommitInfo, Result,
}
use slide_sdk.Chain.Library.{Library}
use slide_sdk.Executor.World.{World, Exec, read, panic_on_error}

-- the empty records that stand for no commit
abbrev pub no_commit : CommitInfo
no_commit = record { round = pos 0; votes = [] }

abbrev pub no_extended_commit : ExtendedCommitInfo
no_extended_commit = record { round = pos 0; votes = [] }

module _ (lib : Library) where
  -- the loop over the validators; a missing signature is an index out of range
  unfoldable pub votes_of : List Validator → List CommitSig → Result (List VoteInfo)
  votes_of [] sigs = ok []
  votes_of (v ∷ vs) [] = panic
  votes_of (v ∷ vs) (sig ∷ sigs) = do
    votes ← votes_of vs sigs
    ok (record { validator = lib.validator_to_abci v; block_id_flag = sig.block_id_flag } ∷ votes)

  unfoldable pub build_last_commit_info : Block → ValidatorSet → ℤ → Result CommitInfo
  build_last_commit_info b vals initial =
      if eqb_ℤ b.header.height initial
      then ok no_commit
      else if length b.last_commit.signatures == length vals.validators
      then (do
        votes ← votes_of vals.validators b.last_commit.signatures
        ok (record { round = b.last_commit.round; votes = votes }))
      else panic

  unfoldable pub build_last_commit_info_from_store : World → Block → ℤ → Exec CommitInfo
  build_last_commit_info_from_store w b initial = read λ tr.
      if eqb_ℤ b.header.height initial then ok no_commit else do
        vals ← panic_on_error (w.load_validators tr (sub_int64 b.header.height (pos 1)))
        build_last_commit_info b vals initial

  -- the body of the loop over the extended votes
  unfoldable pub extended_vote :
      ExtendedCommit → Bytes → Validator → ExtendedCommitSig → Result ExtendedVoteInfo
  extended_vote ec abci_params v ecs =
      if not (ecs.commit_sig.block_id_flag == flag_absent)
        && not (bytes_eq ecs.commit_sig.validator_address v.address)
      then panic
      else elim (lib.ensure_extension ecs (lib.vote_extensions_enabled abci_params ec.height)) [
        | some e ↦ panic
        | none ↦ ok (record {
          validator = lib.validator_to_abci v;
          block_id_flag = ecs.commit_sig.block_id_flag;
          vote_extension = ecs.extension;
          extension_signature = ecs.extension_signature;
        })
      ]

  unfoldable pub extended_votes_of :
      ExtendedCommit
      → Bytes
      → List Validator
      → List ExtendedCommitSig
      → Result (List ExtendedVoteInfo)
  extended_votes_of ec abci_params [] sigs = ok []
  extended_votes_of ec abci_params (v ∷ vs) [] = panic
  extended_votes_of ec abci_params (v ∷ vs) (ecs ∷ sigs) = do
    vote ← extended_vote ec abci_params v ecs
    votes ← extended_votes_of ec abci_params vs sigs
    ok (vote ∷ votes)

  unfoldable pub build_extended_commit_info :
      ExtendedCommit → ValidatorSet → ℤ → Bytes → Result ExtendedCommitInfo
  build_extended_commit_info ec vals initial abci_params =
      if ltb_ℤ ec.height initial
      then ok no_extended_commit
      else if length ec.extended_signatures == length vals.validators
      then (do
        votes ← extended_votes_of ec abci_params vals.validators ec.extended_signatures
        ok (record { round = ec.round; votes = votes }))
      else panic

  unfoldable pub build_extended_commit_info_from_store :
      World → ExtendedCommit → ℤ → Bytes → Exec ExtendedCommitInfo
  build_extended_commit_info_from_store w ec initial abci_params = read λ tr.
      if ltb_ℤ ec.height initial then ok no_extended_commit else do
        vals ← panic_on_error (w.load_validators tr ec.height)
        build_extended_commit_info ec vals initial abci_params
