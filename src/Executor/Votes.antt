-- ===== src/Executor/Votes.antt =====
-- `ExtendVote` and `VerifyVoteExtension` (vm/types/state/executor.go). The two answers of the application
-- that only they ask for, and `Block.HashesTo`, are parameters.
use slide_sdk.Common.{
  ℕ, ◌≡◌, ◌↔◌, inl, inr, refl, Bool, true, not, List, Bytes, if◌then◌else◌, arith,
}
use slide_sdk.Common.Int.{ℤ, eqb_ℤ}
use slide_sdk.Common.Outcome.{ok, err, panic, Outcome-cases}
use slide_sdk.Chain.Types.{BlockId, Block, State, CommitInfo, Result, invalid_vote_extension}
use slide_sdk.Chain.Library.{Library}
use slide_sdk.Executor.World.{World, Trace, Verdict, accept, reject, unknown, panic_on_error}
use slide_sdk.Executor.CommitInfo.{build_last_commit_info_from_store}

-- `types.Vote`, with the fields that are read
pub record Vote : Type 0 where
  pub block_id : BlockId
  pub height : ℤ
  pub validator_address : Bytes
  pub extension : Bytes

-- `abci.RequestExtendVote`
pub record ExtendVoteRequest : Type 0 where
  pub hash : Bytes
  pub height : ℤ
  pub time : ℕ
  pub txs : List Bytes
  pub proposed_last_commit : CommitInfo
  pub misbehavior : List Bytes
  pub next_validators_hash : Bytes
  pub proposer_address : Bytes

-- `abci.RequestVerifyVoteExtension`
pub record VerifyVoteRequest : Type 0 where
  pub hash : Bytes
  pub validator_address : Bytes
  pub height : ℤ
  pub vote_extension : Bytes

pub record VoteApp : Type 0 where
  pub hashes_to : Block → Bytes → Bool
  pub extend_vote : ExtendVoteRequest → Result Bytes
  pub verify_vote_extension : VerifyVoteRequest → Result Verdict

module _ (app : VoteApp) where
  abbrev pub verify_request : Vote → VerifyVoteRequest
  verify_request v = record {
    hash = v.block_id.hash;
    validator_address = v.validator_address;
    height = v.height;
    vote_extension = v.extension;
  }

  -- the two tests of the answer
  abbrev pub verdict_result : Verdict → Result (Unit {0})
  verdict_result accept = ok tt
  verdict_result reject = err invalid_vote_extension
  verdict_result unknown = panic

  -- `VerifyVoteExtension`
  unfoldable pub verify_vote_extension : Vote → Result (Unit {0})
  verify_vote_extension v = elim (app.verify_vote_extension (verify_request v)) [
    | ok verdict ↦ verdict_result verdict
    | err e ↦ panic
    | panic ↦ panic
  ]

  abbrev pub extend_request : Vote → Block → CommitInfo → ExtendVoteRequest
  extend_request v b info = record {
    hash = v.block_id.hash;
    height = v.height;
    time = b.header.time;
    txs = b.txs;
    proposed_last_commit = info;
    misbehavior = b.evidence;
    next_validators_hash = b.header.next_validators_hash;
    proposer_address = b.header.proposer_address;
  }

  module _ (lib : Library) (w : World) where
    -- `ExtendVote`
    unfoldable pub extend_vote : Vote → Block → State → Trace → Result Bytes
    extend_vote v b s tr =
        if not (app.hashes_to b v.block_id.hash)
        then panic
        else if not (eqb_ℤ v.height b.header.height)
        then panic
        else elim (build_last_commit_info_from_store lib w b s.initial_height tr).0 [
          | ok info ↦ panic_on_error (app.extend_vote (extend_request v b info))
          | err e ↦ panic
          | panic ↦ panic
        ]

    answered :
        (v : Vote) (b : Block) (s : State) (tr : Trace) (extension : Bytes)
        → extend_vote v b s tr ≡ ok extension
        → (info : CommitInfo) × (((build_last_commit_info_from_store lib w b s.initial_height tr).0
              ≡ ok info)
            × (app.extend_vote (extend_request v b info) ≡ ok extension))
    unfolding extend_vote
    answered v b s tr extension h =
        elim (Outcome-cases (build_last_commit_info_from_store lib w b s.initial_height tr).0) [
          | inl (info, read) ↦ (
            info,
            (
              read,
              elim (Outcome-cases (app.extend_vote (extend_request v b info))) [
                | inl (x, answer) ↦ ground arith
                | inr (inl (e, failed)) ↦ absurd (ground arith)
                | inr (inr failed) ↦ absurd (ground arith)
              ],
            ),
          )
          | inr (inl (e, failed)) ↦ absurd (ground arith)
          | inr (inr failed) ↦ absurd (ground arith)
        ]

    -- `ExtendVote` returns the application's extension exactly where the vote names the block by its hash and
    -- height, the commit of the block was read, and the application answers.
    pub extend_vote-ok_iff :
        (v : Vote) (b : Block) (s : State) (tr : Trace) (extension : Bytes)
        → (extend_vote v b s tr ≡ ok extension) ↔ (
            (app.hashes_to b v.block_id.hash ≡ true)
            × (v.height ≡ b.header.height)
            × ((info : CommitInfo) × (((build_last_commit_info_from_store lib w b s.initial_height
                      tr).0
                    ≡ ok info)
                  × (app.extend_vote (extend_request v b info) ≡ ok extension))))
    unfolding extend_vote
    extend_vote-ok_iff v b s tr extension = (
      (λ h. (ground arith, ground arith, answered v b s tr extension h)),
      (λ (hashes, height, (info, (read, answer))).
          let same : eqb_ℤ v.height b.header.height ≡ true = ground arith in
          rw (extend_vote, hashes, same, read, answer) refl),
    )
