-- ===== src/Executor/CommitInfo/Votes.antt =====
-- The votes that `BuildLastCommitInfo` reports.
use mathlib.Core.List.{zip}
use slide_sdk.Common.{◌≡◌, ◌≢◌, refl, ◌↔◌, List, [], ◌∷◌, map, length, arith}
use slide_sdk.Common.Int.{ℤ, eqb_ℤ_iff}
use slide_sdk.Common.Outcome.{ok, panic}
use slide_sdk.Chain.Types.{Block, CommitSig, Validator, ValidatorSet, VoteInfo}
use slide_sdk.Chain.Library.{Library}
use slide_sdk.Executor.CommitInfo.{votes_of, build_last_commit_info}

module _ (lib : Library) where
  -- One vote for each validator, in the order of the set, with the flag of the signature beside it.
  pub paired_votes : List Validator → List CommitSig → List VoteInfo
  paired_votes vs sigs =
      map (λ p. record { validator = lib.validator_to_abci p.0; block_id_flag = p.1.block_id_flag })
        (zip vs sigs)

  votes_of-eq-paired_votes :
      (vs : List Validator) (sigs : List CommitSig)
      → length sigs ≡ length vs
      → votes_of lib vs sigs ≡ ok (paired_votes vs sigs)
  unfolding votes_of paired_votes zip
  votes_of-eq-paired_votes [] [] h = refl
  votes_of-eq-paired_votes [] (sig ∷ sigs) h = absurd (omega arith)
  votes_of-eq-paired_votes (v ∷ vs) [] h = absurd (omega arith)
  votes_of-eq-paired_votes (v ∷ vs) (sig ∷ sigs) h =
      rw (votes_of-eq-paired_votes vs sigs (omega arith))

  -- Above the initial height, with as many signatures as validators, `BuildLastCommitInfo` reports the
  -- round of the commit and one vote for each validator, in order.
  pub build_last_commit_info-eq-ok :
      (b : Block) (vals : ValidatorSet) (initial : ℤ)
      → b.header.height ≢ initial
      → length b.last_commit.signatures ≡ length vals.validators
      → build_last_commit_info lib b vals initial
        ≡ ok (record {
          round = b.last_commit.round;
          votes = paired_votes vals.validators b.last_commit.signatures;
        })
  unfolding build_last_commit_info
  build_last_commit_info-eq-ok b vals initial h k = ground (
    arith,
    eqb_ℤ_iff b.header.height initial,
    votes_of-eq-paired_votes vals.validators b.last_commit.signatures k,
  )

  -- `BuildLastCommitInfo` panics exactly when the block is not the initial one and its commit differs
  -- from the validator set in length: the loop over the validators is never out of range.
  pub build_last_commit_info-panic_iff :
      (b : Block) (vals : ValidatorSet) (initial : ℤ)
      → (build_last_commit_info lib b vals initial ≡ panic)
        ↔ ((b.header.height ≢ initial) × (length b.last_commit.signatures ≢ length vals.validators))
  unfolding build_last_commit_info
  build_last_commit_info-panic_iff b vals initial = (
    (λ h. (
      (λ e. ground (arith, eqb_ℤ_iff b.header.height initial)),
      (λ e. ground (arith, votes_of-eq-paired_votes vals.validators b.last_commit.signatures e)),
    )),
    (λ h. let (p, q) = h in ground (arith, eqb_ℤ_iff b.header.height initial)),
  )
