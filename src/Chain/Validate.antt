-- ===== src/Chain/Validate.antt =====
-- `ValidateBlock`, `MedianTime` and the codec of blocks (vm/types/state/utils.go).
pub mod Accepts
pub mod RoundTrip
use mathlib.Core.Option
use slide_sdk.Common.{
  ℕ, ◌≡◌, refl, Bool, true, false, not, ◌&&◌, ◌||◌, Option, none, some, List, [], ◌∷◌, map, Bytes,
  bytes_eq, length, ◌==◌, ltb, leb, if◌then◌else◌,
}
use slide_sdk.Common.Int.{ℤ, pos, eqb_ℤ, ltb_ℤ, add_int64}
use slide_sdk.Common.Outcome.{ok, err, ◌>>=◌}
use slide_sdk.Chain.Types.{
  Status, CommitSig, Commit, flag_absent, Validator, ValidatorSet, Block, State, Error, Result,
  wrong_version, wrong_chain_id, wrong_initial_height, wrong_height, wrong_last_block_id,
  wrong_app_hash, wrong_consensus_hash, wrong_last_results_hash, wrong_validators_hash,
  wrong_next_validators_hash, initial_commit_signatures, bad_proposer_address, time_before_last,
  wrong_median_time, wrong_genesis_time, below_initial_height, evidence_overflow,
}
use slide_sdk.Chain.Library.{Library, WeightedTime}

-- `if bad { return e }`, and what follows it.
unfoldable pub refuse {ℓ} : {A : Type ℓ} → Bool → A → A → A
refuse true e rest = e
refuse false e rest = rest

-- `if err := check; err != nil { return err }`.
unfoldable pub refuse_error : Option Error → Result (Unit {0}) → Result (Unit {0})
refuse_error none rest = rest
refuse_error (some e) rest = err e

module _ (lib : Library) where
  -- the vote of one signature in the weighted median; `none` is the nil entry that is left
  unfoldable pub weigh : ValidatorSet → CommitSig → Option WeightedTime
  weigh vals sig =
      if sig.block_id_flag == flag_absent
      then none
      else Option.map (λ v. record { time = sig.timestamp; weight = v.voting_power })
          (lib.get_by_address vals sig.validator_address)

  unfoldable pub voting_power_of : ValidatorSet → CommitSig → ℤ
  voting_power_of vals sig =
      if sig.block_id_flag == flag_absent
      then pos 0
      else elim (lib.get_by_address vals sig.validator_address) [
        | none ↦ pos 0
        | some v ↦ v.voting_power
      ]

  -- the loop of `MedianTime` over the total
  unfoldable pub total_voting_power : ValidatorSet → ℤ → List CommitSig → ℤ
  total_voting_power vals total [] = total
  total_voting_power vals total (sig ∷ sigs) =
      total_voting_power vals (add_int64 total (voting_power_of vals sig)) sigs

  unfoldable pub median_time : Commit → ValidatorSet → ℕ
  median_time commit vals =
      lib.weighted_median (map (weigh vals) commit.signatures)
        (total_voting_power vals (pos 0) commit.signatures)

  -- the `switch` on the height
  unfoldable pub validate_time : State → Block → Result (Unit {0}) → Result (Unit {0})
  validate_time s b rest =
      if ltb_ℤ s.initial_height b.header.height
      then refuse (ltb b.header.time s.last_block_time) (err time_before_last) (
          refuse (not (b.header.time == median_time b.last_commit s.last_validators))
            (err wrong_median_time) rest)
      else if eqb_ℤ b.header.height s.initial_height
      then refuse (not (b.header.time == s.last_block_time)) (err wrong_genesis_time) rest
      else err below_initial_height

  -- the part from `Validate app info` to `Validate block LastCommit`
  unfoldable pub validate_hashes : State → Block → Result (Unit {0}) → Result (Unit {0})
  validate_hashes s b rest =
      refuse (not (bytes_eq b.header.app_hash s.app_hash)) (err wrong_app_hash) (
        refuse (not (bytes_eq b.header.consensus_hash (lib.params_hash s.consensus_params)))
          (err wrong_consensus_hash)
          (refuse (not (bytes_eq b.header.last_results_hash s.last_results_hash))
            (err wrong_last_results_hash)
            (refuse (not (bytes_eq b.header.validators_hash (lib.validators_hash s.validators)))
              (err wrong_validators_hash)
              (refuse
                (not
                  (bytes_eq b.header.next_validators_hash (lib.validators_hash s.next_validators)))
                (err wrong_next_validators_hash) rest))))

  -- the part from `Validate basic info` to `Validate prev block info`
  unfoldable pub validate_info : State → Block → Result (Unit {0}) → Result (Unit {0})
  validate_info s b rest =
      refuse
        (not (b.header.version_app == s.version_app)
          || not (b.header.version_block == s.version_block))
        (err wrong_version)
        (refuse (not (bytes_eq b.header.chain_id s.chain_id)) (err wrong_chain_id) (
          refuse (eqb_ℤ s.last_block_height (pos 0) && not (eqb_ℤ b.header.height s.initial_height))
            (err wrong_initial_height)
            (refuse
              (ltb_ℤ (pos 0) s.last_block_height
                && not (eqb_ℤ b.header.height (add_int64 s.last_block_height (pos 1))))
              (err wrong_height)
              (refuse (not (lib.block_id_equals b.header.last_block_id s.last_block_id))
                (err wrong_last_block_id) rest))))

  unfoldable pub validate_block : State → Block → Result (Unit {0})
  validate_block s b =
      let max = s.consensus_params.evidence_max_bytes in
      let got = lib.evidence_byte_size b.evidence in
      refuse_error (lib.validate_basic b) (
        validate_info s b (
          validate_hashes s b (
            refuse
              (eqb_ℤ b.header.height s.initial_height && not (length b.last_commit.signatures == 0))
              (err initial_commit_signatures)
              (refuse (not (length b.header.proposer_address == 20)) (err bad_proposer_address) (
                validate_time s b
                  (refuse (ltb_ℤ max got) (err (evidence_overflow max got)) (ok tt)))))))

  unfoldable pub encode_block : Block → Result Bytes
  encode_block b = do proto ← lib.block_to_proto b; lib.marshal_proto proto

  unfoldable pub decode_block : Bytes → Result Block
  decode_block bytes = do proto ← lib.unmarshal_proto bytes; lib.block_from_proto proto

  unfoldable pub encode_block_with_status : Block → Status → Result Bytes
  unfolding encode_block
  encode_block_with_status b status = do bytes ← encode_block b; lib.json_marshal bytes status

  unfoldable pub decode_block_with_status : Bytes → Result (Block × Status)
  unfolding decode_block
  decode_block_with_status bytes = do
    wrapped ← lib.json_unmarshal bytes
    b ← decode_block wrapped.block
    ok (b, wrapped.status)
