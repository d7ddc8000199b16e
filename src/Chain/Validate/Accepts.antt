-- ===== src/Chain/Validate/Accepts.antt =====
-- When `ValidateBlock` accepts a block: every condition, with no order among them.
use slide_sdk.Common.{◌≤◌, ◌≡◌, refl, ◌↔◌, Bool, true, false, Option, none, some, length, arith}
use slide_sdk.Common.Int.{pos, ◌<ℤ◌, ◌≤ℤ◌, add_int64}
use slide_sdk.Common.Outcome.{ok, err}
use slide_sdk.Chain.Types.{Block, State, Error, Result}
use slide_sdk.Chain.Library.{Library}
use slide_sdk.Chain.Validate.{
  refuse, refuse_error, validate_info, validate_hashes, validate_time, validate_block, median_time,
}

-- The block follows the state in height, chain and version.
pub record Follows (lib : Library) (s : State) (b : Block) : Type 0 where
  pub version_app : b.header.version_app ≡ s.version_app
  pub version_block : b.header.version_block ≡ s.version_block
  pub chain_id : b.header.chain_id ≡ s.chain_id
  pub first_height : s.last_block_height ≡ pos 0 → b.header.height ≡ s.initial_height
  pub next_height :
      pos 0 <ℤ s.last_block_height → b.header.height ≡ add_int64 s.last_block_height (pos 1)
  pub last_block_id : lib.block_id_equals b.header.last_block_id s.last_block_id ≡ true

-- The block commits to what the state holds.
pub record Commits (lib : Library) (s : State) (b : Block) : Type 0 where
  pub app_hash : b.header.app_hash ≡ s.app_hash
  pub consensus_hash : b.header.consensus_hash ≡ lib.params_hash s.consensus_params
  pub last_results_hash : b.header.last_results_hash ≡ s.last_results_hash
  pub validators_hash : b.header.validators_hash ≡ lib.validators_hash s.validators
  pub next_validators_hash : b.header.next_validators_hash ≡ lib.validators_hash s.next_validators

-- The block's time is the genesis time at the initial height, and the median of the votes above it.
pub record Timely (lib : Library) (s : State) (b : Block) : Type 0 where
  pub not_below : s.initial_height ≤ℤ b.header.height
  pub genesis : b.header.height ≡ s.initial_height → b.header.time ≡ s.last_block_time
  pub not_before : s.initial_height <ℤ b.header.height → s.last_block_time ≤ b.header.time
  pub median :
      s.initial_height <ℤ b.header.height
      → b.header.time ≡ median_time lib b.last_commit s.last_validators

pub record Acceptable (lib : Library) (s : State) (b : Block) : Type 0 where
  pub basic : lib.validate_basic b ≡ none
  pub follows : Follows lib s b
  pub commits : Commits lib s b
  pub initial_commit : b.header.height ≡ s.initial_height → length b.last_commit.signatures ≡ 0
  pub proposer : length b.header.proposer_address ≡ 20
  pub timely : Timely lib s b
  pub evidence : lib.evidence_byte_size b.evidence ≤ℤ s.consensus_params.evidence_max_bytes

refuse-ok_iff :
    (bad : Bool) (e : Error) (rest : Result (Unit {0}))
    → (refuse bad (err e) rest ≡ ok tt) ↔ ((bad ≡ false) × (rest ≡ ok tt))
unfolding refuse
refuse-ok_iff true e rest = ((λ h. cc), (λ h. cc))
refuse-ok_iff false e rest = ((λ h. (refl, h)), (λ h. h.1))

refuse_error-ok_iff :
    (check : Option Error) (rest : Result (Unit {0}))
    → (refuse_error check rest ≡ ok tt) ↔ ((check ≡ none) × (rest ≡ ok tt))
unfolding refuse_error
refuse_error-ok_iff none rest = ((λ h. (refl, h)), (λ h. h.1))
refuse_error-ok_iff (some e) rest = ((λ h. cc), (λ h. cc))

module _ (lib : Library) (s : State) (b : Block) (rest : Result (Unit {0})) where
  validate_info-ok_iff : (validate_info lib s b rest ≡ ok tt) ↔ (Follows lib s b × (rest ≡ ok tt))
  unfolding validate_info refuse
  validate_info-ok_iff = ((λ h. ground arith), (λ h. let (f, k) = h in ground arith))

  validate_hashes-ok_iff :
      (validate_hashes lib s b rest ≡ ok tt) ↔ (Commits lib s b × (rest ≡ ok tt))
  unfolding validate_hashes refuse
  validate_hashes-ok_iff = ((λ h. ground arith), (λ h. let (f, k) = h in ground arith))

  validate_time-ok_iff : (validate_time lib s b rest ≡ ok tt) ↔ (Timely lib s b × (rest ≡ ok tt))
  unfolding validate_time refuse
  validate_time-ok_iff = ((λ h. ground arith), (λ h. let (f, k) = h in ground arith))

-- `ValidateBlock` returns no error exactly when the block meets every condition of `Acceptable`. Of the
-- proposer these ask only that its address has the length of one, not that it is a validator.
pub validate_block-ok_iff :
    (lib : Library) (s : State) (b : Block) → (validate_block lib s b ≡ ok tt) ↔ Acceptable lib s b
unfolding validate_block
validate_block-ok_iff lib s b = (
  (λ h.
      let (basic, h1) = (refuse_error-ok_iff _ _).0 h in
      let (follows, h2) = (validate_info-ok_iff lib s b _).0 h1 in
      let (commits, h3) = (validate_hashes-ok_iff lib s b _).0 h2 in
      let (initial, h4) = (refuse-ok_iff _ _ _).0 h3 in
      let (proposer, h5) = (refuse-ok_iff _ _ _).0 h4 in
      let (timely, h6) = (validate_time-ok_iff lib s b _).0 h5 in
      let (evidence, h7) = (refuse-ok_iff _ _ _).0 h6 in
      record {
        basic = basic;
        follows = follows;
        commits = commits;
        initial_commit = ground arith;
        proposer = ground arith;
        timely = timely;
        evidence = ground arith;
      }),
  (λ a. (refuse_error-ok_iff _ _).1 (
    a.basic,
    (validate_info-ok_iff lib s b _).1 (
      a.follows,
      (validate_hashes-ok_iff lib s b _).1 (
        a.commits,
        (refuse-ok_iff _ _ _).1 (
          ground arith,
          (refuse-ok_iff _ _ _).1 (
            ground arith,
            (validate_time-ok_iff lib s b _).1
                (a.timely, (refuse-ok_iff _ _ _).1 (ground arith, refl)),
          ),
        ),
      ),
    ),
  )),
)
