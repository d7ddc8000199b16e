-- ===== src/Config.antt =====
-- The configuration of the machine (vm/types/config.go). A name is its bytes; the address book and the
-- list of allowed nodes are read by no function of the file.
use slide_sdk.Common.{
  ℕ, ◌≡◌, ◌≢◌, refl, ◌↔◌, ◌⊎◌, Option, none, some, [], ◌∷◌, Bytes, length, ◌==◌, if◌then◌else◌,
  arith,
}
use slide_sdk.Common.Int.{ℤ, pos, negsuc, eqb_ℤ, ltb_ℤ, ◌<ℤ◌, ◌≤ℤ◌}
use slide_sdk.Executor.Apply.{max_block_size_bytes}

-- `ConsensusParams`, with the fields of its two parts.
pub record ConsensusParams : Type 0 where
  pub block_max_bytes : ℤ
  pub block_max_gas : ℤ
  pub evidence_max_bytes : ℤ

-- `VMConfig`
pub record VmConfig : Type 0 where
  pub network_name : Bytes
  pub timeout_broadcast_tx_commit : ℕ
  pub consensus_params : ConsensusParams
  pub max_subscription_clients : ℤ
  pub max_subscriptions_per_client : ℤ

-- The errors of `Validate`.
pub data Invalid : Type 0 where
  empty_network_name zero_max_bytes low_max_bytes high_max_bytes low_max_gas : Invalid
  high_evidence_bytes negative_evidence_bytes : Invalid
  negative_subscriptions_per_client negative_subscription_clients : Invalid

-- `landslide-test`
abbrev pub default_network_name : Bytes
default_network_name =
    108 ∷ 97 ∷ 110 ∷ 100 ∷ 115 ∷ 108 ∷ 105 ∷ 100 ∷ 101 ∷ 45 ∷ 116 ∷ 101 ∷ 115 ∷ 116 ∷ []

unfoldable pub set_defaults : VmConfig → VmConfig
set_defaults c = record c {
  network_name = default_network_name;
  timeout_broadcast_tx_commit = 30;
  consensus_params = record {
    block_max_bytes = pos 104857600;
    block_max_gas = pos 10000000;
    evidence_max_bytes = pos 1000;
  };
  max_subscriptions_per_client = pos 5;
  max_subscription_clients = pos 100;
}

-- the bound on the evidence: `-1` stands for the largest block
unfoldable pub evidence_bound : ConsensusParams → ℤ
evidence_bound c =
    if eqb_ℤ c.block_max_bytes (negsuc 0) then max_block_size_bytes else c.block_max_bytes

-- `ConsensusParams.Validate`; no error is `none`
unfoldable pub validate_params : ConsensusParams → Option Invalid
validate_params c =
    if eqb_ℤ c.block_max_bytes (pos 0)
    then some Invalid.zero_max_bytes
    else if ltb_ℤ c.block_max_bytes (negsuc 0)
    then some Invalid.low_max_bytes
    else if ltb_ℤ max_block_size_bytes c.block_max_bytes
    then some Invalid.high_max_bytes
    else if ltb_ℤ c.block_max_gas (negsuc 0)
    then some Invalid.low_max_gas
    else if ltb_ℤ (evidence_bound c) c.evidence_max_bytes
    then some Invalid.high_evidence_bytes
    else if ltb_ℤ c.evidence_max_bytes (pos 0)
    then some Invalid.negative_evidence_bytes
    else none

-- `VMConfig.Validate`
unfoldable pub validate : VmConfig → Option Invalid
validate c =
    if length c.network_name == 0
    then some Invalid.empty_network_name
    else elim (validate_params c.consensus_params) [
      | some e ↦ some e
      | none ↦
          if ltb_ℤ c.max_subscriptions_per_client (pos 0)
          then some Invalid.negative_subscriptions_per_client
          else if ltb_ℤ c.max_subscription_clients (pos 0)
          then some Invalid.negative_subscription_clients
          else none
    ]

-- The conditions on the parameters.
pub record InBounds (c : ConsensusParams) : Type 0 where
  pub max_bytes :
      (c.block_max_bytes ≡ negsuc 0)
      ⊎ ((pos 0 <ℤ c.block_max_bytes) × (c.block_max_bytes ≤ℤ max_block_size_bytes))
  pub max_gas : negsuc 0 ≤ℤ c.block_max_gas
  pub evidence_low : pos 0 ≤ℤ c.evidence_max_bytes
  pub evidence_high : c.evidence_max_bytes ≤ℤ max_block_size_bytes
  pub evidence_fits : (c.block_max_bytes ≡ negsuc 0) ⊎ (c.evidence_max_bytes ≤ℤ c.block_max_bytes)

validate_params-none_iff : (c : ConsensusParams) → (validate_params c ≡ none) ↔ InBounds c
unfolding validate_params evidence_bound
validate_params-none_iff c = (
  (λ h. record {
    max_bytes = ground arith;
    max_gas = ground arith;
    evidence_low = ground arith;
    evidence_high = ground arith;
    evidence_fits = ground arith;
  }),
  (λ b.
      let m = b.max_bytes in
      let g = b.max_gas in
      let l = b.evidence_low in let h = b.evidence_high in let f = b.evidence_fits in ground arith),
)

-- `Validate` finds no error exactly when the network has a name, the parameters are in their bounds and
-- the two numbers of subscriptions are not negative.
pub validate-none_iff :
    (c : VmConfig)
    → (validate c ≡ none) ↔ (
        (length c.network_name ≢ 0)
        × InBounds c.consensus_params
        × (pos 0 ≤ℤ c.max_subscriptions_per_client)
        × (pos 0 ≤ℤ c.max_subscription_clients))
unfolding validate
validate-none_iff c = (
  (λ h. (
    (λ e. ground arith),
    (validate_params-none_iff c.consensus_params).0 (ground arith),
    ground arith,
    ground arith,
  )),
  (λ (n, b, p, q). let v = (validate_params-none_iff c.consensus_params).1 b in ground arith),
)

-- The configuration that `SetDefaults` makes passes `Validate`, whatever it was before.
pub validate-set_defaults : (c : VmConfig) → validate (set_defaults c) ≡ none
unfolding validate set_defaults validate_params evidence_bound
validate-set_defaults c = refl
