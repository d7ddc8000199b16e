-- ===== src/Examples/LimitsCase.antt =====
-- The theorems on the configuration.
use slide_sdk.Common.{◌≡◌, ◌≢◌, ◌↔◌, none, [], ◌∷◌, length}
use slide_sdk.Common.Int.{pos, negsuc, ◌≤ℤ◌}
use slide_sdk.Config.{VmConfig, InBounds, validate, validate-none_iff}

abbrev config : VmConfig
config = record {
  network_name = 1 ∷ [];
  timeout_broadcast_tx_commit = 0;
  consensus_params = record {
    block_max_bytes = negsuc 0;
    block_max_gas = negsuc 0;
    evidence_max_bytes = pos 0;
  };
  max_subscription_clients = pos 0;
  max_subscriptions_per_client = pos 0;
}

validate-none_iff_example : (validate config ≡ none) ↔ (
    (length config.network_name ≢ 0)
    × InBounds config.consensus_params
    × (pos 0 ≤ℤ pos 0)
    × (pos 0 ≤ℤ pos 0))
validate-none_iff_example = validate-none_iff config
