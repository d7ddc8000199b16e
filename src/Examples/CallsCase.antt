-- ===== src/Examples/CallsCase.antt =====
-- The theorems on the broadcast of a transaction and on votes, where every call succeeds.
use slide_sdk.Common.{◌≡◌, ◌≢◌, refl, ◌⊎◌, true, none, [], ◌∷◌}
use slide_sdk.Common.Int.{pos}
use slide_sdk.Common.Outcome.{ok}
use slide_sdk.Config.{VmConfig}
use slide_sdk.Executor.World.{Verdict}
use slide_sdk.Executor.Votes.{Vote, VoteApp}
use slide_sdk.Rpc.Broadcast.{
  CheckTx, Checking, Delivery, Answers, code_type_ok, ResultBroadcastTxCommit, CallsFit,
  broadcast_tx_commit, commit_subscribed, deliver, broadcast_tx_commit-CallsFit,
  broadcast_tx_commit-included,
}
use slide_sdk.Examples.Instances.{first_id}

program : Unit {0}
unfolding broadcast_tx_commit commit_subscribed deliver
program = tt

abbrev config : VmConfig
config = record {
  network_name = 1 ∷ [];
  timeout_broadcast_tx_commit = 10;
  consensus_params = record {
    block_max_bytes = pos 10;
    block_max_gas = pos 10;
    evidence_max_bytes = pos 10;
  };
  max_subscription_clients = pos 100;
  max_subscriptions_per_client = pos 5;
}

abbrev passed : CheckTx
passed = record { code = 0; content = []; log = []; codespace = [] }

abbrev answers : Answers
answers = record {
  num_clients = pos 3;
  num_client_subscriptions = pos 0;
  subscribe = none;
  check_tx = none;
  checking = Checking.checked passed;
  delivery = Delivery.included (pos 7) (4 ∷ []);
  hash = 9 ∷ [];
}

broadcast_tx_commit-CallsFit_example :
    CallsFit config answers (broadcast_tx_commit config answers).1
broadcast_tx_commit-CallsFit_example = broadcast_tx_commit-CallsFit config answers

abbrev result : ResultBroadcastTxCommit
result = record { check_tx = passed; tx_result = 4 ∷ []; hash = 9 ∷ []; height = pos 7 }

broadcast_tx_commit-included_example :
    (answers.checking ≡ Checking.checked passed)
    × ((passed.code ≢ code_type_ok) ⊎ (answers.delivery ≡ Delivery.included (pos 7) (4 ∷ [])))
unfolding program
broadcast_tx_commit-included_example = broadcast_tx_commit-included config answers {r = result} refl

abbrev vote : Vote
vote = record {
  block_id = record { hash = first_id; part_set_header = [] };
  height = pos 1;
  validator_address = [];
  extension = [];
}

abbrev app : VoteApp
app = record {
  hashes_to = λ b h. true;
  extend_vote = λ r. ok (6 ∷ []);
  verify_vote_extension = λ r. ok Verdict.accept;
}
