-- ===== src/Examples/WarpCase.antt =====
-- The theorems on the warp backend, at a backend that has stored one message.
use slide_sdk.Common.{ℕ, ◌≡◌, refl, ◌↔◌, List, [], ◌∷◌, Bytes, Bytes-discrete, arith, ite}
use slide_sdk.Common.Outcome.{ok, err}
use slide_sdk.Warp.Backend.{
  Fault, Answer, Message, Payload, Services, Stats, sign_message, add_message, get_message,
  get_accepted_block, verify_block_message, verify, get_message_signature, get_block_signature,
}
use slide_sdk.Warp.Api.{
  Network, api_add_message, api_get_message, api_get_message_signature,
  get_message_aggregate_signature,
}
use slide_sdk.Warp.Answers.{Aggregated, get_message_aggregate_signature-ok_iff, api_round_trip}
use slide_sdk.Warp.Signing.{Stores, get_message_signature-ok_iff}

program : Unit {0}
unfolding Bytes-discrete sign_message add_message get_message get_accepted_block
    verify_block_message verify get_message_signature get_block_signature api_add_message
program = tt

-- a database is a list of pairs, a message's identifier is its payload
abbrev find : Bytes → List (Bytes × Bytes) → Answer Bytes
find k [] = err Fault.missing_key
find k ((j, v) ∷ db) = let rest = find k db in ite (Bytes-discrete j k) (ok v) rest

abbrev message : Message
message = record { network_id = 1; source_chain_id = []; payload = 7 ∷ [] }

abbrev services : Services
services = record {
  Database = List (Bytes × Bytes);
  get = find;
  set = λ k v db. ok ((k, v) ∷ db);
  message_id = λ m. m.payload;
  message_bytes = λ m. m.payload;
  parse_message = λ b. ok (record { network_id = 1; source_chain_id = []; payload = b });
  parse_payload = λ b. ok (Payload.block_hash b);
  parse_addressed_call = λ b. err (Fault.other 0);
  parse_call_message = λ b. err (Fault.other 1);
  hash_payload = λ b. ok b;
  new_message = λ n c p. ok (record { network_id = n; source_chain_id = c; payload = p });
  sign = λ m. ok (9 ∷ m.payload);
  uptime_seconds = λ id. ok 10;
  block_height = λ id. ok 4;
  block_id_at_height = λ h. ok (5 ∷ []);
  network_id = 1;
  source_chain_id = [];
}

abbrev stats : Stats
stats = record { message_parse_fail = 0; block_validation_fail = 0; uptime_validation_fail = 0 }

abbrev stored : List (Bytes × Bytes)
stored = (7 ∷ [], 7 ∷ []) ∷ []

stores : Stores services message []
stores = record { reads_back = λ db h. ground arith; parses = refl }

get_message_signature-ok_iff_example :
    ((get_message_signature services message stored stats).0 ≡ ok (9 ∷ 7 ∷ [])) ↔ (
      ((n : Message) × (get_message services (7 ∷ []) stored ≡ ok n))
      × (services.sign message ≡ ok (9 ∷ 7 ∷ [])))
get_message_signature-ok_iff_example =
    get_message_signature-ok_iff services message stored stats (9 ∷ 7 ∷ [])

-- an identifier is its own text, two validators sign whatever the P-chain's height
abbrev network : Network
network = record {
  Signature = Bytes;
  ValidatorSet = List ℕ;
  Validator = ℕ;
  id_from_string = λ text. ok text;
  id_string = λ id. id;
  signature_from_bytes = λ b. ok b;
  current_height = ok 12;
  validator_set = λ height subnet. ok (1 ∷ 2 ∷ []);
  flatten = λ set. ok (set, 50);
  aggregate = λ getter vs weight m quorum. ok (weight ∷ m.payload);
}

abbrev getter : Bytes → Message → Answer Bytes
getter node m = ok m.payload

get_message_aggregate_signature-ok_iff_example :
    (get_message_aggregate_signature services network getter (3 ∷ []) (7 ∷ []) 67 [] stored
      ≡ ok (50 ∷ 7 ∷ []))
    ↔ ((m : Message) × (get_message services (7 ∷ []) stored ≡ ok m)
        × Aggregated services network getter (3 ∷ []) m 67 [] (50 ∷ 7 ∷ []))
get_message_aggregate_signature-ok_iff_example =
    get_message_aggregate_signature-ok_iff services network getter (3 ∷ []) (7 ∷ []) 67 [] stored
      (50 ∷ 7 ∷ [])

api_round_trip_example :
    (◌≡◌ {A = Bytes} (7 ∷ []) (network.id_string (7 ∷ [])))
    × (api_get_message services network (7 ∷ []) stored ≡ ok (7 ∷ []))
    × ((sig : Bytes) × (services.sign message ≡ ok sig)
        × ((api_get_message_signature services network (7 ∷ []) stored stats).0 ≡ ok sig))
unfolding program
api_round_trip_example =
    api_round_trip services network (7 ∷ []) message [] stored stats {text = 7 ∷ []} refl stores
      refl refl
