-- ===== src/Examples/Instances.antt =====
-- A library, a world, caches and a block to run the model on. The library's functions are small ones of
-- the same types: a hash repeats the time of a block, protobuf writes only that time, and JSON puts a
-- number for the status before the bytes.
use slide_sdk.Common.{
  ℕ, zero, suc, ◌+◌, refl, true, false, Option, none, some, List, [], ◌∷◌, Bytes, Bytes-discrete,
  length, replicate, bytes_eq, arith, ite,
}
use slide_sdk.Common.Int.{pos}
use slide_sdk.Common.Outcome.{ok, err}
use slide_sdk.Chain.Types.{
  Status, unspecified, processing, rejected, accepted, BlockId, CommitSig, flag_commit,
  ValidatorSet, ConsensusParams, Block, State, FinalizeResponse, Error, Result,
}
use slide_sdk.Chain.Library.{Library}
use slide_sdk.Executor.World.{World, Verdict}
use slide_sdk.Cache.Cacher.{Cacher, IsCacher}
use slide_sdk.Vm.Storage.{Caches, Storage}
use slide_sdk.Vm.Machine.{Vm}
use slide_sdk.Vm.Invariant.{Promises}

-- a cache of one entry
abbrev pub slot : {H V : Type 0} → Cacher H Bytes V
slot {V = V} = record {
  Cache = Option (Bytes × V);
  empty = none;
  get = λ k m. (elim m [ none ↦ none | some (j, v) ↦ ite (Bytes-discrete j k) (some v) none ], m);
  put = λ h k v m. some (k, v);
  evict =
      λ h k m. elim m [ none ↦ none | some (j, v) ↦ ite (Bytes-discrete j k) none (some (j, v)) ];
  flush = λ m. none;
}

abbrev pub caches : Caches
caches = record { blocks = slot; missing = slot; ids = slot }

pub slot-IsCacher : {H V : Type 0} → IsCacher (slot {H = H} {V = V})
slot-IsCacher = record {
  IsValid = λ m. Unit;
  IsValid-empty = tt;
  IsValid-get = λ k m h. tt;
  IsValid-put = λ h k v m q. tt;
  IsValid-evict = λ h k m q. tt;
  IsValid-flush = λ m q. tt;
  get-empty = λ k. refl;
  get-get = λ k j m q. refl;
  get-put_self = λ h k v m q. ground arith;
  get-put_ne = λ h k j v m q ne. ground arith;
  get-evict_self = λ h k m q. ground arith;
  get-evict_ne = λ h k j m q ne. ground arith;
  get-flush = λ k m q. refl;
}

pub promises : Promises caches
promises = record { blocks = slot-IsCacher; missing = slot-IsCacher; ids = slot-IsCacher }

abbrev pub address : Bytes
address = replicate 20 1

abbrev pub validators : ValidatorSet
validators = record {
  validators = record { address = address; pub_key = []; voting_power = pos 10 } ∷ [];
  rest = [];
}

abbrev pub no_block : BlockId
no_block = record { hash = []; part_set_header = [] }

abbrev pub signature : CommitSig
signature = record {
  block_id_flag = flag_commit;
  validator_address = address;
  timestamp = 5;
  signature = 0 ∷ [];
}

-- a block at the height `h` and the time `t`
abbrev pub block_at : ℕ → ℕ → List CommitSig → Block
block_at h t sigs = record {
  header = record {
    version_block = 11;
    version_app = 1;
    chain_id = 3 ∷ [];
    height = pos h;
    time = t;
    last_block_id = no_block;
    validators_hash = [];
    next_validators_hash = [];
    consensus_hash = [];
    app_hash = [];
    last_results_hash = [];
    proposer_address = replicate 20 0;
  };
  txs = (1 ∷ []) ∷ [];
  evidence = [];
  last_commit = record { height = pos 0; round = pos 2; block_id = no_block; signatures = sigs };
}

abbrev pub first : Block
first = block_at 1 5 []

abbrev pub params : ConsensusParams
params = record {
  evidence_max_bytes = pos 100;
  version_app = 1;
  validator_params = [];
  abci_params = [];
  rest = [];
}

-- the state before the first block
abbrev pub genesis : State
genesis = record {
  version_block = 11;
  version_app = 1;
  version_software = [];
  chain_id = 3 ∷ [];
  initial_height = pos 1;
  last_block_height = pos 0;
  last_block_id = no_block;
  last_block_time = 5;
  next_validators = validators;
  validators = validators;
  last_validators = record { validators = []; rest = [] };
  last_height_validators_changed = pos 1;
  consensus_params = params;
  last_height_consensus_params_changed = pos 1;
  last_results_hash = [];
  app_hash = [];
}

abbrev code_of : Status → ℕ
code_of unspecified = 0
code_of processing = 1
code_of rejected = 2
code_of accepted = 3
code_of (Status.other n) = 4 + n

abbrev status_of : ℕ → Status
status_of zero = unspecified
status_of (suc zero) = processing
status_of (suc (suc zero)) = rejected
status_of (suc (suc (suc zero))) = accepted
status_of (suc (suc (suc (suc n)))) = Status.other n

abbrev unjson : Bytes → Result (record { block : Bytes; status : Status })
unjson [] = err (Error.external 0)
unjson (n ∷ bs) = ok (record { block = bs; status = status_of n })

abbrev block_of : Bytes → Result Block
block_of (t ∷ []) = ok (block_at 1 t [])
block_of _ = err (Error.external 1)

abbrev pub library : Library
library = record {
  block_hash = λ b. replicate 32 b.header.time;
  header_hash = λ h. replicate 32 h.time;
  validate_basic = λ b. none;
  block_id_equals = λ a b. bytes_eq a.hash b.hash;
  evidence_byte_size = λ es. pos (length es);
  part_set_header = λ b. ok (8 ∷ []);
  validators_hash = λ vs. [];
  get_by_address = λ vs a. none;
  update_with_change_set = λ vs us. ok vs;
  increment_proposer_priority = λ vs. ok vs;
  params_hash = λ ps. [];
  params_update = λ ps u. ps;
  params_validate_basic = λ ps. none;
  params_validate_update = λ ps u h. none;
  vote_extensions_enabled = λ ps h. false;
  is_valid_pubkey_type = λ ps t. true;
  weighted_median = λ ts total. 0;
  tx_results_hash = λ rs. length rs ∷ [];
  pub_key_type = λ k. ok [];
  validator_to_abci = λ v. v.address;
  updates_from_abci = λ us. ok [];
  ensure_extension = λ s b. none;
  to_commit = λ ec. record {
    height = ec.height;
    round = ec.round;
    block_id = ec.block_id;
    signatures = [];
  };
  make_block = λ s h txs commit proposer. block_at 1 5 [];
  max_data_bytes = λ a b n. ok a;
  validate_txs = λ txs n. none;
  block_to_proto = λ b. ok (b.header.time ∷ []);
  marshal_proto = λ bs. ok bs;
  unmarshal_proto = λ bs. ok bs;
  block_from_proto = block_of;
  json_marshal = λ bs s. ok (code_of s ∷ bs);
  json_unmarshal = unjson;
  state_bytes = λ s. s.app_hash;
}

abbrev pub answer : FinalizeResponse
answer = record {
  tx_results = (4 ∷ []) ∷ [];
  validator_updates = [];
  consensus_param_updates = none;
  app_hash = 9 ∷ [];
  events = [];
}

-- a world in which every call succeeds, and whose store holds the first block
abbrev pub world : World
world = record {
  prepare_proposal = λ tr r. ok r.txs;
  process_proposal = λ tr r. ok Verdict.accept;
  finalize_block = λ tr r. ok answer;
  app_commit = λ tr. ok (pos 0);
  reap = λ tr a b. [];
  flush_app_conn = λ tr. ok tt;
  mempool_update = λ tr h a b s. ok tt;
  load_validators = λ tr h. ok validators;
  save_response = λ tr h r. ok tt;
  save_state = λ tr s. ok tt;
  prune_states = λ tr a b d. ok tt;
  base = λ tr. pos 1;
  prune_blocks = λ tr h s. ok (0, pos 1);
  load_block = λ tr h. some first;
  load_block_by_hash = λ tr id. ite (Bytes-discrete (replicate 32 5) id) (some first) none;
  save_block = λ tr b ps c. ok tt;
  now = λ tr n. n;
  random_bytes = λ tr n. [];
  publish = λ tr p. ok tt;
}

-- a machine with the storage `s`
abbrev pub machine : Storage caches → Vm caches
machine s = record {
  state = genesis;
  storage = s;
  bootstrapped = true;
  vm_state = 3;
  connected = true;
  allow_shutdown = false;
  preferred = [];
}

-- the first block, under its identifier
abbrev pub first_id : Bytes
first_id = replicate 32 5

abbrev pub holding : Storage caches
holding = record {
  objects = record { block = first; status = processing } ∷ [];
  verified = (first_id, 0) ∷ [];
  decided = none;
  unverified = none;
  missing = none;
  bytes_to_id = none;
}
