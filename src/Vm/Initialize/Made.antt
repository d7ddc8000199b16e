-- ===== src/Vm/Initialize/Made.antt =====
-- What `Initialize` has made when it answers.
use slide_sdk.Common.{
  ℕ, ◌≡◌, sym, ap, ◌∙◌, ◌⊎◌, inl, inr, Option, none, some, Bytes, length, Bool-cases, Option-cases,
  ◌==◌, arith,
}
use slide_sdk.Common.Int.{to_uint64}
use slide_sdk.Common.Outcome.{ok, err, panic}
use slide_sdk.Chain.Types.{State, Block, Result, accepted}
use slide_sdk.Chain.Library.{Library}
use slide_sdk.Chain.Validate.{encode_block_with_status}
use slide_sdk.Config.{VmConfig, set_defaults, validate}
use slide_sdk.Executor.World.{World, Trace}
use slide_sdk.Rpc.Genesis.{decode_all, cut_round_trip}
use slide_sdk.Vm.Starting.{InitializeResponse, Begun, last_block-Begun, initialize_response-ok}
use slide_sdk.Vm.Boot.{InitializeRequest, Database, Boot, Setup, new_via_db}
use slide_sdk.Vm.Initialize.{
  zero_config, limits_of, genesis_chunks, read_config, check_config, finish, initialize,
}
use slide_sdk.Vm.Initialize.Steps.{bind-eq-ok, prepare-eq-ok, finish-eq-ok}

-- What a machine is after an `Initialize` that answered `r`.
pub record Made (env : Setup) (lib : Library) (w : World) (decode : Bytes → Option Bytes)
    (req : InitializeRequest) (tr : Trace) (r : InitializeResponse) (b : Boot) (tr' : Trace)
    : Type 0 where
  pub config : VmConfig
  pub config_read :
      ((length req.config_bytes ≡ 0) × (config ≡ set_defaults zero_config))
      ⊎ (env.unmarshal_config req.config_bytes (set_defaults zero_config) ≡ ok config)
  pub config_valid : validate config ≡ none
  pub config_kept : b.config ≡ some config
  pub chunks_decode : decode_all decode b.gen_chunks ≡ some req.genesis_bytes
  pub stored_state : State
  pub state_loaded : env.load_state ≡ ok stored_state
  pub block : Block
  pub state : State
  pub begun : Begun lib w (limits_of config) stored_state tr block state tr'
  pub state_kept : b.state ≡ some state
  pub id : r.last_accepted_id ≡ lib.block_hash block
  pub bytes : encode_block_with_status lib block accepted ≡ ok r.bytes
  pub height : r.height ≡ to_uint64 block.header.height
  pub backend :
      b.warp_backend ≡ some (record { network_id = req.network_id; chain_id = req.chain_id })
  pub service :
      b.warp_service
      ≡ some (record {
        network_id = req.network_id;
        subnet_id = req.subnet_id;
        chain_id = req.chain_id;
      })

module _ (env : Setup) where
  check_config-eq-ok :
      (r : Result VmConfig) {c : VmConfig}
      → check_config env r ≡ ok c
      → (r ≡ ok c) × (validate c ≡ none)
  unfolding check_config
  check_config-eq-ok (ok d) {c} h = elim (Option-cases (validate d)) [
    | inl e ↦ let same : d ≡ c = ground arith in (ap ok same, sym (ap validate same) ∙ e)
    | inr (x, e) ↦ absurd (ground arith)
  ]
  check_config-eq-ok (err e) h = cc
  check_config-eq-ok panic h = cc

  read_config-eq-ok :
      (bytes : Bytes) {c : VmConfig}
      → read_config env bytes ≡ ok c
      → ((length bytes ≡ 0) × (c ≡ set_defaults zero_config))
        ⊎ (env.unmarshal_config bytes (set_defaults zero_config) ≡ ok c)
  unfolding read_config
  read_config-eq-ok bytes {c} h = elim (Bool-cases (length bytes == 0)) [
    | inl e ↦ inl (ground arith, ground arith)
    | inr e ↦ inr (ground arith)
  ]

  module _ (decode : Bytes → Option Bytes)
      (decode-encode : (b : Bytes) → decode (env.base64 b) ≡ some b) where
    genesis_chunks-decode :
        (bytes : Bytes) → decode_all decode (genesis_chunks env.base64 bytes) ≡ some bytes
    unfolding genesis_chunks
    genesis_chunks-decode bytes =
        let (chunks, (e, d)) = cut_round_trip env.base64 decode decode-encode bytes in
        rw (genesis_chunks, e) d

    finish-Made :
        (lib : Library) (w : World) (req : InitializeRequest) (c : VmConfig) (s : State) (b : Boot)
        (tr : Trace) {r : InitializeResponse} {b' : Boot} {tr' : Trace}
        → check_config env (read_config env req.config_bytes) ≡ ok c
        → env.load_state ≡ ok s
        → b.config ≡ some c
        → b.gen_chunks ≡ genesis_chunks env.base64 req.genesis_bytes
        → finish env lib w req (c, s) b tr ≡ (ok r, b', tr')
        → Made env lib w decode req tr r b' tr'
    finish-Made lib w req c s b tr {r} {b'} {tr'} checked loaded config chunks h =
        let (o, t, last, answer, has, kept, chunked, backend, service) =
          finish-eq-ok env b tr lib w req c s h in
        let (block, (is, id, bytes, height)) =
          initialize_response-ok lib w (limits_of c) env.nil_block o answer in
        let (read, valid) = check_config-eq-ok (read_config env req.config_bytes) checked in
        record {
          config = c;
          config_read = read_config-eq-ok req.config_bytes read;
          config_valid = valid;
          config_kept = kept ∙ config;
          chunks_decode =
              ap (decode_all decode) (chunked ∙ chunks) ∙ genesis_chunks-decode req.genesis_bytes;
          stored_state = s;
          state_loaded = loaded;
          block = block;
          state = t;
          begun = last_block-Begun lib w (limits_of c) s tr (last ∙ ap (λ x. (ok (x, t), tr')) is);
          state_kept = has;
          id = id;
          bytes = bytes;
          height = height;
          backend = backend;
          service = service;
        }

    -- When `Initialize` answers, for a machine that was just made: its configuration is valid, and is the
    -- defaults or what the request makes of them; the chunks of the genesis document, decoded and put
    -- together, are the document of the request, where the decoding undoes base64; the last block and the
    -- state are those at the height of the stored state, or the first block proposed with the limits of
    -- the configuration and committed; the answer is that block; and warp messages are signed and served
    -- for the chain, the subnet and the network of the request.
    pub initialize-Made :
        (lib : Library) (w : World) (database : Option Database) (client opt_client : Option ℕ)
        (req : InitializeRequest) (tr : Trace) {r : InitializeResponse} {b : Boot} {tr' : Trace}
        → initialize env lib w req (new_via_db database client opt_client) tr ≡ (ok r, b, tr')
        → Made env lib w decode req tr r b tr'
    unfolding initialize new_via_db
    initialize-Made lib w database client opt_client req tr h =
        let ((c, s), b1, t1, e1, k1) = bind-eq-ok _ _ h in
        let (checked, loaded, config, chunks, same) =
          prepare-eq-ok env (new_via_db database client opt_client) tr req e1 in
        finish-Made lib w req c s b1 tr checked loaded config chunks
          (ap (λ x. finish env lib w req (c, s) b1 x) (sym same) ∙ k1)
