-- ===== src/Warp/Api.antt =====
-- The queries of the warp service (vm/warp_service.go) and the fetcher of signatures from other
-- validators (warp/fetcher.go). The text form of identifiers, the P-chain's state, the canonical order
-- of validators, the aggregator and the clients of other nodes are the fields of a record.
use slide_sdk.Common.{ℕ, ◌==◌, List, [], Bytes, length, Option, none, some, if◌then◌else◌}
use slide_sdk.Common.Outcome.{ok, err, panic}
use slide_sdk.Warp.Backend.{
  Fault, Answer, Message, Payload, Services, Stats, wrap, ◌>>=◌, add_message, get_message,
  get_message_signature, get_block_signature,
}

-- The fields of `warp.Client` that the fetcher calls.
pub record Client : Type 0 where
  pub call_get_message_signature : Bytes → Answer Bytes
  pub call_get_block_signature : Bytes → Answer Bytes

pub record Network : Type 1 where
  pub Signature : Type 0
  pub ValidatorSet : Type 0
  pub Validator : Type 0
  pub id_from_string : Bytes → Answer Bytes
  pub id_string : Bytes → Bytes
  pub signature_from_bytes : Bytes → Answer Signature
  -- `validators.State`, which `warpValidators.NewState` makes of the node's state, the source subnet,
  -- the source chain and the flag
  pub current_height : Answer ℕ
  pub validator_set : ℕ → Bytes → Answer ValidatorSet
  pub flatten : ValidatorSet → Answer (List Validator × ℕ)
  -- `aggregator.New` and `AggregateSignatures`: the bytes of the message that it signs
  pub aggregate :
      (Bytes → Message → Answer Signature) → List Validator → ℕ → Message → ℕ → Answer Bytes

module _ (sv : Services) (net : Network) where
  -- The bytes of a signature that a client answers. For a payload of another kind no client is called,
  -- and the bytes are nil.
  unfoldable pub fetch_bytes : Client → Message → Answer Payload → Answer Bytes
  fetch_bytes c m (ok (Payload.addressed_call source payload)) =
      c.call_get_message_signature (sv.message_id m)
  fetch_bytes c m (ok (Payload.block_hash id)) = c.call_get_block_signature id
  fetch_bytes c m (ok Payload.unknown_payload) = ok []
  fetch_bytes c m (err e) = err (Fault.wrapped e)
  fetch_bytes c m panic = panic

  unfoldable pub fetch_signature : (Bytes → Option Client) → Bytes → Message → Answer net.Signature
  fetch_signature clients node m = elim (clients node) [
    | none ↦ err Fault.no_client
    | some c ↦ do
      bytes ← fetch_bytes c m (sv.parse_payload m.payload)
      wrap (net.signature_from_bytes bytes)
  ]

  -- `NewAPI`: the getter of signatures that the service keeps
  unfoldable pub new_api :
      Option (Bytes → Message → Answer net.Signature)
      → (Bytes → Option Client)
      → Bytes
      → Message
      → Answer net.Signature
  new_api (some getter) clients = getter
  new_api none clients = fetch_signature clients

  unfoldable pub api_add_message : Bytes → sv.Database → Answer Bytes × sv.Database
  api_add_message bytes db = elim (sv.parse_message bytes) [
    | err e ↦ (err (Fault.wrapped e), db)
    | panic ↦ (panic, db)
    | ok m ↦
        let (added, db') = add_message sv m db in
        ((do _ ← wrap added; ok (net.id_string (sv.message_id m))), db')
  ]

  unfoldable pub api_get_message : Bytes → sv.Database → Answer Bytes
  api_get_message text db = do
    id ← wrap (net.id_from_string text)
    m ← wrap (get_message sv id db)
    ok (sv.message_bytes m)

  unfoldable pub api_get_message_signature : Bytes → sv.Database → Stats → Answer Bytes × Stats
  api_get_message_signature text db s =
      elim (do id ← wrap (net.id_from_string text); wrap (get_message sv id db)) [
        | err e ↦ (err e, s)
        | panic ↦ (panic, s)
        | ok m ↦ let (signature, s') = get_message_signature sv m db s in (wrap signature, s')
      ]

  unfoldable pub api_get_block_signature : Bytes → Stats → Answer Bytes × Stats
  api_get_block_signature id s =
      let (signature, s') = get_block_signature sv id s in (wrap signature, s')

  -- the subnet of a query: the source subnet for an empty text
  unfoldable pub subnet_of : Bytes → Bytes → Answer Bytes
  subnet_of source text = if length text == 0 then ok source else elim (net.id_from_string text) [
    | ok subnet ↦ ok subnet
    | err e ↦ err Fault.bad_subnet
    | panic ↦ panic
  ]

  -- `if len(validators) == 0`
  unfoldable pub some_validators : List net.Validator × ℕ → Answer (List net.Validator × ℕ)
  some_validators (vs, weight) =
      if length vs == 0 then err (Fault.wrapped Fault.no_validators) else ok (vs, weight)

  -- `getter` and `source` are the fields `signatureGetter` and `sourceSubnetID`.
  unfoldable pub aggregate_signatures :
      (Bytes → Message → Answer net.Signature) → Bytes → Message → ℕ → Bytes → Answer Bytes
  aggregate_signatures getter source m quorum text = do
    subnet ← subnet_of source text
    height ← net.current_height
    set ← wrap (net.validator_set height subnet)
    flat ← wrap (net.flatten set)
    (vs, weight) ← some_validators flat
    net.aggregate getter vs weight m quorum

  -- The result that stands beside an error is empty, and the server of the queries drops it.
  unfoldable pub get_message_aggregate_signature :
      (Bytes → Message → Answer net.Signature)
      → Bytes
      → Bytes
      → ℕ
      → Bytes
      → sv.Database
      → Answer Bytes
  get_message_aggregate_signature getter source id quorum text db = do
    m ← get_message sv id db
    aggregate_signatures getter source m quorum text

  unfoldable pub get_block_aggregate_signature :
      (Bytes → Message → Answer net.Signature) → Bytes → Bytes → ℕ → Bytes → Answer Bytes
  get_block_aggregate_signature getter source id quorum text = do
    payload ← sv.hash_payload id
    m ← sv.new_message sv.network_id sv.source_chain_id payload
    aggregate_signatures getter source m quorum text
