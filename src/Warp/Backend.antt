-- ===== src/Warp/Backend.antt =====
-- The backend of warp messages (warp/backend.go, warp/verifier_backend.go, warp/block_client.go). The
-- database, the codecs, the signer, the reader of uptimes and the receiver of block requests are the
-- fields of a record; the backend's state is its database and three of its counters.
use slide_sdk.Common.{ℕ, ◌+◌, Bool, true, false, Bytes, bytes_eq, length, ltb, ◌==◌, if◌then◌else◌}
use slide_sdk.Common.Outcome.{Outcome, ok, err, panic}

-- The errors of the backend, and those that it is given. `wrapped` is `fmt.Errorf` of a cause, which
-- equals no other error.
pub data Fault : Type 0 where
  missing_key : Fault
  other : ℕ → Fault
  wrapped : Fault → Fault
  not_signable : Fault
  parse_failed verify_failed : Fault
  no_client no_validators bad_subnet : Fault

abbrev pub Answer : Type 0 → Type 0
Answer A = Outcome Fault A

-- `warp.UnsignedMessage`
pub record Message : Type 0 where
  pub network_id : ℕ
  pub source_chain_id : Bytes
  pub payload : Bytes

-- what `payload.Parse` can return
pub data Payload : Type 0 where
  addressed_call : Bytes → Bytes → Payload
  block_hash : Bytes → Payload
  unknown_payload : Payload

-- what `messages.Parse` can return: an uptime, with the identifier and the seconds, a message that
-- verifies itself, or another
pub data CallMessage : Type 0 where
  validator_uptime : Bytes → ℕ → CallMessage
  signable : (Bytes → Answer (Unit {0})) → CallMessage
  plain : CallMessage

pub record Services : Type 1 where
  pub Database : Type 0
  pub get : Bytes → Database → Answer Bytes
  pub set : Bytes → Bytes → Database → Answer Database
  pub message_id : Message → Bytes
  pub message_bytes : Message → Bytes
  pub parse_message : Bytes → Answer Message
  pub parse_payload : Bytes → Answer Payload
  pub parse_addressed_call : Bytes → Answer (Bytes × Bytes)
  pub parse_call_message : Bytes → Answer CallMessage
  pub hash_payload : Bytes → Answer Bytes
  pub new_message : ℕ → Bytes → Bytes → Answer Message
  pub sign : Message → Answer Bytes
  pub uptime_seconds : Bytes → Answer ℕ
  -- the height in the answer of `GetBlock`, and the identifier in that of `GetBlockIDAtHeight`
  pub block_height : Bytes → Answer ℕ
  pub block_id_at_height : ℕ → Answer Bytes
  pub network_id : ℕ
  pub source_chain_id : Bytes

-- `verifierStats`
pub record Stats : Type 0 where
  pub message_parse_fail : ℕ
  pub block_validation_fail : ℕ
  pub uptime_validation_fail : ℕ

abbrev pub count_parse_fail : Stats → Stats
count_parse_fail s = record s { message_parse_fail = s.message_parse_fail + 1 }

abbrev pub count_block_fail : Stats → Stats
count_block_fail s = record s { block_validation_fail = s.block_validation_fail + 1 }

abbrev pub count_uptime_fail : Stats → Stats
count_uptime_fail s = record s { uptime_validation_fail = s.uptime_validation_fail + 1 }

-- `fmt.Errorf(… %w, err)`
abbrev pub wrap : {A : Type 0} → Answer A → Answer A
wrap (ok a) = ok a
wrap (err e) = err (Fault.wrapped e)
wrap panic = panic

infixl 5 ◌>>=◌
abbrev pub ◌>>=◌ : {A B : Type 0} → Answer A → (A → Answer B) → Answer B
ok a >>= f = f a
err e >>= f = err e
panic >>= f = panic

-- an answer with the counters
abbrev pub Counted : Type 0
Counted = Answer (Unit {0}) × Stats

abbrev pub is_missing_key : Fault → Bool
is_missing_key Fault.missing_key = true
is_missing_key _ = false

module _ (sv : Services) where
  unfoldable pub sign_message : Message → Answer Bytes
  sign_message m = wrap (sv.sign m)

  -- the answer, and the database, which keeps the message also where the signer fails
  unfoldable pub add_message : Message → sv.Database → Answer (Unit {0}) × sv.Database
  add_message m db = elim (sv.set (sv.message_id m) (sv.message_bytes m) db) [
    | err e ↦ (err (Fault.wrapped e), db)
    | panic ↦ (panic, db)
    | ok db' ↦ ((do _ ← wrap (sign_message m); ok tt), db')
  ]

  unfoldable pub get_message : Bytes → sv.Database → Answer Message
  get_message id db = do bytes ← wrap (sv.get id db); wrap (sv.parse_message bytes)

  unfoldable pub get_accepted_block : Bytes → Answer ℕ
  get_accepted_block id = do
    height ← sv.block_height id
    accepted ← sv.block_id_at_height height
    if bytes_eq accepted id then ok height else err Fault.missing_key

  unfoldable pub verify_block_message : Bytes → Stats → Counted
  verify_block_message id s = elim (get_accepted_block id) [
    | ok h ↦ (ok tt, s)
    | err e ↦ (err Fault.verify_failed, count_block_fail s)
    | panic ↦ (panic, s)
  ]

  unfoldable pub verify_uptime_message : Bytes → ℕ → Answer (Unit {0})
  verify_uptime_message id total = elim (sv.uptime_seconds id) [
    | ok seconds ↦ if ltb seconds total then err Fault.verify_failed else ok tt
    | err e ↦ err Fault.verify_failed
    | panic ↦ panic
  ]

  -- the `switch` on the parsed message of an addressed call
  unfoldable pub verify_call_message : CallMessage → Stats → Counted
  verify_call_message (CallMessage.validator_uptime id total) s =
      elim (verify_uptime_message id total) [
        | ok _ ↦ (ok tt, s)
        | err e ↦ (err e, count_uptime_fail s)
        | panic ↦ (panic, s)
      ]
  verify_call_message (CallMessage.signable check) s = (err Fault.parse_failed, count_parse_fail s)
  verify_call_message CallMessage.plain s = (err Fault.parse_failed, count_parse_fail s)

  unfoldable pub verify_offchain_addressed_call : Bytes → Bytes → Stats → Counted
  verify_offchain_addressed_call source payload s = elim (sv.parse_call_message payload) [
    | err e ↦ (err Fault.parse_failed, count_parse_fail s)
    | panic ↦ (panic, s)
    | ok parsed ↦
        if length source == 0 then verify_call_message parsed s else (err Fault.verify_failed, s)
  ]

  -- the `switch` on the parsed payload
  unfoldable pub verify_payload : Answer Payload → Stats → Counted
  verify_payload (err e) s = (err Fault.parse_failed, count_parse_fail s)
  verify_payload panic s = (panic, s)
  verify_payload (ok (Payload.addressed_call source payload)) s =
      verify_offchain_addressed_call source payload s
  verify_payload (ok (Payload.block_hash id)) s = verify_block_message id s
  verify_payload (ok Payload.unknown_payload) s = (err Fault.parse_failed, count_parse_fail s)

  unfoldable pub verify : Message → sv.Database → Stats → Counted
  verify m db s = elim (get_message (sv.message_id m) db) [
    | ok _ ↦ (ok tt, s)
    | panic ↦ (panic, s)
    | err e ↦
        if is_missing_key e
        then verify_payload (sv.parse_payload m.payload) s
        else (err Fault.parse_failed, s)
  ]

  -- `ValidateMessage` for a message that is not stored
  unfoldable pub validate_unknown : Message → Answer (Unit {0})
  validate_unknown m = do
    (source, payload) ← wrap (sv.parse_addressed_call m.payload)
    parsed ← wrap (sv.parse_call_message payload)
    elim parsed [
      | CallMessage.signable check ↦ wrap (check source)
      | CallMessage.validator_uptime id total ↦ err Fault.not_signable
      | CallMessage.plain ↦ err Fault.not_signable
    ]

  unfoldable pub validate_message : Message → sv.Database → Answer (Unit {0})
  validate_message m db = elim (get_message (sv.message_id m) db) [
    | ok _ ↦ ok tt
    | panic ↦ panic
    | err e ↦ validate_unknown m
  ]

  unfoldable pub get_message_signature : Message → sv.Database → Stats → Answer Bytes × Stats
  get_message_signature m db s =
      let (verified, s') = verify m db s in
      ((do _ ← wrap verified; _ ← wrap (validate_message m db); sign_message m), s')

  unfoldable pub get_block_signature : Bytes → Stats → Answer Bytes × Stats
  get_block_signature id s =
      elim (do
        payload ← wrap (sv.hash_payload id)
        wrap (sv.new_message sv.network_id sv.source_chain_id payload)) [
          | err e ↦ (err e, s)
          | panic ↦ (panic, s)
          | ok m ↦
              let (verified, s') = verify_block_message id s in
              ((do _ ← wrap verified; sign_message m), s')
        ]
