-- ===== src/Warp/Signing.antt =====
-- Which messages the warp backend signs.
use slide_sdk.Common.{ℕ, ◌≡◌, refl, ◌↔◌, inl, inr, false, Bytes, arith}
use slide_sdk.Common.Outcome.{ok, err, panic, Outcome-cases}
use slide_sdk.Warp.Backend.{
  Fault, Answer, Message, Services, Stats, wrap, ◌>>=◌, sign_message, add_message, get_message,
  get_accepted_block, verify_block_message, verify, validate_message, validate_unknown,
  get_message_signature, get_block_signature, is_missing_key,
}

module _ (sv : Services) where
  -- An error of `GetMessage` is always a wrapped one.
  get_message-wraps :
      (id : Bytes) (db : sv.Database) {e : Fault}
      → get_message sv id db ≡ err e
      → is_missing_key e ≡ false
  unfolding get_message
  get_message-wraps id db h = ground arith

  -- what `Verify` answers for each answer of `GetMessage`
  verdict : Answer Message → Answer (Unit {0})
  verdict (ok n) = ok tt
  verdict (err e) = err Fault.parse_failed
  verdict panic = panic

  verify-eq :
      (m : Message) (db : sv.Database) (s : Stats)
      → verify sv m db s ≡ (verdict (get_message sv (sv.message_id m) db), s)
  unfolding verify verdict
  verify-eq m db s = elim (Outcome-cases (get_message sv (sv.message_id m) db)) [
    | inl (n, e) ↦ rw (verify, e) refl
    | inr (inl (x, e)) ↦ rw (verify, e, get_message-wraps (sv.message_id m) db e) refl
    | inr (inr e) ↦ rw (verify, e) refl
  ]

  verdict-ok_iff : (r : Answer Message) → (verdict r ≡ ok tt) ↔ ((n : Message) × (r ≡ ok n))
  unfolding verdict
  verdict-ok_iff (ok n) = ((λ h. (n, refl)), (λ h. refl))
  verdict-ok_iff (err e) = ((λ h. cc), (λ (n, e). cc))
  verdict-ok_iff panic = ((λ h. cc), (λ (n, e). cc))

  -- `Verify` succeeds exactly on the messages that `GetMessage` finds, and counts no failure: since the
  -- error of `GetMessage` is wrapped, it never equals `ErrNotFound`, and the payload of another message
  -- is not looked at.
  pub verify-ok_iff :
      (m : Message) (db : sv.Database) (s : Stats)
      → (((verify sv m db s).0 ≡ ok tt)
          ↔ ((n : Message) × (get_message sv (sv.message_id m) db ≡ ok n)))
        × ((verify sv m db s).1 ≡ s)
  verify-ok_iff m db s = rw (verify-eq m db s) (verdict-ok_iff _, refl)

  -- the answer of `GetMessageSignature`, from that of `GetMessage`, the test of an unknown message and
  -- the signer
  signature_of : Answer Message → Answer (Unit {0}) → Answer Bytes → Answer Bytes
  signature_of r u signed = wrap (verdict r) >>= λ _.
      wrap (elim r [ ok _ ↦ ok tt | panic ↦ panic | err e ↦ u ]) >>= λ _. wrap signed

  -- `GetMessageSignature` returns a signature exactly of the messages that `GetMessage` finds and the
  -- signer signs.
  pub get_message_signature-ok_iff :
      (m : Message) (db : sv.Database) (s : Stats) (sig : Bytes)
      → ((get_message_signature sv m db s).0 ≡ ok sig)
        ↔ (((n : Message) × (get_message sv (sv.message_id m) db ≡ ok n)) × (sv.sign m ≡ ok sig))
  unfolding get_message_signature validate_message sign_message verdict signature_of
  get_message_signature-ok_iff m db s sig =
      rw (verify-eq m db s)
        (go (get_message sv (sv.message_id m) db) (validate_unknown sv m) (sv.sign m))
    where
      go :
          (r : Answer Message) (u : Answer (Unit {0})) (signed : Answer Bytes)
          → (signature_of r u signed ≡ ok sig) ↔ (((n : Message) × (r ≡ ok n)) × (signed ≡ ok sig))
      go (ok n) u signed = ((λ h. ((n, refl), ground arith)), (λ h. rw h.1 refl))
      go (err e) u signed = ((λ h. cc), (λ h. let ((n, e), k) = h in cc))
      go panic u signed = ((λ h. cc), (λ h. let ((n, e), k) = h in cc))

  -- `GetBlockSignature` counts a failure and returns no signature unless the block that the receiver
  -- answers for the identifier is the one at its own height.
  pub get_block_signature-eq-ok :
      (id : Bytes) (s : Stats) {sig : Bytes}
      → (get_block_signature sv id s).0 ≡ ok sig
      → (height : ℕ) × (sv.block_height id ≡ ok height)
        × (sv.block_id_at_height height ≡ ok id)
        × ((get_block_signature sv id s).1 ≡ s)
  unfolding get_block_signature verify_block_message get_accepted_block
  get_block_signature-eq-ok id s h = elim (Outcome-cases (sv.block_height id)) [
    | inl (height, e) ↦ (height, e, ground arith, ground arith)
    | inr (inl (x, e)) ↦ absurd (ground arith)
    | inr (inr e) ↦ absurd (ground arith)
  ]

  get_message-eq :
      (id : Bytes) (db : sv.Database) {bytes : Bytes} {m : Message}
      → sv.get id db ≡ ok bytes
      → sv.parse_message bytes ≡ ok m
      → get_message sv id db ≡ ok m
  unfolding get_message
  get_message-eq id db e f = rw (e, f) refl

  -- `AddMessage` answers no error only where `Set` has written and the signer signs, and the
  -- database is then what `Set` returned.
  pub add_message-eq-ok :
      (m : Message) (db db' : sv.Database)
      → add_message sv m db ≡ (ok tt, db')
      → (sv.set (sv.message_id m) (sv.message_bytes m) db ≡ ok db')
        × ((sig : Bytes) × (sv.sign m ≡ ok sig))
  unfolding add_message sign_message
  add_message-eq-ok m db db' h =
      elim (Outcome-cases (sv.set (sv.message_id m) (sv.message_bytes m) db)) [
        | inr (inl (x, e)) ↦ absurd (ground arith)
        | inr (inr e) ↦ absurd (ground arith)
        | inl (d, w) ↦ elim (Outcome-cases (sv.sign m)) [
          | inl (sig, e) ↦ (ground arith, (sig, e))
          | inr (inl (x, e)) ↦ absurd (ground arith)
          | inr (inr e) ↦ absurd (ground arith)
        ]
      ]

  -- The messages of a database: what `Set` wrote under a key, `Get` reads; the codec reads a message
  -- back.
  pub record Stores (m : Message) (db : sv.Database) : Type 0 where
    pub reads_back :
        (db' : sv.Database)
        → sv.set (sv.message_id m) (sv.message_bytes m) db ≡ ok db'
        → sv.get (sv.message_id m) db' ≡ ok (sv.message_bytes m)
    pub parses : sv.parse_message (sv.message_bytes m) ≡ ok m

  -- After `AddMessage` has stored a message, `GetMessage` returns it, and `GetMessageSignature` returns
  -- the signature of the signer, provided that the database reads back what it stored and the codec
  -- reads back the message.
  pub get_message_signature-add_message :
      (m : Message) (db db' : sv.Database) (s : Stats)
      → Stores m db
      → add_message sv m db ≡ (ok tt, db')
      → (get_message sv (sv.message_id m) db' ≡ ok m)
        × ((sig : Bytes) × (sv.sign m ≡ ok sig) × ((get_message_signature sv m db' s).0 ≡ ok sig))
  get_message_signature-add_message m db db' s st h =
      let (written, (sig, signed)) = parts in
      let found = got written in
      (found, (sig, signed, (get_message_signature-ok_iff m db' s sig).1 ((m, found), signed)))
    where
      parts :
          (sv.set (sv.message_id m) (sv.message_bytes m) db ≡ ok db')
          × ((sig : Bytes) × (sv.sign m ≡ ok sig))
      parts = add_message-eq-ok m db db' h

      got :
          sv.set (sv.message_id m) (sv.message_bytes m) db ≡ ok db'
          → get_message sv (sv.message_id m) db' ≡ ok m
      got w = get_message-eq (sv.message_id m) db' (st.reads_back db' w) st.parses
