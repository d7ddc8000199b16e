-- ===== src/Warp/Answers.antt =====
-- What the queries of the warp service answer (vm/warp_service.go).
use slide_sdk.Common.{
  ℕ, ◌≡◌, ◌≢◌, ◌↔◌, ◌⊎◌, inl, inr, ◌∙◌, ap, subst, refl, List, [], ◌∷◌, Bytes, arith,
}
use slide_sdk.Common.Outcome.{ok, err, panic, Outcome-cases}
use slide_sdk.Warp.Backend.{Answer, Message, Services, Stats, wrap, ◌>>=◌, add_message, get_message}
use slide_sdk.Warp.Signing.{Stores, get_message_signature-add_message}
use slide_sdk.Warp.Api.{
  Network, api_add_message, api_get_message, api_get_message_signature, subnet_of, some_validators,
  aggregate_signatures, get_message_aggregate_signature, get_block_aggregate_signature,
}

-- a sequence of answers that returns has had a first answer
bind-eq-ok :
    {A B : Type 0} (first : Answer A) (next : A → Answer B) {b : B}
    → (first >>= next) ≡ ok b
    → (a : A) × (first ≡ ok a) × (next a ≡ ok b)
bind-eq-ok (ok a) next e = (a, refl, e)
bind-eq-ok (err reason) next e = cc
bind-eq-ok panic next e = cc

bind-ok :
    {A B : Type 0} (first : Answer A) (next : A → Answer B) {a : A} {b : B}
    → first ≡ ok a
    → next a ≡ ok b
    → (first >>= next) ≡ ok b
bind-ok first next e f = rw e f

wrap-eq-ok : {A : Type 0} (r : Answer A) {a : A} → wrap r ≡ ok a → r ≡ ok a
wrap-eq-ok (ok a) e = e
wrap-eq-ok (err reason) e = cc
wrap-eq-ok panic e = cc

module _ (sv : Services) (net : Network) where
  -- The steps of a query that aggregates: the subnet, the P-chain's height, the validators there in
  -- their order, at least one, and the aggregator's message.
  pub record Aggregated (getter : Bytes → Message → Answer net.Signature) (source : Bytes)
      (m : Message) (quorum : ℕ) (text bytes : Bytes) : Type 0 where
    pub subnet : Bytes
    pub subnet_chosen :
        ((text ≡ []) × (subnet ≡ source)) ⊎ ((text ≢ []) × (net.id_from_string text ≡ ok subnet))
    pub height : ℕ
    pub at_height : net.current_height ≡ ok height
    pub set : net.ValidatorSet
    pub set_read : net.validator_set height subnet ≡ ok set
    pub first : net.Validator
    pub rest : List net.Validator
    pub weight : ℕ
    pub flattened : net.flatten set ≡ ok (first ∷ rest, weight)
    pub aggregated : net.aggregate getter (first ∷ rest) weight m quorum ≡ ok bytes

  subnet_of-eq-ok :
      (source text : Bytes) {subnet : Bytes}
      → subnet_of sv net source text ≡ ok subnet
      → ((text ≡ []) × (subnet ≡ source)) ⊎ ((text ≢ []) × (net.id_from_string text ≡ ok subnet))
  unfolding subnet_of
  subnet_of-eq-ok source [] e = inl (refl, ground arith)
  subnet_of-eq-ok source (c ∷ rest) e = inr ((λ h. cc), ground arith)

  subnet_of-chosen :
      (source text : Bytes) {subnet : Bytes}
      → ((text ≡ []) × (subnet ≡ source)) ⊎ ((text ≢ []) × (net.id_from_string text ≡ ok subnet))
      → subnet_of sv net source text ≡ ok subnet
  unfolding subnet_of
  subnet_of-chosen source [] (inl (e, f)) = rw f refl
  subnet_of-chosen source [] (inr (e, f)) = absurd (e refl)
  subnet_of-chosen source (c ∷ rest) (inl (e, f)) = cc
  subnet_of-chosen source (c ∷ rest) (inr (e, f)) = ground arith

  some_validators-eq-ok :
      (flat : List net.Validator × ℕ) {vs : List net.Validator} {weight : ℕ}
      → some_validators sv net flat ≡ ok (vs, weight)
      → (flat ≡ (vs, weight))
        × ((first : net.Validator) × (rest : List net.Validator) × (vs ≡ first ∷ rest))
  unfolding some_validators
  some_validators-eq-ok ([], w) e = cc
  some_validators-eq-ok (v ∷ vs, w) e = (ground arith, (v, vs, ground arith))

  some_validators-cons :
      (v : net.Validator) (vs : List net.Validator) (weight : ℕ)
      → some_validators sv net (v ∷ vs, weight) ≡ ok (v ∷ vs, weight)
  unfolding some_validators
  some_validators-cons v vs weight = ground arith

  pub aggregate_signatures-ok_iff :
      (getter : Bytes → Message → Answer net.Signature) (source : Bytes) (m : Message) (quorum : ℕ)
      (text bytes : Bytes)
      → (aggregate_signatures sv net getter source m quorum text ≡ ok bytes)
        ↔ Aggregated getter source m quorum text bytes
  unfolding aggregate_signatures
  aggregate_signatures-ok_iff getter source m quorum text bytes = (
    λ h.
        let (subnet, chosen, h1) = bind-eq-ok (subnet_of sv net source text) at_subnet h in
        let (height, at, h2) = bind-eq-ok net.current_height (at_height subnet) h1 in
        let (set, read, h3) = bind-eq-ok (wrap (net.validator_set height subnet)) of_set h2 in
        let (flat, ordered, h4) = bind-eq-ok (wrap (net.flatten set)) of_flat h3 in
        let (pair, some, signed) = bind-eq-ok (some_validators sv net flat) of_pair h4 in
        let (same, (first, rest, shape)) = some_validators-eq-ok flat some in
        record {
          subnet = subnet;
          subnet_chosen = subnet_of-eq-ok source text chosen;
          height = height;
          at_height = at;
          set = set;
          set_read = wrap-eq-ok (net.validator_set height subnet) read;
          first = first;
          rest = rest;
          weight = pair.1;
          flattened =
              wrap-eq-ok (net.flatten set) ordered ∙ ap ok same ∙ ap (λ vs. ok (vs, pair.1)) shape;
          aggregated =
              subst (λ vs. net.aggregate getter vs pair.1 m quorum ≡ ok bytes) shape signed;
        },
    λ d.
        bind-ok (subnet_of sv net source text) at_subnet
          (subnet_of-chosen source text d.subnet_chosen)
          (bind-ok net.current_height (at_height d.subnet) d.at_height (
            bind-ok (wrap (net.validator_set d.height d.subnet)) of_set (ap wrap d.set_read) (
              bind-ok (wrap (net.flatten d.set)) of_flat (ap wrap d.flattened) (
                bind-ok (some_validators sv net (d.first ∷ d.rest, d.weight)) of_pair
                  (some_validators-cons d.first d.rest d.weight) d.aggregated)))),
  )
    where
      of_pair : List net.Validator × ℕ → Answer Bytes
      of_pair (vs, weight) = net.aggregate getter vs weight m quorum

      of_flat : List net.Validator × ℕ → Answer Bytes
      of_flat flat = some_validators sv net flat >>= of_pair

      of_set : net.ValidatorSet → Answer Bytes
      of_set set = wrap (net.flatten set) >>= of_flat

      at_height : Bytes → ℕ → Answer Bytes
      at_height subnet height = wrap (net.validator_set height subnet) >>= of_set

      at_subnet : Bytes → Answer Bytes
      at_subnet subnet = net.current_height >>= at_height subnet

  -- `GetMessageAggregateSignature` answers bytes exactly where `GetMessage` finds the message and the
  -- steps of the aggregation succeed: a subnet (the source subnet where the text is empty, else the one
  -- that the text names), the validators of the P-chain's current height, at least one, and bytes of
  -- the aggregator for these validators in their order with their weight.
  pub get_message_aggregate_signature-ok_iff :
      (getter : Bytes → Message → Answer net.Signature) (source id : Bytes) (quorum : ℕ)
      (text : Bytes) (db : sv.Database) (bytes : Bytes)
      → (get_message_aggregate_signature sv net getter source id quorum text db ≡ ok bytes) ↔ (
          (m : Message) × (get_message sv id db ≡ ok m)
          × Aggregated getter source m quorum text bytes)
  unfolding get_message_aggregate_signature
  get_message_aggregate_signature-ok_iff getter source id quorum text db bytes = (
    λ h.
        let (m, found, rest) = bind-eq-ok (get_message sv id db) of_message h in
        (m, found, (aggregate_signatures-ok_iff getter source m quorum text bytes).0 rest),
    λ (m, found, d). rw found ((aggregate_signatures-ok_iff getter source m quorum text bytes).1 d),
  )
    where
      of_message : Message → Answer Bytes
      of_message m = aggregate_signatures sv net getter source m quorum text

  -- `GetBlockAggregateSignature` answers bytes exactly where the block's identifier makes a message and
  -- the steps of the aggregation succeed. The block is looked up in no store.
  pub get_block_aggregate_signature-ok_iff :
      (getter : Bytes → Message → Answer net.Signature) (source id : Bytes) (quorum : ℕ)
      (text bytes : Bytes)
      → (get_block_aggregate_signature sv net getter source id quorum text ≡ ok bytes) ↔ (
          (payload : Bytes) × (m : Message) × (sv.hash_payload id ≡ ok payload)
          × (sv.new_message sv.network_id sv.source_chain_id payload ≡ ok m)
          × Aggregated getter source m quorum text bytes)
  unfolding get_block_aggregate_signature
  get_block_aggregate_signature-ok_iff getter source id quorum text bytes = (
    λ h.
        let (payload, hashed, h1) = bind-eq-ok (sv.hash_payload id) of_payload h in
        let (m, made, rest) = bind-eq-ok (new_message payload) of_message h1 in
        (
          payload,
          m,
          hashed,
          made,
          (aggregate_signatures-ok_iff getter source m quorum text bytes).0 rest,
        ),
    λ (payload, m, hashed, made, d). bind-ok (sv.hash_payload id) of_payload hashed (
        bind-ok (new_message payload) of_message made
          ((aggregate_signatures-ok_iff getter source m quorum text bytes).1 d)),
  )
    where
      new_message : Bytes → Answer Message
      new_message payload = sv.new_message sv.network_id sv.source_chain_id payload

      of_message : Message → Answer Bytes
      of_message m = aggregate_signatures sv net getter source m quorum text

      of_payload : Bytes → Answer Bytes
      of_payload payload = new_message payload >>= of_message

  api_add_message-eq-ok :
      (bytes : Bytes) (m : Message) (db db' : sv.Database) {text : Bytes}
      → sv.parse_message bytes ≡ ok m
      → api_add_message sv net bytes db ≡ (ok text, db')
      → (add_message sv m db ≡ (ok tt, db')) × (text ≡ net.id_string (sv.message_id m))
  unfolding api_add_message
  api_add_message-eq-ok bytes m db db' parsed h = elim (Outcome-cases (add_message sv m db).0) [
    | inl (t, e) ↦ (ground arith, ground arith)
    | inr (inl (x, e)) ↦ absurd (ground arith)
    | inr (inr e) ↦ absurd (ground arith)
  ]

  -- After the service's `AddMessage` has answered, for the bytes of a message, the answer is the text
  -- of the message's identifier; `GetMessage` at that text answers the message's bytes and
  -- `GetMessageSignature` the signature of the signer. The database reads back what it stored, the
  -- codec the message, and the text form of the identifier is read back as the identifier.
  pub api_round_trip :
      (bytes : Bytes) (m : Message) (db db' : sv.Database) (s : Stats) {text : Bytes}
      → sv.parse_message bytes ≡ ok m
      → Stores sv m db
      → net.id_from_string (net.id_string (sv.message_id m)) ≡ ok (sv.message_id m)
      → api_add_message sv net bytes db ≡ (ok text, db')
      → (text ≡ net.id_string (sv.message_id m))
        × (api_get_message sv net text db' ≡ ok (sv.message_bytes m))
        × ((sig : Bytes) × (sv.sign m ≡ ok sig)
            × ((api_get_message_signature sv net text db' s).0 ≡ ok sig))
  unfolding api_add_message api_get_message api_get_message_signature
  api_round_trip bytes m db db' s {text} parsed st reads h =
      let (added, named) = api_add_message-eq-ok bytes m db db' parsed h in
      let (found, (sig, signed, answered)) =
        get_message_signature-add_message sv m db db' s st added in
      (named, rw (named, reads, found) refl, (sig, signed, ground arith))
