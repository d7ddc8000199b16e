-- ===== src/Vm/Starting.antt =====
-- The part of `Initialize` (vm/vm.go) that finds or makes the last block, and its answer.
use slide_sdk.Common.{
  ℕ, ◌≡◌, refl, sym, ap, ◌∙◌, ◌⊎◌, inl, inr, true, false, Option, none, some, [], Bytes,
  if◌then◌else◌, arith, Bool-cases, subst,
}
use slide_sdk.Common.Int.{pos, ltb_ℤ, ◌≤ℤ◌, ◌<ℤ◌, add_int64, to_uint64}
use slide_sdk.Common.Outcome.{ok, err, panic}
use slide_sdk.Chain.Types.{Block, State, ExtendedCommit, accepted, Result, Error}
use slide_sdk.Chain.Library.{Library}
use slide_sdk.Chain.Validate.{encode_block_with_status}
use slide_sdk.Executor.World.{
  World, Exec, Trace, ask, lift, pure, bind-eq-ok, bind-lift-eq-ok, ◌>>=◌,
}
use slide_sdk.Executor.Apply.{Limits, create_proposal_block}
use slide_sdk.Vm.Commit.{commit_block}
use slide_sdk.Vm.Consensus.{proposer_address, parent_hash}
use slide_sdk.Vm.Accepting.{Committed, commit_block-Committed}

-- `&types.ExtendedCommit{}`
abbrev pub no_commit : ExtendedCommit
no_commit = record {
  height = pos 0;
  round = pos 0;
  block_id = record { hash = []; part_set_header = [] };
  extended_signatures = [];
}

-- `InitializeResponse`
pub record InitializeResponse : Type 0 where
  pub last_accepted_id : Bytes
  pub last_accepted_parent_id : Bytes
  pub height : ℕ
  pub bytes : Bytes
  pub timestamp : ℕ

module _ (lib : Library) (w : World) (limits : Limits) where
  -- the block that is made where there is none
  unfoldable pub first_block : State → Exec (Option Block × State)
  first_block s = do
    b ←
        create_proposal_block lib w limits (add_int64 s.last_block_height (pos 1)) s no_commit
          proposer_address
    t ← commit_block lib w s b
    pure (some b, t)

  -- the last block, and the state after it: loaded, or made and committed where there is none
  unfoldable pub last_block : State → Exec (Option Block × State)
  last_block s =
      if ltb_ℤ (pos 0) s.last_block_height
      then ask (λ tr. (w.load_block tr s.last_block_height, s))
      else first_block s

  -- the answer; `Block.ToProto` refuses the nil of a block that is not stored
  unfoldable pub initialize_response : Error → Option Block → Result InitializeResponse
  initialize_response nil_block none = err nil_block
  initialize_response nil_block (some b) = elim (encode_block_with_status lib b accepted) [
    | err e ↦ err e
    | panic ↦ panic
    | ok bytes ↦ elim (parent_hash b) [
      | err e ↦ err e
      | panic ↦ panic
      | ok parent ↦ ok (record {
        last_accepted_id = lib.block_hash b;
        last_accepted_parent_id = parent;
        height = to_uint64 b.header.height;
        bytes = bytes;
        timestamp = b.header.time;
      })
    ]
  ]

  -- the new state of the machine, and the answer
  unfoldable pub start : Error → State → Exec (State × InitializeResponse)
  start nil_block s = do
    (stored, t) ← last_block s
    response ← lift (initialize_response nil_block stored)
    pure (t, response)

  -- How a block came to be the last one of a machine that starts.
  abbrev pub Begun : State → Trace → Block → State → Trace → Type 0
  Begun s tr b t tr' =
      ((pos 0 <ℤ s.last_block_height)
        × (w.load_block tr s.last_block_height ≡ some b)
        × (t ≡ s)
        × (tr' ≡ tr))
      ⊎ ((s.last_block_height ≤ℤ pos 0)
          × ((proposed : Trace) × ((create_proposal_block lib w limits
                    (add_int64 s.last_block_height (pos 1)) s no_commit proposer_address tr
                  ≡ (ok b, proposed))
                × Committed lib w s b proposed t tr')))

  first_block-Committed :
      (s : State) (tr : Trace) {b : Block} {t : State} {tr' : Trace}
      → first_block s tr ≡ (ok (some b, t), tr')
      → (proposed : Trace) × ((create_proposal_block lib w limits
              (add_int64 s.last_block_height (pos 1))
              s
              no_commit
              proposer_address
              tr
            ≡ (ok b, proposed))
          × Committed lib w s b proposed t tr')
  unfolding first_block
  first_block-Committed s tr {b = b} {t = t} {tr' = tr'} e =
      let (b', proposed, made, k0) = bind-eq-ok _ _ e in
      let (t', u, committed, k1) = bind-eq-ok _ _ k0 in
      let same_b : b' ≡ b = cc in
      let same_t : t' ≡ t = cc in
      let same_u : u ≡ tr' = cc in
      (
        proposed,
        (
          made ∙ ap (λ x. (ok x, proposed)) same_b,
          subst (λ x. Committed lib w s x proposed t tr') same_b
              (commit_block-Committed lib w s b'
                (committed ∙ ap (λ x. (ok x, u)) same_t ∙ ap (λ x. (ok t, x)) same_u)),
        ),
      )

  last_block_has :
      (s : State) (tr : Trace)
      → ltb_ℤ (pos 0) s.last_block_height ≡ true
      → last_block s tr ≡ (ok (w.load_block tr s.last_block_height, s), tr)
  unfolding last_block
  last_block_has s tr h = rw (last_block, h) refl

  last_block_first :
      (s : State) (tr : Trace)
      → ltb_ℤ (pos 0) s.last_block_height ≡ false
      → last_block s tr ≡ first_block s tr
  unfolding last_block
  last_block_first s tr h = rw (last_block, h) refl

  pub last_block-Begun :
      (s : State) (tr : Trace) {b : Block} {t : State} {tr' : Trace}
      → last_block s tr ≡ (ok (some b, t), tr')
      → Begun s tr b t tr'
  last_block-Begun s tr {b = b} {t = t} {tr' = tr'} e =
      elim (Bool-cases (ltb_ℤ (pos 0) s.last_block_height)) [
        | inl has ↦ let found = sym (last_block_has s tr has) ∙ e in inl (ground arith, cc, cc, cc)
        | inr first ↦
            let made = sym (last_block_first s tr first) ∙ e in
            inr (ground arith, first_block-Committed s tr made)
      ]

  pub initialize_response-ok :
      (nil_block : Error) (o : Option Block) {r : InitializeResponse}
      → initialize_response nil_block o ≡ ok r
      → (b : Block) × ((o ≡ some b)
          × (r.last_accepted_id ≡ lib.block_hash b)
          × (encode_block_with_status lib b accepted ≡ ok r.bytes)
          × (r.height ≡ to_uint64 b.header.height))
  unfolding initialize_response
  initialize_response-ok nil_block none e = absurd cc
  initialize_response-ok nil_block (some b) e =
      (b, (refl, ground arith, ground arith, ground arith))

  -- A machine that starts on a chain with blocks answers the block at the height of its state, and changes
  -- and calls nothing; on a chain with none it proposes the first block, commits it as `BlockAccept` does,
  -- and answers that block.
  pub start-Begun :
      (nil_block : Error) (s : State) (tr : Trace) {t : State} {response : InitializeResponse}
      {tr' : Trace}
      → start nil_block s tr ≡ (ok (t, response), tr')
      → (b : Block) × (Begun s tr b t tr'
          × (response.last_accepted_id ≡ lib.block_hash b)
          × (encode_block_with_status lib b accepted ≡ ok response.bytes)
          × (response.height ≡ to_uint64 b.header.height))
  unfolding start
  start-Begun nil_block s tr {t = t} {response = response} {tr' = tr'} e =
      let (last, u, found, k0) = bind-eq-ok _ _ e in
      let (r, answered, k1) = bind-lift-eq-ok _ _ k0 in
      let same_t : last.1 ≡ t = cc in
      let same_r : r ≡ response = cc in
      let same_u : u ≡ tr' = cc in
      let (b, (is, id, bytes, height)) =
        initialize_response-ok nil_block last.0 (answered ∙ ap ok same_r) in
      let found' : last_block s tr ≡ (ok (some b, t), tr') = cc in
      (b, (last_block-Begun s tr found', id, bytes, height))
