-- ===== src/Executor/World.antt =====
-- The application, the stores, the mempool and the event bus as the executor sees them: each call is
-- an event, and its answer is a function of the calls made before it.
use slide_sdk.Common.{ℕ, ◌≡◌, refl, Option, List, ◌∷◌, Bytes, arith}
use slide_sdk.Common.Int.{ℤ}
use slide_sdk.Common.Outcome.{ok, err, panic}
use slide_sdk.Chain.Types.{
  Block, BlockId, Commit, State, Validator, ValidatorSet, FinalizeResponse, CommitInfo,
  ExtendedCommitInfo, Error, Result,
}

-- `abci.RequestFinalizeBlock`, and with the same fields `RequestProcessProposal`.
pub record FinalizeRequest : Type 0 where
  pub hash : Bytes
  pub next_validators_hash : Bytes
  pub proposer_address : Bytes
  pub height : ℤ
  pub time : ℕ
  pub last_commit : CommitInfo
  pub misbehavior : List Bytes
  pub txs : List Bytes

-- `abci.RequestPrepareProposal`.
pub record PrepareRequest : Type 0 where
  pub max_tx_bytes : ℤ
  pub txs : List Bytes
  pub local_last_commit : ExtendedCommitInfo
  pub misbehavior : List Bytes
  pub height : ℤ
  pub time : ℕ
  pub next_validators_hash : Bytes
  pub proposer_address : Bytes

-- What `fireEvents` publishes.
pub data Publication : Type 0 where
  new_block : Block → BlockId → FinalizeResponse → Publication
  new_block_header : Block → Publication
  new_block_events : ℤ → Bytes → ℕ → Publication
  new_evidence : Bytes → ℤ → Publication
  tx : ℤ → ℕ → Bytes → Bytes → Publication
  validator_set_updates : List Validator → Publication

pub data Event : Type 0 where
  prepare_proposal : PrepareRequest → Event
  process_proposal finalize_block : FinalizeRequest → Event
  save_response : ℤ → FinalizeResponse → Event
  mempool_lock mempool_unlock flush_app_conn app_commit : Event
  mempool_update : ℤ → List Bytes → List Bytes → State → Event
  save_state : State → Event
  prune_blocks : ℤ → State → Event
  prune_states : ℤ → ℤ → ℤ → Event
  publish : Publication → Event
  save_block : Block → Bytes → Commit → Event

-- The calls made so far, the latest first.
abbrev pub Trace : Type 0
Trace = List Event

-- The two answers of `ProcessProposal`; `unknown` is the status that the caller panics on.
pub data Verdict : Type 0 where
  accept reject unknown : Verdict

pub record World : Type 0 where
  -- the application
  pub prepare_proposal : Trace → PrepareRequest → Result (List Bytes)
  pub process_proposal : Trace → FinalizeRequest → Result Verdict
  pub finalize_block : Trace → FinalizeRequest → Result FinalizeResponse
  pub app_commit : Trace → Result ℤ
  -- the mempool
  pub reap : Trace → ℤ → ℤ → List Bytes
  pub flush_app_conn : Trace → Result (Unit {0})
  pub mempool_update : Trace → ℤ → List Bytes → List Bytes → State → Result (Unit {0})
  -- the store of states
  pub load_validators : Trace → ℤ → Result ValidatorSet
  pub save_response : Trace → ℤ → FinalizeResponse → Result (Unit {0})
  pub save_state : Trace → State → Result (Unit {0})
  pub prune_states : Trace → ℤ → ℤ → ℤ → Result (Unit {0})
  -- the store of blocks
  pub base : Trace → ℤ
  pub prune_blocks : Trace → ℤ → State → Result (ℕ × ℤ)
  pub load_block : Trace → ℤ → Option Block
  pub load_block_by_hash : Trace → Bytes → Option Block
  pub save_block : Trace → Block → Bytes → Commit → Result (Unit {0})
  -- the clock and the source of random bytes, at their n-th use by one handler
  pub now : Trace → ℕ → ℕ
  pub random_bytes : Trace → ℕ → Bytes
  -- the event bus
  pub publish : Trace → Publication → Result (Unit {0})

-- An action: its result and the calls made after it.
abbrev pub Exec : Type 0 → Type 0
Exec A = Trace → Result A × Trace

module _ {A : Type 0} where
  abbrev pub lift : Result A → Exec A
  lift r tr = (r, tr)

  abbrev pub pure : A → Exec A
  pure a tr = (ok a, tr)

  -- a call that the outside world answers
  abbrev pub call : Event → (Trace → Result A) → Exec A
  call e answer tr = (answer tr, e ∷ tr)

  -- a read, which leaves no event
  abbrev pub ask : (Trace → A) → Exec A
  ask answer tr = (ok (answer tr), tr)

  -- a read that can fail
  abbrev pub read : (Trace → Result A) → Exec A
  read answer tr = (answer tr, tr)

  -- `if err != nil { log }`: an error is logged and dropped, a panic is not
  abbrev pub drop_error : Result A → Result (Unit {0})
  drop_error (ok a) = ok tt
  drop_error (err e) = ok tt
  drop_error panic = panic

  unfoldable pub ignore_error : Exec A → Exec (Unit {0})
  ignore_error m tr = let (r, tr') = m tr in (drop_error r, tr')

  -- `if err != nil { panic }`
  abbrev pub panic_on_error : Result A → Result A
  panic_on_error (ok a) = ok a
  panic_on_error (err e) = panic
  panic_on_error panic = panic

  -- `if err != nil { return fmt.Errorf(…, err) }`
  abbrev pub map_error : (Error → Error) → Result A → Result A
  map_error f (ok a) = ok a
  map_error f (err e) = err (f e)
  map_error f panic = panic

  unfoldable pub wrap_error : (Error → Error) → Exec A → Exec A
  wrap_error f m tr = let (r, tr') = m tr in (map_error f r, tr')

  -- `defer mempool.Unlock()`
  unfoldable pub with_mempool_lock : Exec A → Exec A
  with_mempool_lock m tr =
      let (r, tr') = m (Event.mempool_lock ∷ tr) in (r, Event.mempool_unlock ∷ tr')

  pub ignore_error-eq :
      (m : Exec A) {tr : Trace} → ignore_error m tr ≡ (drop_error (m tr).0, (m tr).1)
  unfolding ignore_error
  ignore_error-eq m = refl

  pub wrap_error-eq-ok :
      (f : Error → Error) (m : Exec A) {a : A} {tr tr' : Trace}
      → wrap_error f m tr ≡ (ok a, tr')
      → m tr ≡ (ok a, tr')
  unfolding wrap_error
  wrap_error-eq-ok f m h = ground arith

  pub with_mempool_lock-eq-ok :
      (m : Exec A) {a : A} {tr tr' : Trace}
      → with_mempool_lock m tr ≡ (ok a, tr')
      → (t : Trace) × (m (Event.mempool_lock ∷ tr) ≡ (ok a, t)) × (tr' ≡ Event.mempool_unlock ∷ t)
  unfolding with_mempool_lock
  with_mempool_lock-eq-ok m {tr = tr} h =
      ((m (Event.mempool_lock ∷ tr)).1, ground arith, ground arith)

module _ {A B : Type 0} where
  abbrev pub continue : Result A → (A → Exec B) → Exec B
  continue (ok a) f tr = f a tr
  continue (err e) f tr = (err e, tr)
  continue panic f tr = (panic, tr)

  infixl 5 ◌>>=◌ ◌>>◌
  unfoldable pub ◌>>=◌ : Exec A → (A → Exec B) → Exec B
  ◌>>=◌ m f tr = let (r, tr') = m tr in continue r f tr'

  abbrev pub ◌>>◌ : Exec A → Exec B → Exec B
  m >> n = m >>= λ _. n

  -- a block that returns has run its first action to the end
  pub bind-eq-ok :
      (m : Exec A) (f : A → Exec B) {b : B} {tr tr' : Trace}
      → (m >>= f) tr ≡ (ok b, tr')
      → (a : A) × (t : Trace) × (m tr ≡ (ok a, t)) × (f a t ≡ (ok b, tr'))
  unfolding ◌>>=◌
  bind-eq-ok m f {b = b} {tr = tr} {tr' = tr'} h = go (m tr).0 (m tr).1 refl h
    where
      go :
          (r : Result A) (t : Trace)
          → m tr ≡ (r, t)
          → continue r f t ≡ (ok b, tr')
          → (a : A) × (u : Trace) × (m tr ≡ (ok a, u)) × (f a u ≡ (ok b, tr'))
      go (ok a) t e k = (a, t, e, k)
      go (err x) t e k = cc
      go panic t e k = cc

  -- The same for each kind of first action.
  pub bind-lift-eq-ok :
      (r : Result A) (f : A → Exec B) {b : B} {tr tr' : Trace}
      → (lift r >>= f) tr ≡ (ok b, tr')
      → (a : A) × (r ≡ ok a) × (f a tr ≡ (ok b, tr'))
  unfolding ◌>>=◌
  bind-lift-eq-ok (ok a) f h = (a, refl, h)
  bind-lift-eq-ok (err x) f h = cc
  bind-lift-eq-ok panic f h = cc

  pub bind-read-eq-ok :
      (answer : Trace → Result A) (f : A → Exec B) {b : B} {tr tr' : Trace}
      → (read answer >>= f) tr ≡ (ok b, tr')
      → (a : A) × (answer tr ≡ ok a) × (f a tr ≡ (ok b, tr'))
  unfolding ◌>>=◌
  bind-read-eq-ok answer f {tr = tr} h = bind-lift-eq-ok (answer tr) f {tr = tr} h

  pub bind-call-eq-ok :
      (e : Event) (answer : Trace → Result A) (f : A → Exec B) {b : B} {tr tr' : Trace}
      → (call e answer >>= f) tr ≡ (ok b, tr')
      → (a : A) × (answer tr ≡ ok a) × (f a (e ∷ tr) ≡ (ok b, tr'))
  unfolding ◌>>=◌
  bind-call-eq-ok e answer f {tr = tr} h = bind-lift-eq-ok (answer tr) f {tr = e ∷ tr} h
