-- ===== src/Vm/Invariant/Runs.antt =====
-- Runs of the machine (vm/vm.go): a machine that `Initialize` has made, then any calls of its handlers
-- in any order. A call that fails leaves the machine running, and one that panics ends it.
use slide_sdk.Common.{
  ℕ, ◌≡◌, refl, sym, subst, Bool, true, false, Option, none, some, List, Bytes, ◌==◌, if◌then◌else◌,
}
use slide_sdk.Common.Outcome.{panic}
use slide_sdk.Chain.Types.{Block, State}
use slide_sdk.Chain.Library.{Library}
use slide_sdk.Executor.World.{World, Trace}
use slide_sdk.Executor.Apply.{Limits}
use slide_sdk.Vm.Storage.{Caches, new_storage}
use slide_sdk.Vm.Machine.{state_bootstrapping, state_normal_op, Vm, Handler, modify}
use slide_sdk.Vm.Blocks.{
  parse_block, batched_parse_block, get_block, get_block_id_at_height, block_verify, block_reject,
}
use slide_sdk.Vm.Consensus.{
  build_block, block_accept, set_preference, connected, disconnected, set_bootstrapped,
  report_state, set_state,
}
use slide_sdk.Vm.Triple.{Triple, Triple-pure, Triple-bind, Any}
use slide_sdk.Vm.Invariant.{Promises, IsValid}
use slide_sdk.Vm.Invariant.Steps.{new_storage-IsValid}
use slide_sdk.Vm.Invariant.Blocks.{Inv, parse_block-Triple}
use slide_sdk.Vm.Invariant.Handlers.{
  Keeps, Keeps-lift, exec-Triple, batched_parse_block-Keeps, block_reject-Keeps, block_accept-Keeps,
  block_verify-Keeps,
}
use slide_sdk.Vm.Invariant.Serving.{FindsByHash, get_block-Triple, build_block-Keeps}

-- A call of one handler.
pub data Call : Type 0 where
  build connect disconnect : Call
  parse verify get accept reject prefer : Bytes → Call
  batched : List Bytes → Call
  id_at_height change_state : ℕ → Call

module _ {c : Caches} where
  -- The machine that a call leaves, if the call did not panic.
  abbrev pub Next : {A : Type 0} → Handler c A → Vm c → Trace → Vm c → Trace → Type 0
  Next m vm tr vm' tr' = ((m vm tr).0 ≡ panic → ⊥) × ((m vm tr).1 ≡ vm') × ((m vm tr).2 ≡ tr')

  module _ (lib : Library) (w : World) (limits : Limits) where
    abbrev pub Step : Call → Vm c → Trace → Vm c → Trace → Type 0
    Step Call.build = Next (build_block lib w limits)
    Step Call.connect = Next connected
    Step Call.disconnect = Next disconnected
    Step (Call.parse bytes) = Next (parse_block lib bytes)
    Step (Call.verify bytes) = Next (block_verify lib bytes)
    Step (Call.get id) = Next (get_block lib w id)
    Step (Call.accept id) = Next (block_accept lib w id)
    Step (Call.reject id) = Next (block_reject id)
    Step (Call.prefer id) = Next (set_preference id)
    Step (Call.batched bs) = Next (batched_parse_block lib bs)
    Step (Call.id_at_height h) = Next (get_block_id_at_height lib w h)
    Step (Call.change_state n) = Next (set_state lib w n)

    -- The machines that runs from an initialized one reach.
    pub data Reach (initial : State) : Vm c → Trace → Type 0 where
      start :
          (vm : Vm c) (tr : Trace)
          → vm.storage ≡ new_storage
          → vm.state ≡ initial
          → Reach initial vm tr
      later :
          {vm vm' : Vm c} {tr tr' : Trace}
          → Reach initial vm tr
          → (call : Call) → Step call vm tr vm' tr'
          → Reach initial vm' tr'

module _ (lib : Library) (w : World) (limits : Limits) {c : Caches} (p : Promises c) where
  modify-Keeps :
      (f : Vm c → Vm c) → ((vm : Vm c) → (f vm).storage ≡ vm.storage) → Keeps lib p (modify f)
  modify-Keeps f e = record { at = λ vm tr i q. (subst (IsValid lib p) (sym (e vm)) i, tt) }

  set_preference-Keeps : (id : Bytes) → Keeps lib p (set_preference id)
  unfolding set_preference
  set_preference-Keeps id =
      Triple-bind (λ _. Any) (Keeps-lift lib p _) (λ a. modify-Keeps _ (λ vm. refl))

  Keeps-if :
      {A : Type 0} (b : Bool) (m n : Handler c A)
      → Keeps lib p m
      → Keeps lib p n
      → Keeps lib p (if b then m else n)
  Keeps-if true m n h k = h
  Keeps-if false m n h k = k

  set_bootstrapped-Keeps : (n : ℕ) → Keeps lib p (set_bootstrapped n)
  unfolding set_bootstrapped
  set_bootstrapped-Keeps n =
      Keeps-if (n == state_bootstrapping) _ _ (modify-Keeps _ (λ vm. refl))
        (Keeps-if (n == state_normal_op) _ _ (modify-Keeps _ (λ vm. refl)) (Keeps-lift lib p _))

  report_state-Keeps :
      (n : ℕ) (s : State) (o : Option Block) → Keeps lib p (report_state lib w n s o)
  unfolding report_state
  report_state-Keeps n s none = Keeps-lift lib p _
  report_state-Keeps n s (some b) =
      Triple-bind (λ _. Any) (Keeps-lift lib p _)
        (λ parent.
          Triple-bind (λ _. Any) (modify-Keeps _ (λ vm. refl))
            (λ _. Triple-pure _ _ (λ vm i q. tt)))

  set_state-Keeps : (n : ℕ) → Keeps lib p (set_state lib w n)
  unfolding set_state
  set_state-Keeps n =
      Triple-bind (λ _. Any) (set_bootstrapped-Keeps n)
        (λ _.
          Triple-bind (λ _. Any) (record { at = λ vm tr i q. (i, tt) })
            (λ s. Triple-bind (λ _. Any) (exec-Triple lib p Any _) (λ o. report_state-Keeps n s o)))

  get_block_id_at_height-Keeps : (h : ℕ) → Keeps lib p (get_block_id_at_height lib w h)
  unfolding get_block_id_at_height
  get_block_id_at_height-Keeps h =
      Triple-bind (λ _. Any) (exec-Triple lib p Any _) (λ o. Triple-pure _ _ (λ vm i q. tt))

  Keeps-Next :
      {A : Type 0} {m : Handler c A} {Q : A → Vm c → Type 0} {vm vm' : Vm c} {tr tr' : Trace}
      → Triple (Inv lib p) Any m Q
      → Next m vm tr vm' tr'
      → IsValid lib p vm.storage
      → IsValid lib p vm'.storage
  Keeps-Next {vm = vm} {tr = tr} t h i =
      subst (λ x. IsValid lib p x.storage) h.1 (t.at vm tr i tt).0

  connected-Keeps : Keeps lib p connected
  unfolding connected
  connected-Keeps = record { at = λ vm tr i q. (i, tt) }

  disconnected-Keeps : Keeps lib p disconnected
  unfolding disconnected
  disconnected-Keeps = record { at = λ vm tr i q. (i, tt) }

  Step-IsValid :
      FindsByHash lib w
      → (call : Call) (vm vm' : Vm c) (tr tr' : Trace) → Step lib w limits call vm tr vm' tr'
      → IsValid lib p vm.storage
      → IsValid lib p vm'.storage
  Step-IsValid finds Call.build vm vm' tr tr' h = Keeps-Next (build_block-Keeps lib p w limits) h
  Step-IsValid finds Call.connect vm vm' tr tr' h = Keeps-Next connected-Keeps h
  Step-IsValid finds Call.disconnect vm vm' tr tr' h = Keeps-Next disconnected-Keeps h
  Step-IsValid finds (Call.parse bytes) vm vm' tr tr' h =
      Keeps-Next (parse_block-Triple lib p bytes) h
  Step-IsValid finds (Call.verify bytes) vm vm' tr tr' h =
      Keeps-Next (block_verify-Keeps lib p bytes) h
  Step-IsValid finds (Call.get id) vm vm' tr tr' h =
      Keeps-Next (get_block-Triple lib p w finds id) h
  Step-IsValid finds (Call.accept id) vm vm' tr tr' h = Keeps-Next (block_accept-Keeps lib p w id) h
  Step-IsValid finds (Call.reject id) vm vm' tr tr' h = Keeps-Next (block_reject-Keeps lib p id) h
  Step-IsValid finds (Call.prefer id) vm vm' tr tr' h = Keeps-Next (set_preference-Keeps id) h
  Step-IsValid finds (Call.batched bs) vm vm' tr tr' h =
      Keeps-Next (batched_parse_block-Keeps lib p bs) h
  Step-IsValid finds (Call.id_at_height n) vm vm' tr tr' h =
      Keeps-Next (get_block_id_at_height-Keeps n) h
  Step-IsValid finds (Call.change_state n) vm vm' tr tr' h = Keeps-Next (set_state-Keeps n) h

  -- In every run from empty caches, with a store that finds blocks by their hashes: what the caches
  -- hold under an identifier is a block with that hash, and a cached identifier is that of the block
  -- its bytes decode to.
  pub Reach-IsValid :
      FindsByHash lib w
      → (initial : State) {vm : Vm c} {tr : Trace} → Reach lib w limits initial vm tr
      → IsValid lib p vm.storage
  Reach-IsValid finds initial (Reach.start vm tr e f) =
      subst (IsValid lib p) (sym e) (new_storage-IsValid lib p)
  Reach-IsValid finds initial (Reach.later r call h) =
      Step-IsValid finds call _ _ _ _ h (Reach-IsValid finds initial r)
