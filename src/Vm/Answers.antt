-- ===== src/Vm/Answers.antt =====
-- What `ParseBlock` and `GetBlock` (vm/vm.go) answer.
use slide_sdk.Common.{◌≡◌, subst, Bytes}
use slide_sdk.Common.Outcome.{ok}
use slide_sdk.Chain.Library.{Library}
use slide_sdk.Executor.World.{World, Trace}
use slide_sdk.Vm.Storage.{Caches}
use slide_sdk.Vm.Machine.{Vm, Handler}
use slide_sdk.Vm.Blocks.{ParseResponse, GetResponse, parse_block, get_block}
use slide_sdk.Vm.Triple.{Triple, IfOk, Any}
use slide_sdk.Vm.Invariant.{Promises, Names, IsValid}
use slide_sdk.Vm.Invariant.Blocks.{Inv, parse_block-Triple}
use slide_sdk.Vm.Invariant.Handlers.{AnswersFor}
use slide_sdk.Vm.Invariant.Serving.{FindsByHash, get_block-Triple}

module _ (lib : Library) {c : Caches} (p : Promises c) where
  Triple-returns :
      {A : Type 0} {m : Handler c A} {Q : A → Vm c → Type 0} {vm vm' : Vm c} {tr tr' : Trace}
      {a : A}
      → Triple (Inv lib p) Any m Q
      → IsValid lib p vm.storage
      → m vm tr ≡ (ok a, vm', tr')
      → IsValid lib p vm'.storage × Q a vm'
  Triple-returns {Q = Q} {vm = vm} {tr = tr} t i e =
      subst (λ r. Inv lib p r.1 × IfOk (λ a. Q a r.1) r.0) e (t.at vm tr i tt)

  -- From valid caches, a `ParseBlock` that returns leaves valid caches, and the identifier that it
  -- answers is the hash of the block that the bytes decode to, also where the caches answered.
  pub parse_block-Names :
      (bytes : Bytes) (vm : Vm c) (tr : Trace) {vm' : Vm c} {tr' : Trace} {response : ParseResponse}
      → IsValid lib p vm.storage
      → parse_block lib bytes vm tr ≡ (ok response, vm', tr')
      → IsValid lib p vm'.storage × Names lib bytes response.id
  parse_block-Names bytes vm tr i e = Triple-returns (parse_block-Triple lib p bytes) i e

  -- From valid caches, and with a store that finds blocks by their hashes, a `GetBlock` that returns
  -- leaves valid caches, and a block that it answers has the requested identifier as its hash and is
  -- answered with its own encoding, parent, height and time.
  pub get_block-AnswersFor :
      (w : World)
      → FindsByHash lib w
      → (id : Bytes) (vm : Vm c) (tr : Trace) {vm' : Vm c} {tr' : Trace} {response : GetResponse}
      → IsValid lib p vm.storage
      → get_block lib w id vm tr ≡ (ok response, vm', tr')
      → IsValid lib p vm'.storage × AnswersFor lib p id response
  get_block-AnswersFor w finds id vm tr i e = Triple-returns (get_block-Triple lib p w finds id) i e
