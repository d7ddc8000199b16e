-- ===== src/Vm/Machine.antt =====
-- The state of `LandslideVM` (vm/vm.go), and the actions that its handlers are made of: a handler
-- returns its result, the new state and the calls made, also where it fails.
use slide_sdk.Common.{ℕ, Bool, Option, none, some, Bytes, length, ◌==◌, if◌then◌else◌}
use slide_sdk.Common.Outcome.{ok, err, panic}
use slide_sdk.Chain.Types.{State, Result, wrong_hash_length}
use slide_sdk.Executor.World.{Trace, Exec}
use slide_sdk.Vm.Storage.{Caches, Storage, WrappedBlock, dereference}

-- `State` of proto/vm, by its number.
abbrev pub state_bootstrapping : ℕ
state_bootstrapping = 2

abbrev pub state_normal_op : ℕ
state_normal_op = 3

pub record Vm (c : Caches) : Type 0 where
  pub state : State
  pub storage : Storage c
  pub bootstrapped : Bool
  pub vm_state : ℕ
  pub connected : Bool
  pub allow_shutdown : Bool
  pub preferred : Bytes

-- `ids.ToID`.
unfoldable pub to_id : Bytes → Result Bytes
to_id bytes = if length bytes == 32 then ok bytes else err wrong_hash_length

-- `*r`; a nil pointer is a panic.
abbrev pub some_or_panic : Option WrappedBlock → Result WrappedBlock
some_or_panic (some b) = ok b
some_or_panic none = panic

module _ (c : Caches) where
  abbrev pub Handler : Type 0 → Type 0
  Handler A = Vm c → Trace → Result A × Vm c × Trace

module _ {c : Caches} {A : Type 0} where
  abbrev pub lift : Result A → Handler c A
  lift r vm tr = (r, vm, tr)

  abbrev pub pure : A → Handler c A
  pure a vm tr = (ok a, vm, tr)

  abbrev pub gets : (Vm c → A) → Handler c A
  gets f vm tr = (ok (f vm), vm, tr)

  abbrev pub exec : Exec A → Handler c A
  exec m vm tr = let (r, tr') = m tr in (r, vm, tr')

  abbrev pub on_storage : (Storage c → A × Storage c) → Handler c A
  on_storage f vm tr = let (a, s) = f vm.storage in (ok a, record vm { storage = s }, tr)

module _ {c : Caches} where
  abbrev pub modify : (Vm c → Vm c) → Handler c (Unit {0})
  modify f vm tr = (ok tt, f vm, tr)

  abbrev pub change_storage : (Storage c → Storage c) → Handler c (Unit {0})
  change_storage f vm tr = (ok tt, record vm { storage = f vm.storage }, tr)

  unfoldable pub load : ℕ → Handler c WrappedBlock
  load r vm tr = (some_or_panic (dereference r vm.storage), vm, tr)

module _ {c : Caches} {A B : Type 0} where
  abbrev pub continue : Result A → (A → Handler c B) → Handler c B
  continue (ok a) f vm tr = f a vm tr
  continue (err e) f vm tr = (err e, vm, tr)
  continue panic f vm tr = (panic, vm, tr)

  infixl 5 ◌>>=◌ ◌>>◌
  unfoldable pub ◌>>=◌ : Handler c A → (A → Handler c B) → Handler c B
  ◌>>=◌ m f vm tr = let (r, vm', tr') = m vm tr in continue r f vm' tr'

  abbrev pub ◌>>◌ : Handler c A → Handler c B → Handler c B
  m >> n = m >>= λ _. n
