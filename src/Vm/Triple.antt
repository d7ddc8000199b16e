-- ===== src/Vm/Triple.antt =====
-- Triples for handlers: an invariant `I` is kept whatever the result, and a postcondition holds of a
-- value that is returned.
use slide_sdk.Common.{◌≡◌, refl}
use slide_sdk.Common.Outcome.{ok, err, panic}
use slide_sdk.Chain.Types.{Result}
use slide_sdk.Executor.World.{Trace}
use slide_sdk.Vm.Storage.{Caches}
use slide_sdk.Vm.Machine.{Vm, Handler, lift, pure, continue, ◌>>=◌}

-- What holds of a result: nothing of an error or a panic.
abbrev pub IfOk : {A : Type 0} → (A → Type 0) → Result A → Type 0
IfOk Q (ok a) = Q a
IfOk Q (err e) = Unit
IfOk Q panic = Unit

pub record Triple {c : Caches} {A : Type 0} (I Pre : Vm c → Type 0) (m : Handler c A)
    (Q : A → Vm c → Type 0) : Type 0 where
  pub at :
      (vm : Vm c) (tr : Trace)
      → I vm
      → Pre vm
      → I (m vm tr).1 × IfOk (λ a. Q a (m vm tr).1) (m vm tr).0

-- No condition.
abbrev pub Any : {c : Caches} → Vm c → Type 0
Any vm = Unit

module _ {c : Caches} {I : Vm c → Type 0} {A : Type 0} where
  pub Triple-pure :
      {Pre : Vm c → Type 0} (a : A) (Q : A → Vm c → Type 0)
      → ((vm : Vm c) → I vm → Pre vm → Q a vm)
      → Triple I Pre (pure a) Q
  Triple-pure a Q h = record { at = λ vm tr i p. (i, h vm i p) }

  pub Triple-lift :
      {Pre : Vm c → Type 0} (r : Result A) (Q : A → Vm c → Type 0)
      → ((vm : Vm c) (a : A) → I vm → Pre vm → r ≡ ok a → Q a vm)
      → Triple I Pre (lift r) Q
  Triple-lift (ok a) Q h = record { at = λ vm tr i p. (i, h vm a i p refl) }
  Triple-lift (err e) Q h = record { at = λ vm tr i p. (i, tt) }
  Triple-lift panic Q h = record { at = λ vm tr i p. (i, tt) }

  -- a handler that computes a new state
  pub Triple-step :
      {Pre : Vm c → Type 0} (f : Vm c → A × Vm c) (Q : A → Vm c → Type 0)
      → ((vm : Vm c) → I vm → Pre vm → I (f vm).1 × Q (f vm).0 (f vm).1)
      → Triple I Pre (λ vm tr. (ok (f vm).0, (f vm).1, tr)) Q
  Triple-step f Q h = record { at = λ vm tr i p. h vm i p }

module _ {c : Caches} {I : Vm c → Type 0} {A B : Type 0} where
  Triple-continue :
      (r : Result A) (f : A → Handler c B) (Q : A → Vm c → Type 0) (R : B → Vm c → Type 0)
      → ((a : A) → Triple I (Q a) (f a) R)
      → (vm : Vm c) (tr : Trace) → I vm
      → IfOk (λ a. Q a vm) r
      → I (continue r f vm tr).1 × IfOk (λ b. R b (continue r f vm tr).1) (continue r f vm tr).0
  Triple-continue (ok a) f Q R h vm tr i q = (h a).at vm tr i q
  Triple-continue (err e) f Q R h vm tr i q = (i, tt)
  Triple-continue panic f Q R h vm tr i q = (i, tt)

  pub Triple-bind :
      {Pre : Vm c → Type 0} {m : Handler c A} {f : A → Handler c B} (Q : A → Vm c → Type 0)
      {R : B → Vm c → Type 0}
      → Triple I Pre m Q
      → ((a : A) → Triple I (Q a) (f a) R)
      → Triple I Pre (m >>= f) R
  unfolding ◌>>=◌
  Triple-bind {m = m} {f = f} Q {R = R} hm hf = record {
    at = λ vm tr i p.
        Triple-continue (m vm tr).0 f Q R hf (m vm tr).1 (m vm tr).2 (hm.at vm tr i p).0
          (hm.at vm tr i p).1;
  }

IfOk-map :
    {A : Type 0} {Q R : A → Type 0} (r : Result A) → ((a : A) → Q a → R a) → IfOk Q r → IfOk R r
IfOk-map (ok a) f h = f a h
IfOk-map (err e) f h = tt
IfOk-map panic f h = tt

module _ {c : Caches} {I : Vm c → Type 0} {A : Type 0} where
  -- a stronger precondition and a weaker postcondition
  pub Triple-weaken :
      {Pre : Vm c → Type 0} (Pre' : Vm c → Type 0) {m : Handler c A} {Q : A → Vm c → Type 0}
      (R : A → Vm c → Type 0)
      → ((vm : Vm c) → Pre' vm → Pre vm)
      → ((a : A) (vm : Vm c) → Q a vm → R a vm)
      → Triple I Pre m Q
      → Triple I Pre' m R
  Triple-weaken Pre' {m = m} R f g t = record {
    at = λ vm tr i q.
        let (i', h) = t.at vm tr i (f vm q) in (i', IfOk-map (m vm tr).0 (λ a. g a (m vm tr).1) h);
  }

  -- a fact that no state changes
  pub Triple-given :
      {P : Type 0} {Pre : Vm c → Type 0} {m : Handler c A} {Q : A → Vm c → Type 0}
      → (P → Triple I Pre m Q)
      → Triple I (λ vm. Pre vm × P) m Q
  Triple-given f = record { at = λ vm tr i q. (f q.1).at vm tr i q.0 }
