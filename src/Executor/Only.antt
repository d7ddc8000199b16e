-- ===== src/Executor/Only.antt =====
-- Which events an action can add, whatever its result: one rule for each way to build an action.
use slide_sdk.Common.{
  ◌≡◌, refl, ap, subst, Bool, true, false, [], ◌∷◌, ◌++◌, append_assoc, if◌then◌else◌,
}
use slide_sdk.Common.Outcome.{ok, err, panic}
use slide_sdk.Chain.Types.{Error, Result}
use slide_sdk.Executor.World.{
  Event, Trace, Exec, lift, pure, call, ask, continue, ignore_error, wrap_error, ◌>>=◌,
}

-- Every event of a list is as `P` says.
abbrev pub All : (Event → Type 0) → Trace → Type 0
All P [] = Unit
All P (e ∷ tr) = P e × All P tr

pub All-append : (P : Event → Type 0) (xs ys : Trace) → All P xs → All P ys → All P (xs ++ ys)
All-append P [] ys h k = k
All-append P (x ∷ xs) ys h k = (h.0, All-append P xs ys h.1 k)

-- `tr'` is `tr` with later events, all as `P` says.
pub record Extends (P : Event → Type 0) (tr tr' : Trace) : Type 0 where
  pub later : Trace
  pub appended : tr' ≡ later ++ tr
  pub each : All P later

pub Extends-refl : {P : Event → Type 0} {tr : Trace} → Extends P tr tr
Extends-refl = record { later = []; appended = refl; each = tt }

pub Extends-trans :
    {P : Event → Type 0} {t u v : Trace} → Extends P t u → Extends P u v → Extends P t v
Extends-trans a b = record {
  later = b.later ++ a.later;
  appended = rw (append_assoc b.later a.later) (rw (← a.appended) b.appended);
  each = All-append _ b.later a.later b.each a.each;
}

pub Extends-start : {P : Event → Type 0} {t u v : Trace} → t ≡ u → Extends P t v → Extends P u v
Extends-start {P} {v = v} e h = subst (λ t. Extends P t v) e h

-- An action adds only events as `P` says, whether it returns, fails or panics.
pub record Only {A : Type 0} (P : Event → Type 0) (m : Exec A) : Type 0 where
  pub at : (tr : Trace) → Extends P tr (m tr).1

pub Only-after :
    {A : Type 0} {P : Event → Type 0} (m : Exec A) {r : Result A} {tr tr' : Trace}
    → Only P m
    → m tr ≡ (r, tr')
    → Extends P tr tr'
Only-after {P = P} m {tr = tr} h e = subst (Extends P tr) (ap (λ p. p.1) e) (h.at tr)

module _ {A : Type 0} {P : Event → Type 0} where
  pub Only-pure : (a : A) → Only P (pure a)
  Only-pure a = record { at = λ tr. Extends-refl }

  pub Only-lift : (r : Result A) → Only P (lift r)
  Only-lift r = record { at = λ tr. Extends-refl }

  pub Only-ask : (f : Trace → A) → Only P (ask f)
  Only-ask f = record { at = λ tr. Extends-refl }

  pub Only-call : (e : Event) (f : Trace → Result A) → P e → Only P (call e f)
  Only-call e f h = record { at = λ tr. record { later = e ∷ []; appended = refl; each = (h, tt) } }

  pub Only-ignore_error : (m : Exec A) → Only P m → Only P (ignore_error m)
  unfolding ignore_error
  Only-ignore_error m h = record { at = λ tr. h.at tr }

  pub Only-wrap_error : (f : Error → Error) (m : Exec A) → Only P m → Only P (wrap_error f m)
  unfolding wrap_error
  Only-wrap_error f m h = record { at = λ tr. h.at tr }

  pub Only-if : (b : Bool) (m n : Exec A) → Only P m → Only P n → Only P (if b then m else n)
  Only-if true m n hm hn = hm
  Only-if false m n hm hn = hn

module _ {A B : Type 0} {P : Event → Type 0} where
  Only-continue :
      (r : Result A) (f : A → Exec B)
      → ((a : A) → Only P (f a))
      → (tr : Trace) → Extends P tr (continue r f tr).1
  Only-continue (ok a) f h tr = (h a).at tr
  Only-continue (err e) f h tr = Extends-refl
  Only-continue panic f h tr = Extends-refl

  pub Only-bind :
      (m : Exec A) (f : A → Exec B) → Only P m → ((a : A) → Only P (f a)) → Only P (m >>= f)
  unfolding ◌>>=◌
  Only-bind m f hm hf = record {
    at = λ tr. Extends-trans (hm.at tr) (Only-continue (m tr).0 f hf (m tr).1);
  }

pub ruleset only_rules = (
  Only-pure, Only-lift, Only-ask, Only-call, Only-ignore_error, Only-wrap_error, Only-if, Only-bind,
)
