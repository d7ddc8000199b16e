-- ===== src/Executor/Update/Permitted.antt =====
-- The validator updates that `validateValidatorUpdates` lets through.
use slide_sdk.Common.{◌≡◌, ◌⊎◌, inl, inr, true, List, [], ◌∷◌, Bytes, Bool-cases, arith}
use slide_sdk.Common.Int.{pos, ◌≤ℤ◌, eqb_ℤ}
use slide_sdk.Common.Outcome.{ok, Outcome-cases, >>=-eq-ok}
use slide_sdk.Chain.Types.{ValidatorUpdate}
use slide_sdk.Chain.Library.{Library}
use slide_sdk.Executor.Update.{validate_validator_update, validate_validator_updates}

module _ (lib : Library) (params : Bytes) where
  -- a power that is not negative, and a key of a type that the parameters allow unless it is zero
  abbrev pub Permitted : ValidatorUpdate → Type 0
  Permitted u =
      (pos 0 ≤ℤ u.power)
      × ((u.power ≡ pos 0)
          ⊎ ((type : Bytes) × (lib.pub_key_type u.pub_key ≡ ok type)
              × (lib.is_valid_pubkey_type params type ≡ true)))

  abbrev pub AllPermitted : List ValidatorUpdate → Type 0
  AllPermitted [] = Unit
  AllPermitted (u ∷ us) = Permitted u × AllPermitted us

  permitted : (u : ValidatorUpdate) → validate_validator_update lib params u ≡ ok tt → Permitted u
  unfolding validate_validator_update
  permitted u h = (
    ground arith,
    elim (Bool-cases (eqb_ℤ u.power (pos 0))) [
      | inl zero ↦ inl (ground arith)
      | inr more ↦ elim (Outcome-cases (lib.pub_key_type u.pub_key)) [
        | inl (type, e) ↦ inr (type, e, ground arith)
        | inr (inl (x, e)) ↦ absurd (ground arith)
        | inr (inr e) ↦ absurd (ground arith)
      ]
    ],
  )

  pub all_permitted :
      (us : List ValidatorUpdate)
      → validate_validator_updates lib us params ≡ ok tt
      → AllPermitted us
  unfolding validate_validator_updates
  all_permitted [] h = tt
  all_permitted (u ∷ us) h =
      let (done, e, k) = >>=-eq-ok (validate_validator_update lib params u) _ h in
      (permitted u e, all_permitted us k)
