-- ===== src/Results.antt =====
-- pkg/result: a value beside an error. Callbacks that change variables of their caller are
-- functions on a state.
use instana_agent_operator.Prelude.{Bool, true, false, not, Option, none, some, if◌then◌else◌}
use instana_agent_operator.Optional.{HasZero, Optional, optional_of, empty_optional}
use instana_agent_operator.Errors.{Error, catch}

pub record Result {ℓ} (A : Type ℓ) : Type ℓ where
  pub res : A
  pub err : Option Error

-- errors.Is(err, nil)
abbrev pub err_is_nil : Option Error → Bool
err_is_nil none = true
err_is_nil (some e) = false

module _ {ℓ} {A : Type ℓ} where
  -- `Of`
  abbrev pub result_of : A → Option Error → Result A
  result_of res err = record { res = res; err = err }

  abbrev pub of_success : A → Result A
  of_success res = result_of res none

  abbrev pub is_success : Result A → Bool
  is_success r = err_is_nil r.err

  abbrev pub is_failure : Result A → Bool
  is_failure r = not (is_success r)

  abbrev pub of_failure : ⦃z : HasZero A⦄ → Option Error → Result A
  of_failure ⦃z⦄ err = result_of z.zero_value err

  unfoldable pub to_optional : ⦃z : HasZero A⦄ → Result A → Optional A
  unfolding empty_optional
  to_optional ⦃z⦄ r = if is_success r then optional_of r.res else empty_optional

  -- `OnFailure`: the callback is called with the error
  unfoldable pub on_failure {κ} : {S : Type κ} → Result A → (Option Error → S → S) → S → S
  on_failure r do' s = if is_failure r then do' r.err s else s

  unfoldable pub on_success {κ} : {S : Type κ} → Result A → (A → S → S) → S → S
  on_success r do' s = if is_success r then do' r.res s else s

  unfoldable pub recover : Result A → (Option Error → Result A) → Result A
  recover r do' = if is_failure r then do' r.err else r

-- `OfInlineCatchingPanic`: the callback returns, or panics with an error
pub data Outcome {ℓ} (A : Type ℓ) : Type ℓ where
  returned : A → Option Error → Outcome A
  panicked : Error → Outcome A

-- A panic leaves the named results at their zero values before `Catch` sets the error.
unfoldable pub of_inline_catching_panic {ℓ} : {A : Type ℓ} ⦃z : HasZero A⦄ → Outcome A → Result A
of_inline_catching_panic (returned res err) = result_of res (catch none err)
of_inline_catching_panic ⦃z⦄ (panicked p) = result_of z.zero_value (catch (some p) none)

-- `Map`
unfoldable pub result_map {ℓ κ} :
    {A : Type ℓ} {B : Type κ} ⦃z : HasZero B⦄ → Result A → (A → Result B) → Result B
result_map original mapper =
    if is_success original then mapper original.res else of_failure original.err
