-- ===== src/Errors.antt =====
-- Go's `error` values, pkg/multierror and pkg/recovery. The interface `error` is `Option Error`:
-- nil is `none`, so `errors.Is(err, nil)` asks for `none`.
pub mod Laws
use instana_agent_operator.Prelude.{
  String, Bool, true, false, ◌||◌, Option, none, some, List, [], ◌∷◌, ◌++◌,
}
use instana_agent_operator.Collections.{filter}

mutual
  pub data Error : Type 0 where
    -- a value that code outside the repository returned
    ext : String → Error
    -- errors.New, and fmt.Errorf with no %w verb
    text : String → Error
    -- fmt.Errorf with %w verbs: the format and the errors that it wraps
    wrapped : String → Errors → Error
    -- `multiError` and `caughtPanic` embed the error that they wrap
    multi_error : Error → Error
    caught_panic : Error → Error

  pub data Errors : Type 0 where
    no_errors : Errors
    more_errors : Error → Errors → Errors

abbrev pub to_errors : List Error → Errors
to_errors [] = no_errors
to_errors (e ∷ es) = more_errors e (to_errors es)

-- errors.As(err, &multiError{}) walks the tree of wrapped errors.
unfoldable mutual
  pub as_multi_error : Error → Bool
  as_multi_error (ext s) = false
  as_multi_error (text s) = false
  as_multi_error (wrapped s es) = any_multi_error es
  as_multi_error (multi_error e) = true
  as_multi_error (caught_panic e) = as_multi_error e

  pub any_multi_error : Errors → Bool
  any_multi_error no_errors = false
  any_multi_error (more_errors e es) = as_multi_error e || any_multi_error es

abbrev pub is_some {ℓ} : {A : Type ℓ} → Option A → Bool
is_some none = false
is_some (some a) = true

-- The builder's state is the list `errs`, nil errors included.
abbrev pub MultiErrorBuilder : Type 0
MultiErrorBuilder = List (Option Error)

-- NewMultiErrorBuilder(errs...)
abbrev pub new_multi_error_builder : List (Option Error) → MultiErrorBuilder
new_multi_error_builder errs = errs

-- `Add` and `AddSingle`
unfoldable pub add : List (Option Error) → MultiErrorBuilder → MultiErrorBuilder
add errs m = m ++ errs

unfoldable pub add_single : Option Error → MultiErrorBuilder → MultiErrorBuilder
unfolding add
add_single err m = add (err ∷ []) m

unfoldable pub all_non_nil : MultiErrorBuilder → List (Option Error)
all_non_nil m = filter m is_some

-- the errors behind the `any`s that fmt.Errorf is given
abbrev pub values : List (Option Error) → List Error
values [] = []
values (none ∷ es) = values es
values (some e ∷ es) = e ∷ values es

abbrev join_errors : List Error → Option Error
join_errors [] = none
join_errors (e ∷ []) = some (multi_error e)
join_errors (e ∷ f ∷ es) = some (multi_error (wrapped "Multiple Errors:" (to_errors (e ∷ f ∷ es))))

unfoldable pub build : MultiErrorBuilder → Option Error
unfolding all_non_nil filter
build m = join_errors (values (all_non_nil m))

-- recovery.Catch(err): `panicked` is what `recover` returned
unfoldable pub catch : Option Error → Option Error → Option Error
unfolding build add_single
catch none err = err
catch (some p) err =
    elim (build (add_single (some (wrapped "caught panic" (more_errors p no_errors))) (err ∷ []))) [
      | none ↦ none
      | some e ↦ some (caught_panic e)
    ]
