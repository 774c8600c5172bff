-- ===== src/Optional.antt =====
-- pkg/optional and pkg/pointer. An optional is empty when its value is the zero value of its type,
-- which `reflect` tests; a pointer is an `Option`.
pub mod Laws
use instana_agent_operator.Prelude.{
  ℕ, String, ◌≡◌, refl, Bool, true, false, not, Option, none, some, List, [], ◌∷◌, ◌==◌,
  if◌then◌else◌, nat_comparable, string_comparable,
}
use instana_agent_operator.Collections.{filter, map_to}

-- The zero value of a Go type, and `reflect.Value.IsZero`.
pub record HasZero {ℓ} (A : Type ℓ) : Type ℓ where
  pub zero_value : A
  pub is_zero : A → Bool
  pub is_zero-zero_value : is_zero zero_value ≡ true

instance abbrev pub string_zero : HasZero String
string_zero = record { zero_value = ""; is_zero = λ s. s == ""; is_zero-zero_value = refl }

instance abbrev pub bool_zero : HasZero Bool
bool_zero = record { zero_value = false; is_zero = not; is_zero-zero_value = refl }

instance abbrev pub nat_zero : HasZero ℕ
nat_zero = record { zero_value = 0; is_zero = λ n. n == 0; is_zero-zero_value = refl }

abbrev is_nil {ℓ} : {A : Type ℓ} → Option A → Bool
is_nil none = true
is_nil (some a) = false

-- pointers, and the maps and slices that may be nil
instance abbrev pub pointer_zero {ℓ} : {A : Type ℓ} → HasZero (Option A)
pointer_zero = record { zero_value = none; is_zero = is_nil; is_zero-zero_value = refl }

-- the struct of the same name; not to be confused with the library's `Option`
pub record Optional {ℓ} (A : Type ℓ) : Type ℓ where
  pub val : A

module _ {ℓ} {A : Type ℓ} where
  -- `Of`
  abbrev pub optional_of : A → Optional A
  optional_of a = record { val = a }

  -- `Get`
  abbrev pub get_val : Optional A → A
  get_val o = o.val

module _ {ℓ} {A : Type ℓ} ⦃z : HasZero A⦄ where
  unfoldable pub is_not_present : Optional A → Bool
  is_not_present o = z.is_zero o.val

  unfoldable pub is_present : Optional A → Bool
  unfolding is_not_present
  is_present o = not (is_not_present o)

  -- `Empty`
  unfoldable pub empty_optional : Optional A
  empty_optional = record { val = z.zero_value }

  unfoldable pub get_or_else : Optional A → (Unit {0} → A) → A
  unfolding is_not_present
  get_or_else o f = if is_not_present o then f tt else o.val

  unfoldable pub get_or_default : Optional A → A → A
  unfolding get_or_else
  get_or_default o val = get_or_else o (λ _. val)

  -- `IfPresent`, with what the callback changes as a state
  unfoldable pub if_present {κ} : {S : Type κ} → Optional A → (A → S → S) → S → S
  unfolding is_present
  if_present o do' s = if is_present o then do' o.val s else s

  -- ValueOrDefault(val *T, def T): the new value behind the pointer
  unfoldable pub value_or_default : A → A → A
  unfolding get_or_default
  value_or_default val def = get_or_default (optional_of val) def

  -- mapper.go
  unfoldable pub all_non_empty : List (Optional A) → List A
  unfolding is_not_present filter map_to
  all_non_empty xs = map_to (filter xs (λ val. not (is_not_present val))) get_val

-- `Map`
unfoldable pub optional_map {ℓ κ} :
    {A : Type ℓ} {B : Type κ} ⦃z : HasZero A⦄ ⦃y : HasZero B⦄ → Optional A → (A → B) → Optional B
unfolding is_not_present empty_optional
optional_map x transform =
    if is_not_present x then empty_optional else optional_of (transform (get_val x))

-- pkg/pointer
module _ {ℓ} {A : Type ℓ} where
  -- `To`
  abbrev pub pointer_to : A → Option A
  pointer_to a = some a

  abbrev pub deref_or_else : Option A → (Unit {0} → A) → A
  deref_or_else none f = f tt
  deref_or_else (some a) f = a

  abbrev pub deref_or_default : Option A → A → A
  deref_or_default p def = deref_or_else p (λ _. def)

  abbrev pub deref_or_empty : ⦃z : HasZero A⦄ → Option A → A
  deref_or_empty ⦃z⦄ p = deref_or_else p (λ _. z.zero_value)
