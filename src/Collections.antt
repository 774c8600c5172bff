-- ===== src/Collections.antt =====
-- pkg/collections/list: conditions.go, contains.go, diff.go and transformers.go. The interfaces
-- that wrap a list are functions of that list; Go's `comparable` is `Comparable`, and
-- `reflect.DeepEqual` is `DeepEquality`.
pub mod Laws
pub mod Maps
use instana_agent_operator.Prelude.{
  Bool, true, false, not, ◌||◌, List, [], ◌∷◌, Comparable, DeepEquality, ◌==◌, all, any,
  if◌then◌else◌,
}

module _ {ℓ} {A : Type ℓ} where
  -- the loop of `Filter`
  unfoldable pub filter : List A → (A → Bool) → List A
  filter [] keep = []
  filter (x ∷ xs) keep = let rest = filter xs keep in if keep x then x ∷ rest else rest

  -- `conditions.All`, the loop with its early return
  unfoldable pub conditions_all : List A → (A → Bool) → Bool
  conditions_all xs condition = all condition xs

  -- `conditions.Any`
  unfoldable pub conditions_any : List A → (A → Bool) → Bool
  conditions_any xs condition = any condition xs

module _ {ℓ κ} {A : Type ℓ} {B : Type κ} where
  -- the loop of `MapTo`
  unfoldable pub map_to : List A → (A → B) → List B
  map_to [] f = []
  map_to (x ∷ xs) f = f x ∷ map_to xs f

module _ {ℓ} {A : Type ℓ} ⦃e : Comparable A⦄ where
  -- res[item] = true
  mark : A → List (A × Bool) → List (A × Bool)
  mark a [] = (a, true) ∷ []
  mark a ((b, v) ∷ set) = if b == a then (a, true) ∷ set else (b, v) ∷ mark a set

  -- _, ok := set[expected]
  has_key : List (A × Bool) → A → Bool
  has_key [] a = false
  has_key ((b, v) ∷ set) a = b == a || has_key set a

  -- the loop of `toSet`
  to_set : List A → List (A × Bool) → List (A × Bool)
  unfolding mark
  to_set [] set = set
  to_set (x ∷ xs) set = to_set xs (mark x set)

  -- NewContainsElementChecker(in).Contains(expected)
  unfoldable pub contains_element : List A → A → Bool
  unfolding to_set has_key
  contains_element xs expected = has_key (to_set xs []) expected

  -- NewDiff().Diff(old, new)
  unfoldable pub diff : List A → List A → List A
  diff old new = filter old (λ item. not (contains_element new item))

module _ {ℓ} {A : Type ℓ} ⦃e : DeepEquality A⦄ where
  -- NewDeepContainsElementChecker(in).Contains(expected)
  unfoldable pub deep_contains_element : List A → A → Bool
  deep_contains_element [] expected = false
  deep_contains_element (x ∷ xs) expected =
      let rest = deep_contains_element xs expected in if e.deep_equal expected x then true else rest

  -- NewDeepDiff().Diff(old, new)
  unfoldable pub deep_diff : List A → List A → List A
  deep_diff old new = filter old (λ item. not (deep_contains_element new item))
