-- ===== src/Optional/Laws.antt =====
-- Optionals over a type with a zero value.
use instana_agent_operator.Prelude.{◌≡◌, refl, ap, not, List, [], ◌∷◌, map, inl, inr, Bool-cases}
use instana_agent_operator.Collections.{filter}
use instana_agent_operator.Optional.{HasZero, optional_of, all_non_empty}

module _ {ℓ} {A : Type ℓ} ⦃z : HasZero A⦄ where
  -- Collecting the values of optionals keeps the nonzero ones, in order.
  pub all_non_empty-of :
      (xs : List A) → all_non_empty (map optional_of xs) ≡ filter xs (λ a. not (z.is_zero a))
  unfolding all_non_empty
  all_non_empty-of [] = refl
  all_non_empty-of (x ∷ xs) = elim (Bool-cases (z.is_zero x)) [
    | inl empty ↦ rw empty (all_non_empty-of xs)
    | inr kept ↦ rw kept (ap (λ r. x ∷ r) (all_non_empty-of xs))
  ]
