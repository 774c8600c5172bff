-- ===== src/Collections/Laws.antt =====
-- The list helpers mean what their names say.
use mathlib.Core.Path.{fun_ext}
use instana_agent_operator.Prelude.{
  ◌≡◌, refl, sym, ap, ◌∙◌, Bool, true, not, ◌||◌, List, [], ◌∷◌, map, Memᴰ, any, Comparable,
  DeepEquality, ◌==◌, arith, inl, inr, ◌↔◌, Bool-cases, Mem-cons_cases,
}
use instana_agent_operator.Collections.{
  filter, map_to, mark, has_key, to_set, contains_element, deep_contains_element, diff, deep_diff,
}

module _ {ℓ} {A : Type ℓ} where
  pub Mem-filter :
      (xs : List A) (keep : A → Bool) {a : A} → Memᴰ a xs → keep a ≡ true → Memᴰ a (filter xs keep)
  unfolding filter
  Mem-filter [] keep h k = elim h [ ]
  Mem-filter (x ∷ xs) keep (Memᴰ.head e) k = rw (ap keep (sym e) ∙ k) (Memᴰ.head e)
  Mem-filter (x ∷ xs) keep (Memᴰ.tail h) k = elim (Bool-cases (keep x)) [
    | inl kept ↦ rw kept (Memᴰ.tail (Mem-filter xs keep h k))
    | inr dropped ↦ rw dropped (Mem-filter xs keep h k)
  ]

  pub Mem_of_filter :
      (xs : List A) (keep : A → Bool) {a : A}
      → Memᴰ a (filter xs keep)
      → Memᴰ a xs × (keep a ≡ true)
  unfolding filter
  Mem_of_filter [] keep h = elim h [ ]
  Mem_of_filter (x ∷ xs) keep {a} h = elim (Bool-cases (keep x)) [
    | inl kept ↦ elim (Mem-cons_cases (rw kept at h)) [
      | inl e ↦ (Memᴰ.head e, ap keep e ∙ kept)
      | inr m ↦ let (m', k) = Mem_of_filter xs keep m in (Memᴰ.tail m', k)
    ]
    | inr dropped ↦ let (m, k) = Mem_of_filter xs keep (rw dropped at h) in (Memᴰ.tail m, k)
  ]

module _ {ℓ κ} {A : Type ℓ} {B : Type κ} where
  pub map_to-eq-map : (xs : List A) (f : A → B) → map_to xs f ≡ map f xs
  unfolding map_to
  map_to-eq-map [] f = refl
  map_to-eq-map (x ∷ xs) f = rw (map_to-eq-map xs f)

module _ {ℓ} {A : Type ℓ} ⦃e : Comparable A⦄ where
  has_key-mark :
      (a b : A) (set : List (A × Bool)) → has_key (mark a set) b ≡ (a == b || has_key set b)
  unfolding has_key mark
  has_key-mark a b [] = refl
  has_key-mark a b ((c, v) ∷ set) =
      ground (arith, e.equal_iff c a, e.equal_iff a b, e.equal_iff c b, has_key-mark a b set)

  has_key-to_set :
      (xs : List A) (set : List (A × Bool)) (a : A)
      → has_key (to_set xs set) a ≡ (has_key set a || any (λ x. x == a) xs)
  unfolding to_set
  has_key-to_set [] set a = ground arith
  has_key-to_set (x ∷ xs) set a =
      ground (arith, has_key-to_set xs (mark x set) a, has_key-mark x a set)

  -- The map-backed diff keeps the items that are equal to none of the new list.
  pub diff-eq-filter :
      (old new : List A) → diff old new ≡ filter old (λ item. not (any (λ x. x == item) new))
  unfolding diff contains_element has_key
  diff-eq-filter old new =
      ap (λ (f : A → Bool). filter old f) (fun_ext (λ a. ap not (has_key-to_set new [] a)))

module _ {ℓ} {A : Type ℓ} ⦃e : DeepEquality A⦄ where
  pub deep_contains_iff : (xs : List A) (a : A) → (deep_contains_element xs a ≡ true) ↔ Memᴰ a xs
  unfolding deep_contains_element
  deep_contains_iff [] a = ((λ h. absurd (cc)), (λ h. elim h [ ]))
  deep_contains_iff (x ∷ xs) a = (
    (λ h. elim (Bool-cases (e.deep_equal a x)) [
      | inl same ↦ Memᴰ.head ((e.deep_equal_iff a x).0 same)
      | inr other ↦ Memᴰ.tail ((deep_contains_iff xs a).0 (ground arith))
    ]),
    (λ m. elim (Mem-cons_cases m) [
      | inl same ↦ rw ((e.deep_equal_iff a x).1 same)
      | inr later ↦ ground (arith, (deep_contains_iff xs a).1 later)
    ]),
  )

  -- The diff of two lists holds exactly the items of the old list that the new one lacks.
  pub Mem-deep_diff_iff :
      (old new : List A) (a : A) → Memᴰ a (deep_diff old new) ↔ (Memᴰ a old × ¬ (Memᴰ a new))
  unfolding deep_diff
  Mem-deep_diff_iff old new a = (
    (λ m.
        let (m', k) = Mem_of_filter old _ m in
        (m', λ n. ground (arith, (deep_contains_iff new a).1 n))),
    (λ p. Mem-filter old _ p.0 (elim (Bool-cases (deep_contains_element new a)) [
      | inl there ↦ absurd (p.1 ((deep_contains_iff new a).0 there))
      | inr missing ↦ rw missing
    ])),
  )
