-- ===== src/Prelude/Sort.antt =====
-- Go's sort.Strings, and sort.Slice by the name of an item: texts in the order of their bytes. Any
-- sorting gives the same list of texts; items of one name are kept in their order here.
use Prim.Native.Nat.{ℕ, Ordering, compare as compare_ℕ}
use Prim.Native.Char.{code}
use Prim.Native.String.compare
use Prim.Native.String.{String, compare, then as lexicographic}
use mathlib.Core.Path.{◌≡◌, refl, sym, ap, ◌∙◌, subst}
use mathlib.Core.Bool.{Bool, true, false}
use mathlib.Core.Logic.{inl, inr, ◌⊎◌, ◌↔◌}
use mathlib.Core.List.{List, [], ◌∷◌, Memᴰ}
use native.Mathlib.Omega.{arith}
use text.Mathlib.Text.{is_le}
use instana_agent_operator.Prelude.Tests.{if◌then◌else◌, Bool-cases}
use instana_agent_operator.Prelude.Lists.{Mem-cons_cases}

-- s <= t
abbrev pub text_le : String → String → Bool
text_le s t = is_le (compare s t)

unfoldable pub opposite : Ordering → Ordering
opposite Ordering.lt = Ordering.gt
opposite Ordering.eq = Ordering.eq
opposite Ordering.gt = Ordering.lt

opposite-lexicographic :
    (o r : Ordering) → opposite (lexicographic o r) ≡ lexicographic (opposite o) (opposite r)
unfolding opposite
opposite-lexicographic Ordering.lt r = refl
opposite-lexicographic Ordering.eq r = refl
opposite-lexicographic Ordering.gt r = refl

opposite-compare_ℕ : (m n : ℕ) → opposite (compare_ℕ m n) ≡ compare_ℕ n m
unfolding opposite
opposite-compare_ℕ m n = ground arith

pub opposite-compare : (s t : String) → opposite (compare s t) ≡ compare t s
unfolding opposite
opposite-compare String.[] String.[] = ground (arith, compare.nil-nil)
opposite-compare (String.[]) (String.◌∷◌ d t) =
    ap opposite (compare.nil-cons d t) ∙ sym (compare.cons-nil d t)
opposite-compare (String.◌∷◌ c s) String.[] =
    ap opposite (compare.cons-nil c s) ∙ sym (compare.nil-cons c s)
opposite-compare (String.◌∷◌ c s) (String.◌∷◌ d t) =
    ap opposite (compare.cons-cons c d s t)
    ∙ opposite-lexicographic (compare_ℕ (code c) (code d)) (compare s t)
    ∙ ap (λ o. lexicographic o (opposite (compare s t))) (opposite-compare_ℕ (code c) (code d))
    ∙ ap (λ o. lexicographic (compare_ℕ (code d) (code c)) o) (opposite-compare s t)
    ∙ sym (compare.cons-cons d c t s)

is_le-opposite : (o : Ordering) → is_le o ≡ false → is_le (opposite o) ≡ true
unfolding opposite
is_le-opposite Ordering.lt h = ground (arith, h)
is_le-opposite Ordering.eq h = ground (arith, h)
is_le-opposite Ordering.gt h = refl

pub text_le_total : (s t : String) → text_le s t ≡ false → text_le t s ≡ true
text_le_total s t h = ap is_le (sym (opposite-compare s t)) ∙ is_le-opposite (compare s t) h

module _ {ℓ} {A : Type ℓ} (key : A → String) where
  unfoldable pub insert_by : A → List A → List A
  insert_by a [] = a ∷ []
  insert_by a (b ∷ bs) =
      let rest = insert_by a bs in if text_le (key a) (key b) then a ∷ b ∷ bs else b ∷ rest

  unfoldable pub sort_by : List A → List A
  sort_by [] = []
  sort_by (a ∷ rest) = insert_by a (sort_by rest)

  -- `a` is in order with the first of the items.
  abbrev pub Precedes : A → List A → Type 0
  Precedes a [] = Unit
  Precedes a (b ∷ bs) = text_le (key a) (key b) ≡ true

  -- Neighbours are in order.
  abbrev pub IsSortedBy : List A → Type 0
  IsSortedBy [] = Unit
  IsSortedBy (a ∷ l) = Precedes a l × IsSortedBy l

  insert_of_first : (a : A) (l : List A) → Precedes a l → insert_by a l ≡ a ∷ l
  unfolding insert_by
  insert_of_first a [] first = refl
  insert_of_first a (b ∷ bs) first = ground (arith, first)

  pub sort_of_sorted : (l : List A) → IsSortedBy l → sort_by l ≡ l
  unfolding sort_by
  sort_of_sorted [] h = refl
  sort_of_sorted (a ∷ l) (first, h) =
      ap (insert_by a) (sort_of_sorted l h) ∙ insert_of_first a l first

  insert_by-Precedes :
      (a b : A) (l : List A)
      → text_le (key b) (key a) ≡ true
      → Precedes b l
      → Precedes b (insert_by a l)
  unfolding insert_by
  insert_by-Precedes a b [] le h = le
  insert_by-Precedes a b (c ∷ cs) le h = elim (Bool-cases (text_le (key a) (key c))) [
    | inl e ↦ rw e le
    | inr e ↦ rw e h
  ]

  insert_by-IsSortedBy : (a : A) (l : List A) → IsSortedBy l → IsSortedBy (insert_by a l)
  unfolding insert_by
  insert_by-IsSortedBy a [] h = (tt, tt)
  insert_by-IsSortedBy a (b ∷ bs) (first, h) = elim (Bool-cases (text_le (key a) (key b))) [
    | inl e ↦ rw e (e, (first, h))
    | inr e ↦ rw e (
      insert_by-Precedes a b bs (text_le_total (key a) (key b) e) first,
      insert_by-IsSortedBy a bs h,
    )
  ]

  pub sort_by-IsSortedBy : (l : List A) → IsSortedBy (sort_by l)
  unfolding sort_by
  sort_by-IsSortedBy [] = tt
  sort_by-IsSortedBy (a ∷ l) = insert_by-IsSortedBy a (sort_by l) (sort_by-IsSortedBy l)

  pub sort_by_idem : (l : List A) → sort_by (sort_by l) ≡ sort_by l
  sort_by_idem l = sort_of_sorted (sort_by l) (sort_by-IsSortedBy l)

  -- Sorting neither adds nor drops an item.
  Mem-insert_by_cases : (x a : A) (l : List A) → Memᴰ x (insert_by a l) → (x ≡ a) ⊎ Memᴰ x l
  unfolding insert_by
  Mem-insert_by_cases x a [] h = Mem-cons_cases h
  Mem-insert_by_cases x a (b ∷ bs) h = elim (Bool-cases (text_le (key a) (key b))) [
    | inl e ↦
        Mem-cons_cases (subst (λ t. Memᴰ x (if t then a ∷ b ∷ bs else b ∷ insert_by a bs)) e h)
    | inr e ↦
        elim (Mem-cons_cases
          (subst (λ t. Memᴰ x (if t then a ∷ b ∷ bs else b ∷ insert_by a bs)) e h)) [
            | inl p ↦ inr (Memᴰ.head p)
            | inr m ↦ elim (Mem-insert_by_cases x a bs m) [
              | inl p ↦ inl p
              | inr later ↦ inr (Memᴰ.tail later)
            ]
          ]
  ]

  Mem-insert_by_first : (a : A) (l : List A) → Memᴰ a (insert_by a l)
  unfolding insert_by
  Mem-insert_by_first a [] = Memᴰ.head refl
  Mem-insert_by_first a (b ∷ bs) = elim (Bool-cases (text_le (key a) (key b))) [
    | inl e ↦ rw e (Memᴰ.head refl)
    | inr e ↦ rw e (Memᴰ.tail (Mem-insert_by_first a bs))
  ]

  Mem-insert_by_rest : (x a : A) (l : List A) → Memᴰ x l → Memᴰ x (insert_by a l)
  unfolding insert_by
  Mem-insert_by_rest x a (b ∷ bs) h = elim (Bool-cases (text_le (key a) (key b))) [
    | inl e ↦ rw e (Memᴰ.tail h)
    | inr e ↦ rw e (elim (Mem-cons_cases h) [
      | inl p ↦ Memᴰ.head p
      | inr m ↦ Memᴰ.tail (Mem-insert_by_rest x a bs m)
    ])
  ]
  Mem-insert_by_rest x a [] h = elim h [ ]

  pub Mem-sort_by_iff : (x : A) (l : List A) → Memᴰ x (sort_by l) ↔ Memᴰ x l
  unfolding sort_by
  Mem-sort_by_iff x [] = (λ h. h, λ h. h)
  Mem-sort_by_iff x (a ∷ l) = (
    λ h. elim (Mem-insert_by_cases x a (sort_by l) h) [
      | inl p ↦ Memᴰ.head p
      | inr m ↦ Memᴰ.tail ((Mem-sort_by_iff x l).0 m)
    ],
    λ h. elim (Mem-cons_cases h) [
      | inl p ↦
          subst (λ y. Memᴰ y (insert_by a (sort_by l))) (sym p) (Mem-insert_by_first a (sort_by l))
      | inr m ↦ Mem-insert_by_rest x a (sort_by l) ((Mem-sort_by_iff x l).1 m)
    ],
  )

  insert_by-cons : (a : A) (l : List A) → (b : A) × (bs : List A) × (insert_by a l ≡ b ∷ bs)
  unfolding insert_by
  insert_by-cons a [] = (a, [], refl)
  insert_by-cons a (b ∷ bs) = elim (Bool-cases (text_le (key a) (key b))) [
    | inl e ↦ (a, b ∷ bs, ground (arith, e))
    | inr e ↦ (b, insert_by a bs, ground (arith, e))
  ]

  pub sort_by-cons : (a : A) (l : List A) → (b : A) × (bs : List A) × (sort_by (a ∷ l) ≡ b ∷ bs)
  unfolding sort_by
  sort_by-cons a l = insert_by-cons a (sort_by l)
