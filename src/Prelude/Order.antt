-- ===== src/Prelude/Order.antt =====
-- The order of texts is one, and permutations of a list of texts are sorted alike.
use Prim.Native.Nat.{ℕ, ◌<◌, Ordering, compare as compare_ℕ}
use Prim.Native.Char.{code}
use Prim.Native.String.compare
use Prim.Native.String.{String, compare, then as lexicographic}
use mathlib.Core.Path.{◌≡◌, refl, sym, ap, ◌∙◌, subst}
use mathlib.Core.Bool.{true}
use mathlib.Core.Logic.{inl, inr, ◌⊎◌, ◌↔◌}
use mathlib.Core.List.{List, [], ◌∷◌}
use mathlib.Core.List.{Permᴰ}
use mathlib.Core.List.Permᴰ
use native.Mathlib.Omega.{arith}
use text.Mathlib.Text.{is_le}
use text.Mathlib.TextEquality.{path_by_compare}
use instana_agent_operator.Prelude.Tests.{Bool-cases}
use instana_agent_operator.Prelude.Sort.{
  text_le, text_le_total, opposite, opposite-compare, insert_by, sort_by,
}

is_le-lexicographic :
    (m n : ℕ) (r : Ordering)
    → (is_le (lexicographic (compare_ℕ m n) r) ≡ true) ↔ ((m < n) ⊎ ((m ≡ n) × (is_le r ≡ true)))
is_le-lexicographic m n r = ground arith

text_le_cases : (o : Ordering) → is_le o ≡ true → is_le (opposite o) ≡ true → o ≡ Ordering.eq
unfolding opposite
text_le_cases Ordering.lt h k = ground (arith, k)
text_le_cases Ordering.eq h k = refl
text_le_cases Ordering.gt h k = ground (arith, h)

pub text_le_antisymm : (s t : String) → text_le s t ≡ true → text_le t s ≡ true → s ≡ t
text_le_antisymm s t h k =
    path_by_compare s t (text_le_cases (compare s t) h (ap is_le (opposite-compare s t) ∙ k))

pub text_le_trans : (s t u : String) → text_le s t ≡ true → text_le t u ≡ true → text_le s u ≡ true
text_le_trans String.[] t String.[] h k = ap is_le compare.nil-nil
text_le_trans String.[] t (String.◌∷◌ e u) h k = ap is_le (compare.nil-cons e u)
text_le_trans (String.◌∷◌ c s) String.[] u h k = ground (arith, h, compare.cons-nil c s)
text_le_trans (String.◌∷◌ c s) (String.◌∷◌ d t) String.[] h k =
    ground (arith, k, compare.cons-nil d t)
text_le_trans (String.◌∷◌ c s) (String.◌∷◌ d t) (String.◌∷◌ e u) h k =
    let first =
      (is_le-lexicographic (code c) (code d) (compare s t)).0
        (sym (ap is_le (compare.cons-cons c d s t)) ∙ h) in
    let second =
      (is_le-lexicographic (code d) (code e) (compare t u)).0
        (sym (ap is_le (compare.cons-cons d e t u)) ∙ k) in
    ap is_le (compare.cons-cons c e s u)
    ∙ (is_le-lexicographic (code c) (code e) (compare s u)).1 (elim first [
      | inl lt ↦ inl (elim second [ inl lt' ↦ omega arith | inr (e', _) ↦ omega arith ])
      | inr (e', le) ↦ elim second [
        | inl lt' ↦ inl (omega arith)
        | inr (e'', le') ↦ inr (omega arith, text_le_trans s t u le le')
      ]
    ])

abbrev the_text : String → String
the_text s = s

insert_texts_comm :
    (a b : String) (l : List String)
    → insert_by the_text a (insert_by the_text b l) ≡ insert_by the_text b (insert_by the_text a l)
unfolding insert_by
insert_texts_comm a b [] =
    ground (arith, text_le_antisymm a b, text_le_total a b, text_le_total b a)
insert_texts_comm a b (c ∷ l) = ground (
  arith,
  insert_texts_comm a b l,
  text_le_antisymm a b,
  text_le_total a b,
  text_le_total b a,
  text_le_trans a b c,
  text_le_trans b a c,
)

pub sort_texts-eq_of_permutation :
    {l l' : List String} → Permᴰ l l' → sort_by the_text l ≡ sort_by the_text l'
unfolding sort_by
sort_texts-eq_of_permutation Permᴰ.nil = refl
sort_texts-eq_of_permutation (Permᴰ.cons e p) =
    let same = sort_texts-eq_of_permutation p in λ i. insert_by the_text (e i) (same i)
sort_texts-eq_of_permutation (Permᴰ.swap {a} {b} {l = l} e e') =
    insert_texts_comm a b (sort_by the_text l)
    ∙ (λ i. insert_by the_text (e' i) (insert_by the_text (e i) (sort_by the_text l)))
sort_texts-eq_of_permutation (Permᴰ.trans p q) =
    sort_texts-eq_of_permutation p ∙ sort_texts-eq_of_permutation q

insert-permutation : (a : String) (l : List String) → Permᴰ (a ∷ l) (insert_by the_text a l)
unfolding insert_by
insert-permutation a [] = Permᴰ.refl (a ∷ [])
insert-permutation a (b ∷ l) = elim (Bool-cases (text_le a b)) [
  | inl e ↦ rw e (Permᴰ.refl (a ∷ b ∷ l))
  | inr e ↦ rw e (Permᴰ.trans (Permᴰ.swap refl refl) (Permᴰ.cons refl (insert-permutation a l)))
]

pub sort_texts-permutation : (l : List String) → Permᴰ l (sort_by the_text l)
unfolding sort_by
sort_texts-permutation [] = Permᴰ.nil
sort_texts-permutation (a ∷ l) =
    Permᴰ.trans (Permᴰ.cons refl (sort_texts-permutation l))
      (insert-permutation a (sort_by the_text l))

-- Two lists of texts are equal once sorted exactly if one is a permutation of the other.
pub sort_texts-eq_iff :
    (l l' : List String) → (sort_by the_text l ≡ sort_by the_text l') ↔ Permᴰ l l'
unfolding Permᴰ.symm
sort_texts-eq_iff l l' = (
  λ e.
      Permᴰ.trans (subst (λ m. Permᴰ l m) e (sort_texts-permutation l))
        (Permᴰ.symm (sort_texts-permutation l')),
  sort_texts-eq_of_permutation,
)
