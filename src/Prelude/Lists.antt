-- ===== src/Prelude/Lists.antt =====
-- Lists: length, predicates by recursion and by test, membership.
use Prim.Native.Nat.{ℕ, suc, ◌+◌}
use mathlib.Core.Path.{◌≡◌, refl, ap, sym, subst}
use mathlib.Core.Bool.{Bool, true, false, ◌&&◌, ◌||◌}
use mathlib.Core.Logic.{◌⊎◌, inl, inr}
use mathlib.Core.List.{List, [], ◌∷◌, ◌++◌, map, Memᴰ}
use native.Mathlib.Omega.{arith}

module _ {ℓ} {A : Type ℓ} where
  abbrev pub length : List A → ℕ
  length [] = 0
  length (x ∷ xs) = suc (length xs)

  abbrev pub all : (A → Bool) → List A → Bool
  all p [] = true
  all p (x ∷ xs) = p x && all p xs

  abbrev pub any : (A → Bool) → List A → Bool
  any p [] = false
  any p (x ∷ xs) = p x || any p xs

  pub length-append : (xs ys : List A) → length (xs ++ ys) ≡ length xs + length ys
  length-append [] ys = omega arith
  length-append (x ∷ xs) ys = omega (arith, length-append xs ys)

  -- Membership as a position in the list.
  pub Mem-cons_cases : {a x : A} {xs : List A} → Memᴰ a (x ∷ xs) → (a ≡ x) ⊎ Memᴰ a xs
  Mem-cons_cases (Memᴰ.head e) = inl e
  Mem-cons_cases (Memᴰ.tail h) = inr h

  pub Mem-append_left : {a : A} (xs ys : List A) → Memᴰ a xs → Memᴰ a (xs ++ ys)
  Mem-append_left _ ys (Memᴰ.head e) = Memᴰ.head e
  Mem-append_left _ ys (Memᴰ.tail h) = Memᴰ.tail (Mem-append_left _ ys h)

  pub Mem-append_right : {a : A} (xs ys : List A) → Memᴰ a ys → Memᴰ a (xs ++ ys)
  Mem-append_right [] ys h = h
  Mem-append_right (x ∷ xs) ys h = Memᴰ.tail (Mem-append_right xs ys h)

  pub Mem-append_cases : {a : A} (xs ys : List A) → Memᴰ a (xs ++ ys) → Memᴰ a xs ⊎ Memᴰ a ys
  Mem-append_cases [] ys h = inr h
  Mem-append_cases (x ∷ xs) ys (Memᴰ.head e) = inl (Memᴰ.head e)
  Mem-append_cases (x ∷ xs) ys (Memᴰ.tail h) = elim (Mem-append_cases xs ys h) [
    | inl l ↦ inl (Memᴰ.tail l)
    | inr r ↦ inr r
  ]

module _ {ℓ κ} {A : Type ℓ} (P : A → Type κ) where
  abbrev pub All : List A → Type κ
  All [] = Unit
  All (x ∷ xs) = P x × All xs

  pub All-append : (xs ys : List A) → All xs → All ys → All (xs ++ ys)
  All-append [] ys h k = k
  All-append (x ∷ xs) ys (p, h) k = (p, All-append xs ys h k)

  pub All-Mem : (xs : List A) (x : A) → All xs → Memᴰ x xs → P x
  All-Mem [] x h mem = elim mem [ ]
  All-Mem (y ∷ ys) x (p, h) (Memᴰ.head e) = subst P (sym e) p
  All-Mem (y ∷ ys) x (p, h) (Memᴰ.tail mem) = All-Mem ys x h mem

  pub All-of_Mem : (xs : List A) → ((x : A) → Memᴰ x xs → P x) → All xs
  All-of_Mem [] f = tt
  All-of_Mem (x ∷ xs) f = (f x (Memᴰ.head refl), All-of_Mem xs (λ y m. f y (Memᴰ.tail m)))

module _ {ℓ κ} {A : Type ℓ} {B : Type κ} where
  pub length-map : (f : A → B) (xs : List A) → length (map f xs) ≡ length xs
  length-map f [] = refl
  length-map f (x ∷ xs) = ap suc (length-map f xs)

  pub Mem-map : (f : A → B) {a : A} {xs : List A} → Memᴰ a xs → Memᴰ (f a) (map f xs)
  Mem-map f (Memᴰ.head e) = Memᴰ.head (ap f e)
  Mem-map f (Memᴰ.tail h) = Memᴰ.tail (Mem-map f h)
