-- ===== src/Errors/Laws.antt =====
-- A multi-error is nil exactly if all its parts are, and wraps exactly the parts that are not.
use instana_agent_operator.Prelude.{
  String, ◌≡◌, refl, ap, ◌∙◌, none, some, List, [], ◌∷◌, Memᴰ, inl, inr, ◌↔◌, All, Mem-cons_cases,
}
use instana_agent_operator.Collections.{filter}
use instana_agent_operator.Errors.{
  Error, wrapped, multi_error, caught_panic, Errors, more_errors, to_errors, MultiErrorBuilder,
  values, build, join_errors, all_non_nil,
}

-- `x` is found by errors.Is in the tree below `e`.
mutual
  pub data Wraps (x : Error) : Error → Type 0 where
    itself : Wraps x x
    in_multi : {e : Error} → Wraps x e → Wraps x (multi_error e)
    in_panic : {e : Error} → Wraps x e → Wraps x (caught_panic e)
    in_wrapped : {s : String} {es : Errors} → AnyWraps x es → Wraps x (wrapped s es)

  pub data AnyWraps (x : Error) : Errors → Type 0 where
    first : {e : Error} {es : Errors} → Wraps x e → AnyWraps x (more_errors e es)
    later : {e : Error} {es : Errors} → AnyWraps x es → AnyWraps x (more_errors e es)

Wraps-to_errors : {x : Error} (es : List Error) → Memᴰ x es → AnyWraps x (to_errors es)
Wraps-to_errors [] h = elim h [ ]
Wraps-to_errors (e ∷ es) h = elim (Mem-cons_cases h) [
  | inl same ↦ rw same (first itself)
  | inr m ↦ later (Wraps-to_errors es m)
]

AnyWraps-to_errors :
    {x : Error} (es : List Error) → AnyWraps x (to_errors es) → (y : Error) × Memᴰ y es × Wraps x y
AnyWraps-to_errors [] h = elim h [ ]
AnyWraps-to_errors (e ∷ es) (first w) = (e, Memᴰ.head refl, w)
AnyWraps-to_errors (e ∷ es) (later w) =
    let (y, m, w') = AnyWraps-to_errors es w in (y, Memᴰ.tail m, w')

join_errors-Wraps :
    {x : Error} (es : List Error) → Memᴰ x es → (e : Error) × (join_errors es ≡ some e) × Wraps x e
join_errors-Wraps [] h = elim h [ ]
join_errors-Wraps (e ∷ []) h = (
  multi_error e,
  refl,
  in_multi (elim (Mem-cons_cases h) [ inl same ↦ rw same itself | inr m ↦ elim m [ ] ]),
)
join_errors-Wraps (e ∷ f ∷ es) h = (_, refl, in_multi (in_wrapped (Wraps-to_errors (e ∷ f ∷ es) h)))

values-all_non_nil : (m : MultiErrorBuilder) → values (all_non_nil m) ≡ values m
unfolding all_non_nil filter
values-all_non_nil [] = refl
values-all_non_nil (none ∷ m) = values-all_non_nil m
values-all_non_nil (some e ∷ m) = ap (λ es. e ∷ es) (values-all_non_nil m)

Mem-values : {x : Error} (m : MultiErrorBuilder) → Memᴰ (some x) m → Memᴰ x (values m)
Mem-values [] h = elim h [ ]
Mem-values (none ∷ m) h = elim (Mem-cons_cases h) [
  | inl same ↦ absurd (cc)
  | inr there ↦ Mem-values m there
]
Mem-values (some e ∷ m) h = elim (Mem-cons_cases h) [
  | inl same ↦ Memᴰ.head (cc)
  | inr there ↦ Memᴰ.tail (Mem-values m there)
]

Mem_of_values : {x : Error} (m : MultiErrorBuilder) → Memᴰ x (values m) → Memᴰ (some x) m
Mem_of_values [] h = elim h [ ]
Mem_of_values (none ∷ m) h = Memᴰ.tail (Mem_of_values m h)
Mem_of_values (some e ∷ m) (Memᴰ.head same) = Memᴰ.head (ap some same)
Mem_of_values (some e ∷ m) (Memᴰ.tail h) = Memᴰ.tail (Mem_of_values m h)

build-eq : (m : MultiErrorBuilder) → build m ≡ join_errors (values m)
unfolding build
build-eq m = ap join_errors (values-all_non_nil m)

join_errors-eq-none : (es : List Error) → join_errors es ≡ none → es ≡ []
join_errors-eq-none [] h = refl
join_errors-eq-none (e ∷ []) h = cc
join_errors-eq-none (e ∷ f ∷ es) h = cc

values-All-none : (m : MultiErrorBuilder) → All (λ e. e ≡ none) m → values m ≡ []
values-All-none [] h = refl
values-All-none (none ∷ m) h = values-All-none m h.1
values-All-none (some e ∷ m) h = cc (h.0)

values-eq-nil : (m : MultiErrorBuilder) → values m ≡ [] → All (λ e. e ≡ none) m
values-eq-nil [] h = tt
values-eq-nil (none ∷ m) h = (refl, values-eq-nil m h)
values-eq-nil (some e ∷ m) h = absurd (cc)

-- `Build` returns nil exactly if no error was added but nil.
pub build-eq-none_iff : (m : MultiErrorBuilder) → (build m ≡ none) ↔ All (λ e. e ≡ none) m
build-eq-none_iff m = (
  (λ h. values-eq-nil m (join_errors-eq-none (values m) (rw build-eq at h))),
  (λ h. build-eq m ∙ ap join_errors (values-All-none m h)),
)

-- Every error that was added and is not nil can be found in the error that `Build` returns.
pub build-Wraps :
    {x : Error} (m : MultiErrorBuilder)
    → Memᴰ (some x) m
    → (e : Error) × (build m ≡ some e) × Wraps x e
build-Wraps m h =
    let (e, built, w) = join_errors-Wraps (values m) (Mem-values m h) in (e, build-eq m ∙ built, w)
