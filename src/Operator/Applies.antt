-- ===== src/Operator/Applies.antt =====
-- What `ApplyAll` sends when it succeeds, and for which objects.
use mathlib.Core.Path.{subst}
use instana_agent_operator.Prelude.{
  ◌≡◌, refl, sym, ap, ◌∙◌, Bool, true, false, none, some, List, [], ◌∷◌, Memᴰ, arith, inl, inr,
  Mem-append_right, Mem-cons_cases, Option-cases,
}
use instana_agent_operator.Collections.{filter, map_to}
use instana_agent_operator.Optional.{pointer_zero, is_not_present, all_non_empty, optional_of}
use instana_agent_operator.Errors.{MultiErrorBuilder}
use instana_agent_operator.Kube.{Object}
use instana_agent_operator.Kube.Api.{apply_call, Cluster}
use instana_agent_operator.Kube.Client.Promises.{KeepsPromises, SendsOnly-keeps}
use instana_agent_operator.Lifecycle.{DependentLifecycleManager, update_dependent_lifecycle_info}
use instana_agent_operator.Lifecycle.Cleanup.{cleanup_dependents-keeps}
use instana_agent_operator.Transform.{
  ObjectBuilder, apply_builder, add_common_labels, add_owner_reference,
}
use instana_agent_operator.Operator.{build_objects, apply_each, apply_objects, apply_all}
use instana_agent_operator.Operator.Laws.{apply_each-SendsOnly, apply_all-eq-none_iff}

-- The object of an apply: the managed fields are taken out.
abbrev pub as_sent : Object → Object
as_sent o = record o { managed_fields = [] }

module _ {W : Type 0} (d : DependentLifecycleManager W) where
  build_objects-none :
      (b : ObjectBuilder) (builders : List ObjectBuilder)
      → (apply_builder d.transformations b).val ≡ none
      → build_objects d (b ∷ builders) ≡ build_objects d builders
  unfolding build_objects all_non_empty filter map_to is_not_present
  build_objects-none b builders e = ground (arith, e)

  build_objects-some :
      (b : ObjectBuilder) (builders : List ObjectBuilder) (o : Object)
      → (apply_builder d.transformations b).val ≡ some o
      → build_objects d (b ∷ builders) ≡ o ∷ build_objects d builders
  unfolding build_objects all_non_empty filter map_to is_not_present
  build_objects-some b builders o e = ground (arith, e)

  -- what a namespaced builder's object becomes
  abbrev pub transformed : ObjectBuilder → Object → Object
  transformed b o =
      add_owner_reference d.transformations (add_common_labels d.transformations b.component_name o)

  apply_builder-namespaced :
      (b : ObjectBuilder) (o : Object)
      → b.is_namespaced ≡ true
      → b.build ≡ optional_of (some o)
      → (apply_builder d.transformations b).val ≡ some (transformed b o)
  unfolding apply_builder
  apply_builder-namespaced b o namespaced built = rw (built, namespaced) refl

  pub Mem-build_objects :
      (builders : List ObjectBuilder) (b : ObjectBuilder) (o : Object)
      → Memᴰ b builders
      → b.is_namespaced ≡ true
      → b.build ≡ optional_of (some o)
      → Memᴰ (transformed b o) (build_objects d builders)
  Mem-build_objects [] b o mem namespaced built = elim mem [ ]
  Mem-build_objects (x ∷ builders) b o mem namespaced built = elim (Mem-cons_cases mem) [
    | inl same ↦
        rw
          (build_objects-some x builders (transformed b o) (
            ap (λ y. (apply_builder d.transformations y).val) (sym same)
            ∙ apply_builder-namespaced b o namespaced built))
          (Memᴰ.head refl)
    | inr later ↦
        let found = Mem-build_objects builders b o later namespaced built in
        elim (Option-cases (apply_builder d.transformations x).val) [
          | inl e ↦ rw (build_objects-none x builders e) found
          | inr (p, e) ↦ rw (build_objects-some x builders p e) (Memᴰ.tail found)
        ]
  ]

  module _ (promises : KeepsPromises d.client) where
    apply_each-sends :
        (dry : Bool) (objects : List Object) (errs : MultiErrorBuilder) (c : Cluster W) (o : Object)
        → Memᴰ o objects
        → Memᴰ (apply_call dry (as_sent o)) (apply_each d dry objects errs c).2.calls
    unfolding apply_each
    apply_each-sends dry [] errs c o mem = elim mem [ ]
    apply_each-sends dry (p ∷ objects) errs c o mem =
        let c' = (d.client.apply dry p c).1 in
        elim (Mem-cons_cases mem) [
          | inl same ↦ SendsOnly-keeps (apply_each-SendsOnly d promises dry objects _ c') (
              subst (λ calls. Memᴰ (apply_call dry (as_sent o)) calls)
                (sym (promises.applies dry p c))
                (Mem-append_right c.calls _
                  (Memᴰ.head (ap (λ x. apply_call dry (as_sent x)) same))))
          | inr later ↦ apply_each-sends dry objects _ c' o later
        ]

    -- If `ApplyAll` returns nil, every object of its builders was sent in an apply that is not a
    -- dry run.
    pub apply_all-applies :
        (builders : List ObjectBuilder) (c : Cluster W) (o : Object)
        → (apply_all d builders c).0 ≡ none
        → Memᴰ o (build_objects d builders)
        → Memᴰ (apply_call false (as_sent o)) (apply_all d builders c).1.calls
    unfolding apply_all apply_objects
    apply_all-applies builders c o ok mem =
        let objects = build_objects d builders in
        let dry = apply_objects d true objects c in
        let update = update_dependent_lifecycle_info d objects dry.2 in
        let live = apply_objects d false objects update.1 in
        let (dry_ok, recorded, applied, cleaned) =
          (apply_all-eq-none_iff d promises builders c).0 ok in
        rw (dry_ok, apply_all)
          (rw recorded (
            rw applied (
              SendsOnly-keeps (cleanup_dependents-keeps d promises live.1 live.2)
                (apply_each-sends false objects [] update.1 o mem))))
