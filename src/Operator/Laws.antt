-- ===== src/Operator/Laws.antt =====
-- What `ApplyAll` and `DeleteAll` send, and what their results say.
use mathlib.Core.Path.{subst}
use instana_agent_operator.Prelude.{
  ◌≡◌, ◌↔◌, refl, String, Bool, true, false, none, some, List, [], ◌∷◌, Memᴰ, arith, inl, inr,
  Option-cases,
}
use instana_agent_operator.Errors.{Error, MultiErrorBuilder, add_single}
use instana_agent_operator.Results.{on_failure}
use instana_agent_operator.Kube.{Object, Unstructured}
use instana_agent_operator.Kube.Api.{
  Call, apply_call, delete_call, get_call, patch_call, status_call, Cluster, SendsOnly,
  SendsOnly-refl, SendsOnly-trans, SendsOnly-mono, SendsOnly-calls,
}
use instana_agent_operator.Kube.Client.Promises.{KeepsPromises}
use instana_agent_operator.Lifecycle.{
  DependentLifecycleManager, as_unstructureds, as_unstructured, update_dependent_lifecycle_info,
  cleanup_dependents, update_attempt, retry, get_or_initialize_lifecycle_cm, data_of,
  get_lifecycle_config_map,
}
use instana_agent_operator.Lifecycle.Cleanup.{
  Spares, KeepsIdentities, retry_from-SendsOnly, cleanup_dependents-SendsOnly, delete_of,
}
use instana_agent_operator.Lifecycle.Deletes.{cleanup_dependents-deletes}
use instana_agent_operator.Transform.{ObjectBuilder}
use instana_agent_operator.Operator.{
  build_objects, apply_each, apply_objects, apply_all, delete_all,
}

-- an apply with or without `DryRunAll`
abbrev pub IsApply : Bool → Call → Type 0
IsApply dry (apply_call d _) = d ≡ dry
IsApply dry _ = ⊥

-- no delete at all
abbrev pub IsNoDelete : Call → Type 0
IsNoDelete (delete_call _ _) = ⊥
IsNoDelete _ = Unit

module _ {W : Type 0} (d : DependentLifecycleManager W) (promises : KeepsPromises d.client) where
  pub apply_each-SendsOnly :
      (dry : Bool) (objects : List Object) (errs : MultiErrorBuilder) (c : Cluster W)
      → SendsOnly (IsApply dry) c (apply_each d dry objects errs c).2
  unfolding apply_each
  apply_each-SendsOnly dry [] errs c = SendsOnly-refl c
  apply_each-SendsOnly dry (o ∷ objects) errs c =
      SendsOnly-trans (SendsOnly-calls _ (promises.applies dry o c) refl)
        (apply_each-SendsOnly dry objects _ _)

  apply_objects-SendsOnly :
      (dry : Bool) (objects : List Object) (c : Cluster W)
      → SendsOnly (IsApply dry) c (apply_objects d dry objects c).2
  unfolding apply_objects
  apply_objects-SendsOnly dry objects c = apply_each-SendsOnly dry objects [] c

  -- If the dry run of an object fails, `ApplyAll` returns the error and has sent nothing but dry
  -- runs.
  pub apply_all-dry_run_failed :
      (builders : List ObjectBuilder) (c : Cluster W) (e : Error)
      → (apply_objects d true (build_objects d builders) c).0 ≡ some e
      → ((apply_all d builders c).0 ≡ some e)
        × SendsOnly (IsApply true) c (apply_all d builders c).1
  unfolding apply_all
  apply_all-dry_run_failed builders c e failed = (
    rw (failed, apply_all),
    rw (failed, apply_all) (apply_objects-SendsOnly true (build_objects d builders) c),
  )

  update_attempt-SendsOnly :
      (objects : List Object) (c : Cluster W)
      → SendsOnly IsNoDelete c (update_attempt d objects c).2
  unfolding update_attempt
  update_attempt-SendsOnly objects c =
      SendsOnly-trans {b = (get_or_initialize_lifecycle_cm d c).1}
        (SendsOnly-calls _ (unfold get_or_initialize_lifecycle_cm in promises.reads _ _ c) tt)
        (SendsOnly-calls _ (promises.applies false _ _) tt)

  update-SendsOnly :
      (objects : List Object) (c : Cluster W)
      → SendsOnly IsNoDelete c (update_dependent_lifecycle_info d objects c).1
  unfolding update_dependent_lifecycle_info retry
  update-SendsOnly objects c =
      retry_from-SendsOnly d.server (update_attempt d objects) (update_attempt-SendsOnly objects) 5
        0 5 100 c

  -- The answer to an apply names the object that was applied.
  pub record KeepsIdentity : Type 0 where
    pub same :
        (dry : Bool) (o : Object) (c : Cluster W)
        → as_unstructured (d.client.apply dry o c).0.res ≡ as_unstructured o

  apply_each-identity :
      KeepsIdentity
      → (dry : Bool) (objects : List Object) (errs : MultiErrorBuilder) (c : Cluster W)
      → as_unstructureds (apply_each d dry objects errs c).1 ≡ as_unstructureds objects
  unfolding apply_each as_unstructureds
  apply_each-identity keeps dry [] errs c = refl
  apply_each-identity keeps dry (o ∷ objects) errs c = cc (
    keeps.same dry o c,
    apply_each-identity keeps dry objects (on_failure (d.client.apply dry o c).0 add_single errs)
        (d.client.apply dry o c).1,
  )

  IsApply→Spares :
      (dry : Bool) (current : List Unstructured) (call : Call)
      → IsApply dry call
      → Spares current call
  IsApply→Spares dry current (apply_call _ _) h = tt
  IsApply→Spares dry current (delete_call _ _) h = absurd h
  IsApply→Spares dry current (get_call _ _) h = absurd h
  IsApply→Spares dry current (patch_call _) h = absurd h
  IsApply→Spares dry current (status_call _) h = absurd h

  IsNoDelete→Spares :
      (current : List Unstructured) (call : Call) → IsNoDelete call → Spares current call
  IsNoDelete→Spares current (delete_call _ _) h = absurd h
  IsNoDelete→Spares current (apply_call _ _) h = tt
  IsNoDelete→Spares current (get_call _ _) h = tt
  IsNoDelete→Spares current (patch_call _) h = tt
  IsNoDelete→Spares current (status_call _) h = tt

  apply_objects-Spares :
      (dry : Bool) (objects : List Object) (current : List Unstructured) (c : Cluster W)
      → SendsOnly (Spares current) c (apply_objects d dry objects c).2
  apply_objects-Spares dry objects current c =
      SendsOnly-mono (IsApply→Spares dry current) (apply_objects-SendsOnly dry objects c)

  update-Spares :
      (objects : List Object) (current : List Unstructured) (c : Cluster W)
      → SendsOnly (Spares current) c (update_dependent_lifecycle_info d objects c).1
  update-Spares objects current c =
      SendsOnly-mono (IsNoDelete→Spares current) (update-SendsOnly objects c)

  cleanup-Spares :
      KeepsIdentity
      → KeepsIdentities d
      → (objects : List Object) (c c' : Cluster W)
      → SendsOnly
          (Spares (as_unstructureds objects))
          c'
          (cleanup_dependents d (apply_objects d false objects c).1 c').1
  unfolding apply_objects
  cleanup-Spares keeps identities objects c c' =
      subst
        (λ us.
          SendsOnly (Spares us) c' (cleanup_dependents d (apply_objects d false objects c).1 c').1)
        (apply_each-identity keeps false objects [] c)
        (cleanup_dependents-SendsOnly d promises identities (apply_objects d false objects c).1 c')

  -- `ApplyAll` sends no delete for an object that its builders build, on any of its paths, if the
  -- answers to applies name the objects that were applied, and the entries of the ConfigMap hold
  -- identities and no further content whenever it is read, as the operator writes them.
  pub apply_all-SendsOnly :
      KeepsIdentity
      → KeepsIdentities d
      → (builders : List ObjectBuilder) (c : Cluster W)
      → SendsOnly
          (Spares (as_unstructureds (build_objects d builders)))
          c
          (apply_all d builders c).1
  unfolding apply_all
  apply_all-SendsOnly keeps identities builders c =
      let objects = build_objects d builders in
      let current = as_unstructureds objects in
      let dry = apply_objects d true objects c in
      let update = update_dependent_lifecycle_info d objects dry.2 in
      let live = apply_objects d false objects update.1 in
      let after_dry = apply_objects-Spares true objects current c in
      let after_update = SendsOnly-trans after_dry (update-Spares objects current dry.2) in
      let after_apply =
        SendsOnly-trans after_update (apply_objects-Spares false objects current update.1) in
      elim (Option-cases dry.0) [
        | inr (e, failed) ↦ rw (failed, apply_all) after_dry
        | inl dry_ok ↦ elim (Option-cases update.0) [
          | inr (e, failed) ↦ rw (dry_ok, apply_all) (rw failed after_update)
          | inl recorded ↦ elim (Option-cases live.0) [
            | inr (e, failed) ↦ rw (dry_ok, apply_all) (rw recorded (rw failed after_apply))
            | inl applied ↦
                rw (dry_ok, apply_all)
                  (rw recorded (
                    rw applied (
                      SendsOnly-trans after_apply
                        (cleanup-Spares keeps identities objects update.1 live.2))))
          ]
        ]
      ]

  -- `ApplyAll` returns nil exactly if its four stages do: the dry run, the record of the
  -- generation, the applies and the cleanup.
  pub apply_all-eq-none_iff :
      (builders : List ObjectBuilder) (c : Cluster W)
      → let objects = build_objects d builders in
        let dry = apply_objects d true objects c in
        let update = update_dependent_lifecycle_info d objects dry.2 in
        let live = apply_objects d false objects update.1 in
        ((apply_all d builders c).0 ≡ none) ↔ (
          (dry.0 ≡ none)
          × (update.0 ≡ none)
          × (live.0 ≡ none)
          × ((cleanup_dependents d live.1 live.2).0 ≡ none))
  unfolding apply_all
  apply_all-eq-none_iff builders c = ground arith

  -- When the agent is deleted, `DeleteAll` sends a delete for every object that the ConfigMap
  -- records under some key.
  pub delete_all-deletes :
      (c : Cluster W) (key json : String) (u : Unstructured)
      → Memᴰ (key, json) (data_of (get_lifecycle_config_map d c).1)
      → Memᴰ u (d.json.unmarshal json)
      → Memᴰ (delete_of u) (delete_all d c).1.calls
  unfolding delete_all as_unstructureds
  delete_all-deletes c key json u listed old =
      cleanup_dependents-deletes d promises [] c key json u listed old (λ m. elim m [ ])
