-- ===== src/Reconcile/Finalizers.antt =====
-- The agent's finalizer is taken off only after `DeleteAll` returned nil.
use mathlib.Core.Path.{subst}
use instana_agent_operator.Prelude.{
  ℕ, String, ◌≡◌, ◌≢◌, refl, sym, ap, ◌∙◌, ◌⊎◌, inl, inr, Bool, true, false, Bool-cases, Option,
  none, some, Option-cases, List, [], ◌∷◌, Memᴰ, Mem-cons_cases, All, All-of_Mem, arith, eq_iff,
}
use instana_agent_operator.Errors.{Error}
use instana_agent_operator.Kube.Api.{Cluster}
use instana_agent_operator.Kube.Client.Promises.{KeepsPromises}
use instana_agent_operator.Lifecycle.{DependentLifecycleManager, data_of, get_lifecycle_config_map}
use instana_agent_operator.Lifecycle.Cleanup.{delete_of}
use instana_agent_operator.Operator.{delete_all}
use instana_agent_operator.Operator.Laws.{delete_all-deletes}
use instana_agent_operator.Reconcile.{
  CustomResource, Step, helm_deleted, dependents_deleted, patched, Outside, finalizer_v1,
  finalizer_v3, supplies_reconcile_result, update_agent, after_step, cleanup_helm_chart,
  cleanup_dependents, cleanup, handle_deletion,
}

-- controllerutil.RemoveFinalizer keeps the other finalizers.
pub record RemovesOnly (remove : String → List String → Bool × List String) : Type 0 where
  pub keeps : (f g : String) (fs : List String) → f ≢ g → Memᴰ g fs → Memᴰ g (remove f fs).1

module _ {W : Type 0} (d : DependentLifecycleManager W) (outside : Outside (Cluster W)) where
  -- what an update answers, and what it sends
  update_agent-sent :
      (fs : List String) (c : Cluster W)
      → (supplies_reconcile_result (update_agent d outside fs c).0 ≡ true)
        × ((update_agent d outside fs c).1 ≡ patched fs (outside.patch fs c).0 ∷ [])
  unfolding update_agent
  update_agent-sent fs c = ground arith

  after_step-sent :
      (step : Step) (err : Option Error) (fs : List String) (c : Cluster W)
      → (supplies_reconcile_result (after_step d outside step err fs c).0 ≡ true)
        × (((err ≢ none) × ((after_step d outside step err fs c).1 ≡ step ∷ []))
            ⊎ ((err ≡ none)
                × ((after_step d outside step err fs c).1
                    ≡ step ∷ patched fs (outside.patch fs c).0 ∷ [])))
  unfolding after_step
  after_step-sent step (some e) fs c = (refl, inl ((λ h. ground (arith, h)), refl))
  after_step-sent step none fs c =
      let (supplied, sent) = update_agent-sent fs c in
      (supplied, inr (refl, ap (λ l. step ∷ l) sent))

  -- A patch among the steps after a step that is none itself: the step succeeded, and the patch is
  -- what came next.
  after_step-patched :
      (step : Step) (err : Option Error) (fs gs : List String) (e : Option Error) (c : Cluster W)
      → patched gs e ≢ step
      → Memᴰ (patched gs e) (after_step d outside step err fs c).1
      → (err ≡ none)
        × (gs ≡ fs)
        × ((after_step d outside step err fs c).1 ≡ step ∷ patched gs e ∷ [])
  after_step-patched step err fs gs e c other mem = elim (after_step-sent step err fs c).1 [
    | inl (_, sent) ↦ elim (Mem-cons_cases (subst (Memᴰ (patched gs e)) sent mem)) [
      | inl p ↦ elim (other p) [ ]
      | inr m ↦ elim m [ ]
    ]
    | inr (ok, sent) ↦ elim (Mem-cons_cases (subst (Memᴰ (patched gs e)) sent mem)) [
      | inl p ↦ elim (other p) [ ]
      | inr m ↦ elim (Mem-cons_cases m) [
        | inl p ↦ (ok, ground (arith, p), sent ∙ ap (λ x. step ∷ x ∷ []) (sym p))
        | inr n ↦ elim n [ ]
      ]
    ]
  ]

  sent-chart_removed :
      (agent : CustomResource) (c : Cluster W)
      → (outside.remove_finalizer finalizer_v1 agent.finalizers).0 ≡ true
      → let (err, c') = outside.helm_delete c in
        (cleanup d outside agent c).1
        ≡ (after_step d outside
            (helm_deleted err)
            err
            (outside.remove_finalizer finalizer_v1 agent.finalizers).1
            c').1
  unfolding cleanup cleanup_helm_chart
  sent-chart_removed agent c removed =
      let (err, c') = outside.helm_delete c in
      ground (
        arith,
        removed,
        (after_step-sent (helm_deleted err) err
            (outside.remove_finalizer finalizer_v1 agent.finalizers).1 c').0,
      )

  sent-chart_kept :
      (agent : CustomResource) (c : Cluster W)
      → (outside.remove_finalizer finalizer_v1 agent.finalizers).0 ≡ false
      → (cleanup d outside agent c).1 ≡ (cleanup_dependents d outside agent c).1
  unfolding cleanup cleanup_helm_chart
  sent-chart_kept agent c kept = ground (arith, kept)

  sent-dependents :
      (agent : CustomResource) (c : Cluster W)
      → let (removed, finalizers) = outside.remove_finalizer finalizer_v3 agent.finalizers in
        let (err, c') = delete_all d c in
        ((cleanup_dependents d outside agent c).1 ≡ [])
        ⊎ ((cleanup_dependents d outside agent c).1
            ≡ (after_step d outside (dependents_deleted err) err finalizers c').1)
  unfolding cleanup_dependents
  sent-dependents agent c =
      elim (Bool-cases (outside.remove_finalizer finalizer_v3 agent.finalizers).0) [
        | inl removed ↦ inr (ground (arith, removed))
        | inr kept ↦ inl (ground (arith, kept))
      ]

  -- in the two clean-ups a patch without the agent's finalizer follows the deletion
  cleanup-deletes_first :
      (agent : CustomResource) (c : Cluster W) (fs : List String) (e : Option Error)
      → RemovesOnly outside.remove_finalizer
      → Memᴰ finalizer_v3 agent.finalizers
      → ¬ (Memᴰ finalizer_v3 fs)
      → Memᴰ (patched fs e) (cleanup d outside agent c).1
      → ((cleanup d outside agent c).1 ≡ dependents_deleted none ∷ patched fs e ∷ [])
        × ((delete_all d c).0 ≡ none)
  cleanup-deletes_first agent c fs e removes has off mem =
      elim (Bool-cases (outside.remove_finalizer finalizer_v1 agent.finalizers).0) [
        | inl removed ↦
            let (err, c') = outside.helm_delete c in
            let (_, same, _) =
              after_step-patched (helm_deleted err) err
                (outside.remove_finalizer finalizer_v1 agent.finalizers).1 fs e c'
                (λ p. ground (arith, p))
                (subst (Memᴰ (patched fs e)) (sent-chart_removed agent c removed) mem) in
            elim (off (
              subst (Memᴰ finalizer_v3) (sym same) (
                removes.keeps finalizer_v1 finalizer_v3 agent.finalizers
                  (λ p. ground (arith, p, eq_iff finalizer_v1 finalizer_v3)) has))) [ ]
        | inr kept ↦
            let as_dependents = sent-chart_kept agent c kept in
            let (err, c') = delete_all d c in
            elim (sent-dependents agent c) [
              | inl nothing ↦ elim (subst (Memᴰ (patched fs e)) (as_dependents ∙ nothing) mem) [ ]
              | inr sent ↦
                  let (ok, same, steps) =
                    after_step-patched (dependents_deleted err) err
                      (outside.remove_finalizer finalizer_v3 agent.finalizers).1 fs e c'
                      (λ p. ground (arith, p))
                      (subst (Memᴰ (patched fs e)) (as_dependents ∙ sent) mem) in
                  (
                    as_dependents
                        ∙ sent
                        ∙ steps
                        ∙ ap (λ x. dependents_deleted x ∷ patched fs e ∷ []) ok,
                    ok,
                  )
            ]
      ]

  sent-not_deleted :
      (agent : CustomResource) (c : Cluster W)
      → agent.deletion_timestamp ≡ none
      → (handle_deletion d outside agent c).1 ≡ []
  unfolding handle_deletion
  sent-not_deleted agent c kept = ground (arith, kept)

  sent-deleted :
      (agent : CustomResource) (c : Cluster W) (t : ℕ)
      → agent.deletion_timestamp ≡ some t
      → (handle_deletion d outside agent c).1
        ≡ (cleanup d outside agent (outside.cleanup_node_labels c)).1
  unfolding handle_deletion
  sent-deleted agent c t deleted = ground (arith, deleted)

  -- While an agent that has the operator's finalizer is handled, and a patch that takes the
  -- finalizer off is sent, then the steps are the run of `DeleteAll` and then that patch, `DeleteAll`
  -- returned nil, and it had sent a delete for every object that an entry of the ConfigMap, as it
  -- was read, recorded; if RemoveFinalizer keeps the finalizers that it is not asked to remove, and
  -- the client does what `client-KeepsPromises` shows of it.
  pub handle_deletion-deletes_first :
      KeepsPromises d.client
      → (agent : CustomResource) (c : Cluster W) (fs : List String) (e : Option Error)
      → RemovesOnly outside.remove_finalizer
      → Memᴰ finalizer_v3 agent.finalizers
      → Memᴰ (patched fs e) (handle_deletion d outside agent c).1
      → ¬ (Memᴰ finalizer_v3 fs)
      → let start = outside.cleanup_node_labels c in
        ((handle_deletion d outside agent c).1 ≡ dependents_deleted none ∷ patched fs e ∷ [])
        × ((delete_all d start).0 ≡ none)
        × All
            (λ (entry : String × String).
              All (λ u. Memᴰ (delete_of u) (delete_all d start).1.calls) (d.json.unmarshal entry.1))
            (data_of (get_lifecycle_config_map d start).1)
  handle_deletion-deletes_first promises agent c fs e removes has sent off =
      let start = outside.cleanup_node_labels c in
      elim (Option-cases agent.deletion_timestamp) [
        | inl kept ↦ elim (subst (Memᴰ (patched fs e)) (sent-not_deleted agent c kept) sent) [ ]
        | inr (t, deleted) ↦
            let same = sent-deleted agent c t deleted in
            let (steps, ok) =
              cleanup-deletes_first agent start fs e removes has off
                (subst (Memᴰ (patched fs e)) same sent) in
            (
              same ∙ steps,
              ok,
              All-of_Mem _ _ (λ (key, json) listed.
                  All-of_Mem _ _
                    (λ u old. delete_all-deletes d promises start key json u listed old)),
            )
      ]
