-- ===== src/Reconcile.antt =====
-- The finalizers of the agent: controllers/reconcile_result.go, updateAgent of agent.go, finalizer.go,
-- and cleanup.go without the node labels. Log calls are left out.
pub mod Finalizers
pub mod Persist
pub mod Kept
pub mod Apply
pub mod Made
pub mod Applied
use instana_agent_operator.Prelude.{
  ℕ, String, Bool, true, false, Option, none, some, List, [], ◌∷◌, ◌++◌, if◌then◌else◌,
}
use instana_agent_operator.Errors.{Error}
use instana_agent_operator.Results.{Result, result_of, of_success}
use instana_agent_operator.Kube.Api.{Cluster}
use instana_agent_operator.Lifecycle.{DependentLifecycleManager}
use instana_agent_operator.Operator.{delete_all}

-- ctrl.Result, of which only Requeue is set
pub record CtrlResult : Type 0 where
  pub requeue : Bool

-- `reconcileReturn`: the optional is present exactly if it was given a result
abbrev pub ReconcileReturn : Type 0
ReconcileReturn = Option (Result CtrlResult)

abbrev pub supplies_reconcile_result : ReconcileReturn → Bool
supplies_reconcile_result none = false
supplies_reconcile_result (some r) = true

abbrev done : CtrlResult
done = record { requeue = false }

abbrev pub reconcile_success : CtrlResult → ReconcileReturn
reconcile_success res = some (of_success res)

abbrev pub reconcile_failure : Error → ReconcileReturn
reconcile_failure err = some (result_of done (some err))

abbrev pub reconcile_continue : ReconcileReturn
reconcile_continue = none

-- the agent: its finalizers and its deletion timestamp
pub record CustomResource : Type 0 where
  pub finalizers : List String
  pub deletion_timestamp : Option ℕ

-- What is sent, with the answer: the uninstall of the chart, `DeleteAll`, and the patch of the
-- agent with its finalizers.
pub data Step : Type 0 where
  helm_deleted : Option Error → Step
  dependents_deleted : Option Error → Step
  patched : List String → Option Error → Step

-- Code outside the repository, and the calls of it, over states of type `W`: Helm, the patch of the
-- agent, the removal of node labels by a command, and controllerutil.
pub record Outside (W : Type 0) : Type 0 where
  pub helm_delete : W → Option Error × W
  pub patch : List String → W → Option Error × W
  pub is_not_found : Error → Bool
  pub cleanup_node_labels : W → W
  -- controllerutil: whether the list changed, and the list
  pub add_finalizer : String → List String → Bool × List String
  pub remove_finalizer : String → List String → Bool × List String

abbrev pub finalizer_v1 : String
finalizer_v1 = "agent.instana.io/finalizer"

abbrev pub finalizer_v3 : String
finalizer_v3 = "v3.agent.instana.io/finalizer"

-- A handler's result with the steps it sent.
abbrev pub Handled : Type 0 → Type 0
Handled W = ReconcileReturn × List Step × Cluster W

module _ {W : Type 0} (d : DependentLifecycleManager W) (outside : Outside (Cluster W)) where
  unfoldable pub update_agent : List String → Cluster W → Handled W
  update_agent finalizers w =
      let (err, w') = outside.patch finalizers w in
      let sent = patched finalizers err ∷ [] in
      elim err [
        | none ↦ (reconcile_success (record { requeue = true }), sent, w')
        | some e ↦
            if outside.is_not_found e
            then (reconcile_success done, sent, w')
            else (reconcile_failure e, sent, w')
      ]

  -- first the step, then the patch if it succeeded
  unfoldable pub after_step : Step → Option Error → List String → Cluster W → Handled W
  after_step step (some e) finalizers w = (reconcile_failure e, step ∷ [], w)
  after_step step none finalizers w =
      let (res, sent, w') = update_agent finalizers w in (res, step ∷ sent, w')

  unfoldable pub cleanup_helm_chart : CustomResource → Cluster W → Handled W
  cleanup_helm_chart agent w =
      let (removed, finalizers) = outside.remove_finalizer finalizer_v1 agent.finalizers in
      let (err, w') = outside.helm_delete w in
      if removed
      then after_step (helm_deleted err) err finalizers w'
      else (reconcile_continue, [], w)

  unfoldable pub cleanup_dependents : CustomResource → Cluster W → Handled W
  cleanup_dependents agent w =
      let (removed, finalizers) = outside.remove_finalizer finalizer_v3 agent.finalizers in
      let (err, w') = delete_all d w in
      if removed
      then after_step (dependents_deleted err) err finalizers w'
      else (reconcile_continue, [], w)

  -- the two clean-ups of an agent under deletion
  unfoldable pub cleanup : CustomResource → Cluster W → Handled W
  cleanup agent w =
      let (chart, sent, w1) = cleanup_helm_chart agent w in
      let (dependents, sent', w2) = cleanup_dependents agent w1 in
      if supplies_reconcile_result chart
      then (chart, sent, w1)
      else if supplies_reconcile_result dependents
      then (dependents, sent ++ sent', w2)
      else (reconcile_success done, sent ++ sent', w2)

  unfoldable pub handle_deletion : CustomResource → Cluster W → Handled W
  handle_deletion agent w =
      let w' = outside.cleanup_node_labels w in
      elim agent.deletion_timestamp [
        | none ↦ (reconcile_continue, [], w')
        | some t ↦ cleanup agent w'
      ]

  unfoldable pub add_or_update_finalizers : CustomResource → Cluster W → Handled W
  add_or_update_finalizers agent w =
      let (chart, sent, w') = cleanup_helm_chart agent w in
      let (added, finalizers) = outside.add_finalizer finalizer_v3 agent.finalizers in
      let (res, sent', w'') = update_agent finalizers w' in
      if supplies_reconcile_result chart
      then (chart, sent, w')
      else if added
      then (res, sent ++ sent', w'')
      else (reconcile_continue, sent, w')
