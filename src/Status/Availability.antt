-- ===== src/Status/Availability.antt =====
-- When a workload counts as available.
use instana_agent_operator.Prelude.{
  String, ◌≡◌, ◌↔◌, refl, Bool, true, false, Option, none, some, List, [], ◌∷◌, ◌==◌,
  string_comparable, nat_comparable, arith, if◌then◌else◌,
}
use instana_agent_operator.Prelude.Dict.{Dict, lookup, insert, lookup-insert}
use instana_agent_operator.Status.Workloads.{
  DaemonSet, DeploymentCondition, Deployment, daemonset_is_available, deployment_conditions_as_map,
  deployment_has_minimum_availability, deployment_is_complete, deployment_has_replica_failures,
  deployment_is_available_and_complete,
}

-- The last condition of a type.
unfoldable pub last_condition : String → List DeploymentCondition → Option DeploymentCondition
last_condition type' [] = none
last_condition type' (c ∷ cs) = elim (last_condition type' cs) [
  | none ↦ if c.condition_type == type' then some c else none
  | some d ↦ some d
]

lookup-deployment_conditions_as_map :
    (k : String) (cs : List DeploymentCondition) (m : Dict DeploymentCondition)
    → lookup k (deployment_conditions_as_map cs m)
      ≡ elim (last_condition k cs) [ none ↦ lookup k m | some d ↦ some d ]
unfolding deployment_conditions_as_map last_condition
lookup-deployment_conditions_as_map k [] m = refl
lookup-deployment_conditions_as_map k (c ∷ cs) m = ground (
  arith,
  lookup-deployment_conditions_as_map k cs (insert c.condition_type c m),
  lookup-insert c.condition_type k c m,
)

-- A DaemonSet is available exactly if it has a status, for its own generation, in which no pod is
-- misscheduled and every scheduled pod is available and up to date.
pub daemonset_is_available_iff :
    (ds : DaemonSet)
    → (daemonset_is_available ds ≡ true) ↔ (
        (ds.status_is_zero ≡ false)
        × (ds.generation ≡ ds.status.observed_generation)
        × (ds.status.number_misscheduled ≡ 0)
        × (ds.status.desired_number_scheduled ≡ ds.status.number_available)
        × (ds.status.desired_number_scheduled ≡ ds.status.updated_number_scheduled))
unfolding daemonset_is_available
daemonset_is_available_iff ds = ground arith

abbrev pub is_status_true : Option DeploymentCondition → Bool
is_status_true none = false
is_status_true (some c) = c.status == "True"

abbrev pub has_new_replica_set : Option DeploymentCondition → Bool
has_new_replica_set none = false
has_new_replica_set (some c) = c.reason == "NewReplicaSetAvailable"

-- A Deployment is available exactly if its status is of its own generation, the last condition of
-- type Available is true, the last one of type Progressing is true for the reason
-- NewReplicaSetAvailable, and the last one of type ReplicaFailure, if there is one, is not true.
pub deployment_is_available_and_complete_iff :
    (dpl : Deployment)
    → (deployment_is_available_and_complete dpl ≡ true) ↔ (
        (dpl.observed_generation ≡ dpl.generation)
        × (is_status_true (last_condition "Available" dpl.conditions) ≡ true)
        × (is_status_true (last_condition "Progressing" dpl.conditions) ≡ true)
        × (has_new_replica_set (last_condition "Progressing" dpl.conditions) ≡ true)
        × (is_status_true (last_condition "ReplicaFailure" dpl.conditions) ≡ false))
unfolding deployment_is_available_and_complete deployment_has_minimum_availability
    deployment_is_complete deployment_has_replica_failures lookup
deployment_is_available_and_complete_iff dpl =
    let at = λ (k : String). lookup-deployment_conditions_as_map k dpl.conditions [] in
    ground (arith, at "Available", at "Progressing", at "ReplicaFailure")
