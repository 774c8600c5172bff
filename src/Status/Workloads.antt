-- ===== src/Status/Workloads.antt =====
-- pkg/k8s/operator/status/helpers.go: the phase and the readiness of the workloads. A metav1 or
-- appsv1 type keeps the fields that are read.
use instana_agent_operator.Prelude.{
  ℕ, String, Bool, true, false, not, ◌&&◌, Option, none, some, List, [], ◌∷◌, ◌==◌, nat_comparable,
  string_comparable, if◌then◌else◌,
}
use instana_agent_operator.Prelude.Dict.{Dict, insert, lookup}
use instana_agent_operator.Errors.{Error}

-- appsv1.DaemonSetStatus
pub record DaemonSetStatus : Type 0 where
  pub observed_generation : ℕ
  pub number_misscheduled : ℕ
  pub desired_number_scheduled : ℕ
  pub number_available : ℕ
  pub updated_number_scheduled : ℕ

-- appsv1.DaemonSet; `status_is_zero` is `reflect`'s test on the whole of its status
pub record DaemonSet : Type 0 where
  pub name : String
  pub uid : String
  pub generation : ℕ
  pub status : DaemonSetStatus
  pub status_is_zero : Bool

-- appsv1.DeploymentCondition
pub record DeploymentCondition : Type 0 where
  pub condition_type : String
  pub status : String
  pub reason : String

-- appsv1.Deployment
pub record Deployment : Type 0 where
  pub generation : ℕ
  pub observed_generation : ℕ
  pub conditions : List DeploymentCondition

abbrev pub get_agent_phase : Option Error → String
get_agent_phase none = "Running"
get_agent_phase (some e) = "Failed"

-- `message` is err.Error()
abbrev pub get_reason : (Error → String) → Option Error → String
get_reason message none = ""
get_reason message (some e) = message e

unfoldable pub daemonset_is_available : DaemonSet → Bool
daemonset_is_available ds =
    let status = ds.status in
    if ds.status_is_zero
    then false
    else if not (ds.generation == status.observed_generation)
    then false
    else if not (status.number_misscheduled == 0)
    then false
    else if not (status.desired_number_scheduled == status.number_available)
    then false
    else if not (status.desired_number_scheduled == status.updated_number_scheduled)
    then false
    else true

-- the loop: a later condition of one type replaces an earlier one
unfoldable pub deployment_conditions_as_map :
    List DeploymentCondition → Dict DeploymentCondition → Dict DeploymentCondition
deployment_conditions_as_map [] res = res
deployment_conditions_as_map (c ∷ cs) res =
    deployment_conditions_as_map cs (insert c.condition_type c res)

unfoldable pub deployment_has_minimum_availability : Dict DeploymentCondition → Bool
deployment_has_minimum_availability conditions = elim (lookup "Available" conditions) [
  | none ↦ false
  | some c ↦ c.status == "True"
]

unfoldable pub deployment_is_complete : Dict DeploymentCondition → Bool
deployment_is_complete conditions = elim (lookup "Progressing" conditions) [
  | none ↦ false
  | some c ↦ c.status == "True" && c.reason == "NewReplicaSetAvailable"
]

unfoldable pub deployment_has_replica_failures : Dict DeploymentCondition → Bool
deployment_has_replica_failures conditions = elim (lookup "ReplicaFailure" conditions) [
  | none ↦ false
  | some c ↦ c.status == "True"
]

unfoldable pub deployment_is_available_and_complete : Deployment → Bool
deployment_is_available_and_complete dpl =
    let conditions = deployment_conditions_as_map dpl.conditions [] in
    if not (dpl.observed_generation == dpl.generation)
    then false
    else if not (deployment_has_minimum_availability conditions)
    then false
    else if not (deployment_is_complete conditions)
    then false
    else if deployment_has_replica_failures conditions
    then false
    else true
