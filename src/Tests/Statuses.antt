-- ===== src/Tests/Statuses.antt =====
-- The status of the agent.
use instana_agent_operator.Prelude.{
  ℕ, String, ◌≡◌, ◌≢◌, ◌↔◌, refl, Bool, true, false, Option, none, some, List, [], ◌∷◌, ◌==◌,
  string_comparable, nat_comparable, arith, eq_iff, if◌then◌else◌,
}
use instana_agent_operator.Results.{of_success}
use instana_agent_operator.Kube.{ObjectKey}
use instana_agent_operator.Status.Workloads.{
  DaemonSet, DaemonSetStatus, Deployment, DeploymentCondition, daemonset_is_available,
  deployment_is_available_and_complete,
}
use instana_agent_operator.Status.Availability.{
  last_condition, is_status_true, has_new_replica_set, daemonset_is_available_iff,
  deployment_is_available_and_complete_iff,
}
use instana_agent_operator.Status.Conditions.{
  Condition, ResourceInfo, ObservedAgent, Outside, AgentStatusManager,
}
use instana_agent_operator.Status.{
  deprecated_fields, agent_with_updated_status, update_agent_status,
}
use instana_agent_operator.Errors.{Error}
use instana_agent_operator.Status.Agents.{AreUpToDate}
use instana_agent_operator.Status.Outcome.{update_agent_status-disabled}
use instana_agent_operator.Status.Reported.{
  SetsCondition, find_status_condition, agent_with_updated_status-conditions,
}

abbrev replace_condition : List Condition → Condition → List Condition
replace_condition [] c = c ∷ []
replace_condition (d ∷ cs) c =
    let rest = replace_condition cs c in
    if d.condition_type == c.condition_type then c ∷ cs else d ∷ rest

find-replace :
    (cs : List Condition) (c : Condition)
    → find_status_condition (replace_condition cs c) c.condition_type ≡ some c
unfolding find_status_condition
find-replace [] c = ground (arith, eq_iff c.condition_type c.condition_type)
find-replace (d ∷ cs) c =
    ground (arith, find-replace cs c, eq_iff c.condition_type c.condition_type)

find-replace_other :
    (cs : List Condition) (c : Condition) (type' : String)
    → type' ≢ c.condition_type
    → find_status_condition (replace_condition cs c) type' ≡ find_status_condition cs type'
unfolding find_status_condition
find-replace_other [] c type' ne = ground (arith, ne, eq_iff c.condition_type type')
find-replace_other (d ∷ cs) c type' ne = ground (
  arith,
  ne,
  find-replace_other cs c type' ne,
  eq_iff c.condition_type type',
  eq_iff d.condition_type type',
  eq_iff d.condition_type c.condition_type,
)

replace-SetsCondition : SetsCondition replace_condition
replace-SetsCondition = record { find_set = find-replace; find_other = find-replace_other }

abbrev ready_status : DaemonSetStatus
ready_status = record {
  observed_generation = 2;
  number_misscheduled = 0;
  desired_number_scheduled = 3;
  number_available = 3;
  updated_number_scheduled = 3;
}

abbrev ready_daemon_set : DaemonSet
ready_daemon_set = record {
  name = "agent";
  uid = "u2";
  generation = 2;
  status = ready_status;
  status_is_zero = false;
}

daemonset_test : daemonset_is_available ready_daemon_set ≡ true
unfolding daemonset_is_available
daemonset_test = refl

daemonset_is_available_iff_example : (daemonset_is_available ready_daemon_set ≡ true) ↔ (
    (ready_daemon_set.status_is_zero ≡ false)
    × (ready_daemon_set.generation ≡ ready_status.observed_generation)
    × (ready_status.number_misscheduled ≡ 0)
    × (ready_status.desired_number_scheduled ≡ ready_status.number_available)
    × (ready_status.desired_number_scheduled ≡ ready_status.updated_number_scheduled))
daemonset_is_available_iff_example = daemonset_is_available_iff ready_daemon_set

abbrev ready_conditions : List DeploymentCondition
ready_conditions =
    record { condition_type = "Available"; status = "True"; reason = "" }
    ∷ record { condition_type = "Progressing"; status = "True"; reason = "NewReplicaSetAvailable" }
    ∷ []

abbrev ready_deployment : Deployment
ready_deployment = record { generation = 1; observed_generation = 1; conditions = ready_conditions }

deployment_is_available_and_complete_iff_example :
    (deployment_is_available_and_complete ready_deployment ≡ true) ↔ (
      (ready_deployment.observed_generation ≡ ready_deployment.generation)
      × (is_status_true (last_condition "Available" ready_conditions) ≡ true)
      × (is_status_true (last_condition "Progressing" ready_conditions) ≡ true)
      × (has_new_replica_set (last_condition "Progressing" ready_conditions) ≡ true)
      × (is_status_true (last_condition "ReplicaFailure" ready_conditions) ≡ false))
deployment_is_available_and_complete_iff_example =
    deployment_is_available_and_complete_iff ready_deployment

-- every read succeeds
abbrev outside : Outside ℕ
outside = record {
  get_daemon_set = λ key w. (of_success ready_daemon_set, w);
  get_deployment = λ key w. (of_success ready_deployment, w);
  get_secret = λ key w. (of_success (record { name = key.name; uid = "s" }), w);
  get_config_map = λ key w. (of_success (record { name = key.name; uid = "m" }), w);
  patch_status = λ agent w. (none, w);
  is_not_found = λ e. false;
  set_status_condition = replace_condition;
  now = λ w. w;
  operator_version = of_success "2.0.0";
  version_equal = λ a b. a == b;
  message = λ e. "message";
}

abbrev no_info : ResourceInfo
no_info = record { name = ""; uid = "" }

abbrev observed_with : Option Bool → ObservedAgent
observed_with enabled = record {
  generation = 2;
  k8s_sensor_enabled = enabled;
  status = record {
    status = "";
    reason = "";
    last_update = 0;
    old_versions_updated = false;
    daemon_set = no_info;
    config_secret = no_info;
    namespaces_config_map = no_info;
    conditions = [];
    observed_generation = none;
    operator_version = none;
  };
}

abbrev key_named : String → ObjectKey
key_named name = record { namespace = "ns"; name = name }

abbrev manager_of : Option Bool → AgentStatusManager
manager_of enabled = record {
  agent_old = some (observed_with enabled);
  agent_daemonsets = key_named "agent" ∷ [];
  k8s_sensor_deployment = key_named "agent-k8sensor";
  agent_secret_config = key_named "agent-config";
  agent_namespaces_configmap = key_named "agent-namespaces";
}

update_agent_status-disabled_example :
    (update_agent_status outside (manager_of (some false)) none 0).0 ≢ none
update_agent_status-disabled_example =
    update_agent_status-disabled outside (manager_of (some false)) (observed_with (some false)) none
      0 refl refl

abbrev no_error : Option Error
no_error = none

agent_with_updated_status-conditions_example :
    (let o = observed_with none in
      let sent =
        (agent_with_updated_status outside (manager_of none) o none 0).0.res.status.conditions in
      let w' = (deprecated_fields outside (manager_of none) o none 0).2 in
      ((c : Condition) × (find_status_condition sent "ReconcileSucceeded" ≡ some c)
        × (c.observed_generation ≡ 2)
        × ((c.status ≡ "True") ↔ (no_error ≡ none))
        × ((c.status ≡ "False") ↔ (no_error ≢ none)))
      × ((c : Condition) × (find_status_condition sent "AllAgentsAvailable" ≡ some c)
          × (c.observed_generation ≡ 2)
          × ((c.status ≡ "True") ↔ AreUpToDate outside (key_named "agent" ∷ []) w')))
agent_with_updated_status-conditions_example =
    agent_with_updated_status-conditions outside replace-SetsCondition (manager_of none)
      (observed_with none) none 0
