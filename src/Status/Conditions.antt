-- ===== src/Status/Conditions.antt =====
-- pkg/k8s/operator/status/agent_status_manager.go: the manager's inputs and the three conditions.
use Prim.Native.String
use instana_agent_operator.Prelude.{
  ℕ, String, Bool, true, false, not, Option, none, some, List, [], ◌∷◌, ◌++◌, ◌==◌, ◌&&◌, refl,
  nat_comparable, string_comparable, leb, if◌then◌else◌,
}
use instana_agent_operator.Prelude.Text.{◌<>◌}
use instana_agent_operator.Collections.{conditions_all, contains_element}
use instana_agent_operator.Optional.{deref_or_default, HasZero}
use instana_agent_operator.Errors.{Error, text}
use instana_agent_operator.Results.{
  Result, result_of, of_success, of_failure, is_success, is_failure,
}
use instana_agent_operator.Kube.{ObjectKey, key_comparable}
use instana_agent_operator.Status.Workloads.{
  DaemonSet, Deployment, get_reason, daemonset_is_available, deployment_is_available_and_complete,
}

-- metav1.Condition, without the transition time that meta.SetStatusCondition keeps
pub record Condition : Type 0 where
  pub condition_type : String
  pub status : String
  pub observed_generation : ℕ
  pub reason : String
  pub message : String

pub record ResourceInfo : Type 0 where
  pub name : String
  pub uid : String

-- `InstanaAgentStatus` with the deprecated fields it embeds; a version is its text
pub record InstanaAgentStatus : Type 0 where
  pub status : String
  pub reason : String
  pub last_update : ℕ
  pub old_versions_updated : Bool
  pub daemon_set : ResourceInfo
  pub config_secret : ResourceInfo
  pub namespaces_config_map : ResourceInfo
  pub conditions : List Condition
  pub observed_generation : Option ℕ
  pub operator_version : Option String

-- the agent as the manager sees it
pub record ObservedAgent : Type 0 where
  pub generation : ℕ
  pub k8s_sensor_enabled : Option Bool
  pub status : InstanaAgentStatus

-- Code outside the repository, over worlds of type `W`: the reads through the client, the patch
-- of the status, meta.SetStatusCondition, the clock, semver, and errors.
pub record Outside (W : Type 0) : Type 0 where
  pub get_daemon_set : ObjectKey → W → Result DaemonSet × W
  pub get_deployment : ObjectKey → W → Result Deployment × W
  -- the name and the UID of the object
  pub get_secret : ObjectKey → W → Result ResourceInfo × W
  pub get_config_map : ObjectKey → W → Result ResourceInfo × W
  pub patch_status : ObservedAgent → W → Option Error × W
  pub is_not_found : Error → Bool
  pub set_status_condition : List Condition → Condition → List Condition
  pub now : W → ℕ
  -- semver.NewVersion(env.GetOperatorVersion()), and Equal
  pub operator_version : Result String
  pub version_equal : String → String → Bool
  pub message : Error → String

-- `agentStatusManager`
pub record AgentStatusManager : Type 0 where
  pub agent_old : Option ObservedAgent
  pub agent_daemonsets : List ObjectKey
  pub k8s_sensor_deployment : ObjectKey
  pub agent_secret_config : ObjectKey
  pub agent_namespaces_configmap : ObjectKey

unfoldable pub add_agent_daemonset : ObjectKey → AgentStatusManager → AgentStatusManager
add_agent_daemonset key a =
    if not (contains_element a.agent_daemonsets key)
    then record a { agent_daemonsets = a.agent_daemonsets ++ key ∷ [] }
    else a

-- `objectKeyHasNoName`
abbrev pub object_key_has_no_name : ObjectKey → Bool
object_key_has_no_name key = key.name == ""

-- A string is the sequence of its bytes.
abbrev pub truncate_message : String → String
truncate_message message =
    if leb (String.len message) 32768 then message else String.slice message 0 32768

abbrev pub condition_type_reconcile_succeeded : String
condition_type_reconcile_succeeded = "ReconcileSucceeded"

abbrev pub condition_type_all_agents_available : String
condition_type_all_agents_available = "AllAgentsAvailable"

abbrev pub condition_type_all_k8s_sensors_available : String
condition_type_all_k8s_sensors_available = "AllK8sSensorsAvailable"

abbrev no_condition : Condition
no_condition = record {
  condition_type = "";
  status = "";
  observed_generation = 0;
  reason = "";
  message = "";
}

abbrev condition_is_zero : Condition → Bool
condition_is_zero c =
    c.condition_type == ""
    && c.status == ""
    && c.observed_generation == 0
    && c.reason == ""
    && c.message == ""

instance abbrev condition_zero : HasZero Condition
condition_zero = record {
  zero_value = no_condition;
  is_zero = condition_is_zero;
  is_zero-zero_value = refl;
}

module _ {W : Type 0} (outside : Outside W) (agent_old : ObservedAgent) where
  -- a condition on the generation of the agent
  abbrev condition_with : String → String → String → String → Condition
  condition_with condition_type status reason message = record {
    condition_type = condition_type;
    status = status;
    observed_generation = agent_old.generation;
    reason = reason;
    message = message;
  }

  unfoldable pub get_reconcile_succeeded_condition : Option Error → Condition
  get_reconcile_succeeded_condition none =
      condition_with condition_type_reconcile_succeeded "True" "ReconcileSucceeded"
        "most recent reconcile of agent CR completed without issue"
  get_reconcile_succeeded_condition (some e) =
      condition_with condition_type_reconcile_succeeded "False" "ReconcileFailed"
        (truncate_message (outside.message e))

  abbrev unavailable : String → String → String → ObjectKey → Option Error → Result Condition
  unavailable condition_type reason what key err =
      result_of
        (condition_with condition_type "Unknown" reason (
          truncate_message
            (what <> key.name <> " due to error: " <> get_reason outside.message err)))
        err

  abbrev agents_available : List DaemonSet → Condition
  agents_available daemonsets =
      if conditions_all daemonsets daemonset_is_available
      then condition_with condition_type_all_agents_available "True" "AllDesiredAgentsAvailable"
          "All desired Instana Agents are available and using up-to-date configuration"
      else condition_with condition_type_all_agents_available "False" "NotAllDesiredAgentsAvailable"
          "Not all desired Instana agents are available or some Agents are not using up-to-date configuration"

  -- the loop, over the DaemonSets retrieved so far
  unfoldable pub all_agents_available_from :
      List ObjectKey → List DaemonSet → W → Result Condition × W
  all_agents_available_from [] daemonsets w = (of_success (agents_available daemonsets), w)
  all_agents_available_from (key ∷ keys) daemonsets w =
      let (res, w') = outside.get_daemon_set key w in
      let rest = all_agents_available_from keys (daemonsets ++ res.res ∷ []) w' in
      if is_success res then rest else (
        unavailable condition_type_all_agents_available "AgentDaemonsetInfoUnavailable"
            "failed to retrieve status of Agent Daemonset: " key res.err,
        w',
      )

  unfoldable pub get_all_agents_available_condition : AgentStatusManager → W → Result Condition × W
  get_all_agents_available_condition a w = all_agents_available_from a.agent_daemonsets [] w

  unfoldable pub get_all_k8s_sensors_available_condition :
      AgentStatusManager → W → Result Condition × W
  get_all_k8s_sensors_available_condition a w =
      let key = a.k8s_sensor_deployment in
      let (res, w') = outside.get_deployment key w in
      if not (deref_or_default agent_old.k8s_sensor_enabled true)
      then (of_failure (some (text "k8sensor is disabled")), w)
      else if object_key_has_no_name key
      then (
        of_success (
            condition_with condition_type_all_k8s_sensors_available "Unknown"
              "K8sensorDeploymentNotConfigured"
              "k8sensor deployment has not been configured for this agent"),
        w,
      )
      else if is_failure res
      then (
        unavailable condition_type_all_k8s_sensors_available "K8sensorDeploymentInfoUnavailable"
            "failed to retrieve status of k8sensor deployment: " key res.err,
        w',
      )
      else if deployment_is_available_and_complete res.res
      then (
        of_success (
            condition_with condition_type_all_k8s_sensors_available "True"
              "AllDesiredK8sensorsAvailable"
              "All desired k8sensors are available and using up-to-date configuration"),
        w',
      )
      else (
        of_success (
            condition_with condition_type_all_k8s_sensors_available "False"
              "NotAllDesiredK8sensorsAvailable"
              "Not all desired k8sensors are available or some k8sensors are not using up-to-date configuration"),
        w',
      )

  -- `updateWasPerformed`
  unfoldable pub update_was_performed : Bool
  update_was_performed = elim agent_old.status.observed_generation [
    | none ↦ false
    | some generation ↦
        if not (generation == agent_old.generation)
        then true
        else elim agent_old.status.operator_version [
          | none ↦ false
          | some version ↦
              if is_failure outside.operator_version
              then true
              else not (outside.version_equal version outside.operator_version.res)
        ]
  ]
