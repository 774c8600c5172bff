-- ===== src/Status.antt =====
-- pkg/k8s/operator/status/agent_status_manager.go: `UpdateAgentStatus`. The log call for a version
-- that is not a semantic version is left out.
pub mod Workloads
pub mod Availability
pub mod Conditions
pub mod Outcome
pub mod Agents
pub mod Reported
use instana_agent_operator.Prelude.{
  ℕ, String, Bool, true, false, not, Option, none, some, List, [], ◌∷◌, ◌++◌, ◌==◌,
  string_comparable, refl, if◌then◌else◌,
}
use instana_agent_operator.Optional.{HasZero}
use instana_agent_operator.Errors.{Error, MultiErrorBuilder, add_single, build}
use instana_agent_operator.Results.{
  Result, result_of, of_success, is_success, on_success, on_failure, result_map,
}
use instana_agent_operator.Kube.{ObjectKey}
use instana_agent_operator.Kube.Api.{nil_or}
use instana_agent_operator.Status.Workloads.{DaemonSet, get_agent_phase, get_reason}
use instana_agent_operator.Status.Conditions.{
  Condition, ResourceInfo, InstanaAgentStatus, ObservedAgent, Outside, AgentStatusManager,
  object_key_has_no_name, get_reconcile_succeeded_condition, get_all_agents_available_condition,
  get_all_k8s_sensors_available_condition, update_was_performed,
}

-- what the event recorder is given: the type, the reason and the message
pub record Event : Type 0 where
  pub event_type : String
  pub reason : String
  pub message : String

abbrev pub event_type_from_condition : Condition → String
event_type_from_condition c = if c.status == "True" then "Normal" else "Warning"

abbrev no_resource : ResourceInfo
no_resource = record { name = ""; uid = "" }

abbrev resource_info_is_zero : ResourceInfo → Bool
resource_info_is_zero r = if r.name == "" then r.uid == "" else false

instance abbrev resource_info_zero : HasZero ResourceInfo
resource_info_zero = record {
  zero_value = no_resource;
  is_zero = resource_info_is_zero;
  is_zero-zero_value = refl;
}

-- `toResourceInfo`
abbrev daemon_set_info : DaemonSet → Result ResourceInfo
daemon_set_info ds = of_success (record { name = ds.name; uid = ds.uid })

abbrev the_resource_info : ResourceInfo → Result ResourceInfo
the_resource_info info = of_success info

-- the agent with its new status, and the events fired
abbrev pub Progress : Type 0
Progress = InstanaAgentStatus × List Event

module _ {W : Type 0} (outside : Outside W) where
  unfoldable pub get_daemon_set : AgentStatusManager → W → Result ResourceInfo × W
  get_daemon_set a w = elim a.agent_daemonsets [
    | [] ↦ (of_success no_resource, w)
    | key ∷ [] ↦ let (ds, w') = outside.get_daemon_set key w in (result_map ds daemon_set_info, w')
    | key ∷ _ ∷ _ ↦ (of_success no_resource, w)
  ]

  unfoldable pub get_config_secret : AgentStatusManager → W → Result ResourceInfo × W
  get_config_secret a w =
      let (secret, w') = outside.get_secret a.agent_secret_config w in
      if object_key_has_no_name a.agent_secret_config
      then (of_success no_resource, w)
      else (result_map secret the_resource_info, w')

  unfoldable pub get_namespaces_config_map : AgentStatusManager → W → Result ResourceInfo × W
  get_namespaces_config_map a w =
      let (cm, w') = outside.get_config_map a.agent_namespaces_configmap w in
      if object_key_has_no_name a.agent_namespaces_configmap
      then (of_success no_resource, w)
      else (result_map cm the_resource_info, w')

  unfoldable pub set_condition_and_fire_event : Condition → Progress → Progress
  set_condition_and_fire_event condition (status, events) = (
    record status { conditions = outside.set_status_condition status.conditions condition },
    events
        ++ record {
          event_type = event_type_from_condition condition;
          reason = condition.reason;
          message = condition.message;
        }
          ∷ [],
  )

  -- the deprecated fields
  unfoldable pub deprecated_fields :
      AgentStatusManager
      → ObservedAgent
      → Option Error
      → W
      → InstanaAgentStatus × MultiErrorBuilder × W
  unfolding get_daemon_set get_config_secret get_namespaces_config_map
  deprecated_fields a agent_old reconcile_err w =
      let s0 = record agent_old.status {
        status = get_agent_phase reconcile_err;
        reason = get_reason outside.message reconcile_err;
        last_update = outside.now w;
      } in
      let (ds, w1) = get_daemon_set a w in
      let s1 = on_success ds (λ info s. record s { daemon_set = info }) s0 in
      let errs1 = on_failure ds add_single [] in
      let (secret, w2) = get_config_secret a w1 in
      let s2 = on_success secret (λ info s. record s { config_secret = info }) s1 in
      let errs2 = on_failure secret add_single errs1 in
      let (cm, w3) = get_namespaces_config_map a w2 in
      let s3 = on_success cm (λ info s. record s { namespaces_config_map = info }) s2 in
      let errs3 = on_failure cm add_single errs2 in
      let s4 =
        if update_was_performed outside agent_old
        then record s3 { old_versions_updated = true }
        else s3 in
      (s4, errs3, w3)

  -- the observed generation and the operator's version
  unfoldable pub new_fields : ObservedAgent → InstanaAgentStatus → InstanaAgentStatus
  new_fields agent_old s =
      on_success outside.operator_version (λ v s'. record s' { operator_version = some v })
        (record s { observed_generation = some agent_old.generation })

  -- the third condition is set only on success, but its failure is added before that
  unfoldable pub set_k8s_sensors_condition :
      Result Condition → Progress × MultiErrorBuilder → Progress × MultiErrorBuilder
  set_k8s_sensors_condition res (progress, errs) =
      let errs' = on_failure res add_single errs in
      if is_success res
      then (set_condition_and_fire_event res.res progress, errs')
      else (progress, errs')

  -- the three conditions
  unfoldable pub set_conditions :
      AgentStatusManager
      → ObservedAgent
      → Option Error
      → InstanaAgentStatus
      → MultiErrorBuilder
      → W
      → (Progress × MultiErrorBuilder) × W
  set_conditions a agent_old reconcile_err s errs w =
      let reconcile_succeeded = get_reconcile_succeeded_condition outside agent_old reconcile_err in
      let p1 = set_condition_and_fire_event reconcile_succeeded (s, []) in
      let (agents, w1) = get_all_agents_available_condition outside agent_old a w in
      let errs1 = on_failure agents add_single errs in
      let p2 = set_condition_and_fire_event agents.res p1 in
      let (sensors, w2) = get_all_k8s_sensors_available_condition outside agent_old a w1 in
      (set_k8s_sensors_condition sensors (p2, errs1), w2)

  unfoldable pub agent_with_updated_status :
      AgentStatusManager → ObservedAgent → Option Error → W → Result ObservedAgent × List Event × W
  agent_with_updated_status a agent_old reconcile_err w =
      let (s1, errs1, w1) = deprecated_fields a agent_old reconcile_err w in
      let (((s2, events), errs2), w2) =
        set_conditions a agent_old reconcile_err (new_fields agent_old s1) errs1 w1 in
      (result_of (record agent_old { status = s2 }) (build errs2), events, w2)

  -- k8serrors.IsNotFound is no failure
  abbrev pub patch_errors : Option Error → MultiErrorBuilder → MultiErrorBuilder
  patch_errors none errs = errs
  patch_errors (some e) errs = if outside.is_not_found e then errs else add_single (some e) errs

  -- `UpdateAgentStatus`, whose calls do not panic
  unfoldable pub update_agent_status :
      AgentStatusManager → Option Error → W → Option Error × List Event × W
  update_agent_status a reconcile_err w = elim a.agent_old [
    | none ↦ (none, [], w)
    | some agent_old ↦
        let (res, events, w1) = agent_with_updated_status a agent_old reconcile_err w in
        let errs = on_failure res add_single [] in
        let (err, w2) = outside.patch_status res.res w1 in
        (build (patch_errors err errs), events, w2)
  ]
