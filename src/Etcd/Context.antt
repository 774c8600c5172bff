-- ===== src/Etcd/Context.antt =====
-- controllers/apply.go: `CreateDeploymentContext` and the comparison of the targets that were
-- discovered with those of the Deployment that is there.
use instana_agent_operator.Prelude.{
  String, Bool, false, not, Option, none, some, List, [], ◌∷◌, ◌==◌, string_comparable,
  if◌then◌else◌,
}
use instana_agent_operator.Prelude.Text.{join}
use instana_agent_operator.Prelude.Split.{split, comma}
use instana_agent_operator.Kube.Api.{Cluster}
use instana_agent_operator.Kube.{GroupVersionKind}
use instana_agent_operator.Lifecycle.{DependentLifecycleManager}
use instana_agent_operator.Agent.{InstanaAgent}
use instana_agent_operator.Builders.{CoreEnvVar}
use instana_agent_operator.Builders.EtcdNames.{
  etcd_ca_secret_name, env_etcd_targets, container_k8_sensor,
}
use instana_agent_operator.Builders.Helpers.{is_set, k8s_sensor_resources_name}
use instana_agent_operator.Builders.Sensor.{DeploymentContext}
use instana_agent_operator.Builders.Workloads.{Container}
use instana_agent_operator.Etcd.Discovery.{
  TypedReads, DiscoveredEtcdTargets, Discovered, sort_strings,
}
use instana_agent_operator.Etcd.Copies.{setup_open_shift_etcd_monitoring}

-- the value of the first variable with the name of the targets, or ""
unfoldable pub targets_in : List CoreEnvVar → String
targets_in [] = ""
targets_in (e ∷ es) =
    let rest = targets_in es in if e.name == env_etcd_targets then e.value else rest

-- of the first container with the sensor's name
unfoldable pub current_targets : List Container → String
current_targets [] = ""
current_targets (container ∷ containers) =
    let rest = current_targets containers in
    if container.name == container_k8_sensor then targets_in container.env else rest

-- `getSortedTargets`
abbrev pub get_sorted_targets : List String → List String
get_sorted_targets targets = sort_strings targets

-- sorts the pieces of a text that commas separate, unless it is empty
unfoldable pub with_sorted_pieces : String → String
with_sorted_pieces s = if is_set s then join (sort_strings (split s comma)) "," else s

unfoldable pub compare_and_update_etcd_targets : List Container → List String → Bool
unfolding with_sorted_pieces current_targets
compare_and_update_etcd_targets existing discovered =
    not (with_sorted_pieces (current_targets existing) == join (get_sorted_targets discovered) ",")

abbrev pub deployment_gvk : GroupVersionKind
deployment_gvk = record { group = "apps"; version = "v1"; kind = "Deployment" }

abbrev pub vanilla_context : DiscoveredEtcdTargets → DeploymentContext
vanilla_context t = record {
  discovered_etcd_targets = get_sorted_targets t.targets;
  etcd_ca_secret_name = if t.ca_found then etcd_ca_secret_name else "";
  open_shift_etcd_resources_exist = false;
}

module _ {W : Type 0} (d : DependentLifecycleManager W) (reads : TypedReads W) where
  -- the Deployment is read, and its targets are compared with those discovered
  unfoldable pub context_for_targets :
      InstanaAgent → DiscoveredEtcdTargets → Cluster W → Option DeploymentContext × Cluster W
  unfolding compare_and_update_etcd_targets
  context_for_targets agent t c =
      let (err, existing, c') =
        d.client.get deployment_gvk
          (record { namespace = agent.namespace; name = k8s_sensor_resources_name agent }) c in
      elim err [
        | some e ↦ (some (vanilla_context t), c')
        | none ↦
            if compare_and_update_etcd_targets (reads.containers_of existing) t.targets
            then (some (vanilla_context t), c')
            else (none, c')
      ]

  -- an error of the discovery is only logged
  unfoldable pub context_of_discovered :
      InstanaAgent → Discovered d reads → Option DeploymentContext × Cluster W
  unfolding context_for_targets
  context_of_discovered agent (some e, found, c) = (none, c)
  context_of_discovered agent (none, none, c) = (none, c)
  context_of_discovered agent (none, some t, c) = elim t.targets [
    | [] ↦ (none, c)
    | _ ∷ _ ↦ context_for_targets agent t c
  ]

  -- The error that is returned beside the context is always nil.
  unfoldable pub create_deployment_context :
      InstanaAgent
      → Bool
      → (Cluster W → Discovered d reads)
      → Cluster W
      → Option DeploymentContext × Cluster W
  unfolding context_of_discovered
  create_deployment_context agent is_open_shift discover c =
      let (context, c') = setup_open_shift_etcd_monitoring d c in
      if is_open_shift then (some context, c') else context_of_discovered agent (discover c)
