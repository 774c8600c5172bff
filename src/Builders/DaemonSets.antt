-- ===== src/Builders/DaemonSets.antt =====
-- agent/daemonset/daemonset.go: the DaemonSet of the agent, one for each zone or one for all. `none`
-- for an environment or for ports says that the code follows a nil pointer.
pub mod Environment
pub mod Returns
pub mod Selects
use instana_agent_operator.Prelude.{
  String, Bool, true, false, not, ◌&&◌, ◌||◌, Option, none, some, List, [], ◌∷◌, ◌++◌,
  if◌then◌else◌,
}
use instana_agent_operator.Prelude.Dict.{Dict, insert}
use instana_agent_operator.Prelude.Text.{◌<>◌}
use instana_agent_operator.Optional.{
  string_zero, bool_zero, optional_of, get_or_default, deref_or_empty,
}
use instana_agent_operator.Kube.{ObjectKey, key_from_object}
use instana_agent_operator.Agent.{InstanaAgent, Zone, image_name}
use instana_agent_operator.Builders.{CoreEnvVar, CoreVolume, CoreVolumeMount}
use instana_agent_operator.Builders.Pods.{Affinity, Toleration, Probe, http_get}
use instana_agent_operator.Builders.Helpers.{is_set, service_account_name, image_pull_secrets}
use instana_agent_operator.Builders.Env.{build_env}
use instana_agent_operator.Builders.Env.Vars.{
  EnvVar, plain_env_var, agent_mode_env, zone_name_env, cluster_name_env, agent_endpoint_env,
  agent_endpoint_port_env, maven_repo_url_env, maven_repo_features_path, maven_repo_shared_path,
  mirror_release_repo_url_env, mirror_release_repo_username_env, mirror_release_repo_password_env,
  mirror_shared_repo_url_env, mirror_shared_repo_username_env, mirror_shared_repo_password_env,
  proxy_host_env, proxy_port_env, proxy_protocol_env, proxy_user_env, proxy_password_env,
  proxy_use_dns_env, listen_address_env, redact_k8s_secrets_env, config_path_env,
  entrypoint_skip_backend_template_generation, instana_agent_key_env, download_key_env,
  instana_agent_pod_name_env, pod_ip_env, node_name_env, k8s_service_domain_env,
  enable_agent_socket_env, namespaces_details_path_env,
}
use instana_agent_operator.Builders.Volumes.Single.{VolumeBuilder}
use instana_agent_operator.Builders.Volumes.{
  Volume, build_volumes, build_from_user_config, dev_volume, run_volume, var_run_volume,
  var_run_kubo_volume, var_run_containerd_volume, var_containerd_config_volume, sys_volume,
  var_log_volume, var_lib_instana_volume, var_data_volume, machine_id_volume, config_volume,
  tls_volume, repo_volume, namespaces_details_volume, secrets_volume,
}
use instana_agent_operator.Builders.Ports.{
  ContainerPort, get_container_ports, instana_agent_api_port_config,
}
use instana_agent_operator.Builders.Labels.{
  PodSelectorLabelGenerator, get_pod_selector_labels, labels_for_mode, zone_label,
}
use instana_agent_operator.Builders.Workloads.{
  DaemonSet, Container, PodTemplateSpec, daemon_set_object, requirements_or_default,
  sort_env_vars_by_name,
}

pub record DaemonSetBuilder : Type 0 where
  pub instana_agent : InstanaAgent
  pub should_set_persist_host_unique_id_env_var : Bool
  pub zone : Option Zone
  pub is_open_shift : Bool

abbrev pub base_env_vars : List EnvVar
base_env_vars =
    agent_mode_env ∷ zone_name_env ∷ cluster_name_env ∷ agent_endpoint_env ∷ agent_endpoint_port_env
    ∷ maven_repo_url_env ∷ maven_repo_features_path ∷ maven_repo_shared_path
    ∷ mirror_release_repo_url_env ∷ mirror_release_repo_username_env
    ∷ mirror_release_repo_password_env ∷ mirror_shared_repo_url_env
    ∷ mirror_shared_repo_username_env ∷ mirror_shared_repo_password_env ∷ proxy_host_env
    ∷ proxy_port_env ∷ proxy_protocol_env ∷ proxy_user_env ∷ proxy_password_env ∷ proxy_use_dns_env
    ∷ listen_address_env ∷ redact_k8s_secrets_env ∷ config_path_env
    ∷ entrypoint_skip_backend_template_generation ∷ instana_agent_key_env ∷ download_key_env
    ∷ instana_agent_pod_name_env ∷ pod_ip_env ∷ node_name_env ∷ k8s_service_domain_env
    ∷ enable_agent_socket_env ∷ namespaces_details_path_env ∷ []

-- envVarMap[envVar.Name] = envVar, for each of a list
unfoldable pub put_env_vars : List CoreEnvVar → Dict CoreEnvVar → Dict CoreEnvVar
put_env_vars [] vars = vars
put_env_vars (e ∷ es) vars = put_env_vars es (insert e.name e vars)

-- the values of a map, in the order of its iteration
unfoldable pub env_vars_of : Dict CoreEnvVar → List CoreEnvVar
env_vars_of [] = []
env_vars_of ((name, e) ∷ vars) = e ∷ env_vars_of vars

abbrev pub persist_name : String
persist_name = "INSTANA_PERSIST_HOST_UNIQUE_ID"

abbrev pub persist_env_vars : Bool → List CoreEnvVar
persist_env_vars true =
    plain_env_var persist_name "true"
    ∷ plain_env_var "INSTANA_AGENT_ID_FILE_PATH" "/var/lib/instana/instana-agent-id"
    ∷ []
persist_env_vars false = []

module _ (d : DaemonSetBuilder) where
  -- `envVarMap` once all variables are in it
  unfoldable pub env_var_map : List CoreEnvVar → Dict CoreEnvVar
  env_var_map base = put_env_vars d.instana_agent.spec.agent.pod.env (
      put_env_vars (persist_env_vars d.should_set_persist_host_unique_id_env_var)
        (put_env_vars base []))

  unfoldable pub agent_env_vars : Option (List CoreEnvVar)
  unfolding env_var_map env_vars_of
  agent_env_vars = elim (build_env d.instana_agent d.zone base_env_vars) [
    | none ↦ none
    | some base ↦ some (sort_env_vars_by_name (env_vars_of (env_var_map base)))
  ]

  abbrev pub agent_volume_builder : VolumeBuilder
  agent_volume_builder = record {
    instana_agent = d.instana_agent;
    is_open_shift = d.is_open_shift;
    backend_resource_suffix = "";
  }

  unfoldable pub agent_volumes_to_build : List Volume
  agent_volumes_to_build =
      dev_volume
      ∷ run_volume
      ∷ var_run_volume
      ∷ var_run_kubo_volume
      ∷ var_run_containerd_volume
      ∷ var_containerd_config_volume
      ∷ sys_volume
      ∷ var_log_volume
      ∷ var_lib_instana_volume
      ∷ var_data_volume
      ∷ machine_id_volume
      ∷ config_volume
      ∷ tls_volume
      ∷ repo_volume
      ∷ namespaces_details_volume
      ∷ (if deref_or_empty d.instana_agent.spec.use_secret_mounts then secrets_volume ∷ [] else [])

  unfoldable pub agent_volumes : List CoreVolume × List CoreVolumeMount
  unfolding agent_volumes_to_build
  agent_volumes = build_volumes agent_volume_builder agent_volumes_to_build

  -- `getName`
  abbrev pub daemon_set_name : String
  daemon_set_name = elim d.zone [
    | none ↦ d.instana_agent.name
    | some z ↦ d.instana_agent.name <> "-" <> z.name
  ]

  abbrev pub get_non_standard_labels : Option (Dict String)
  get_non_standard_labels = elim d.zone [ none ↦ none | some z ↦ some ((zone_label, z.name) ∷ []) ]

  abbrev pub get_affinity : Affinity
  get_affinity = elim d.zone [
    | none ↦ d.instana_agent.spec.agent.pod.affinity
    | some z ↦ z.affinity
  ]

  abbrev pub get_tolerations : List Toleration
  get_tolerations = elim d.zone [
    | none ↦ d.instana_agent.spec.agent.pod.tolerations
    | some z ↦ z.tolerations
  ]

  abbrev pub get_liveness_probe : Probe
  get_liveness_probe = elim d.instana_agent.spec.agent.pod.liveness_probe [
    | some probe ↦ probe
    | none ↦ record {
      handler = http_get "127.0.0.1" "/status" instana_agent_api_port_config.port;
      initial_delay_seconds = 600;
      timeout_seconds = 5;
      period_seconds = 10;
      failure_threshold = 6;
    }
  ]

  abbrev pub agent_labels_generator : PodSelectorLabelGenerator
  agent_labels_generator = record {
    instana_agent = d.instana_agent;
    zone = d.zone;
    component = "instana-agent";
  }

  -- `getPodTemplateLabels`, with the resource as the write to its map leaves it
  abbrev pub agent_pod_template_labels : Dict String × InstanaAgent
  agent_pod_template_labels =
      labels_for_mode agent_labels_generator
        (get_or_default (optional_of d.instana_agent.spec.agent.mode) "APM") d.instana_agent

  abbrev pub agent_container : List CoreEnvVar → List ContainerPort → Container
  agent_container envs ports =
      let a = d.instana_agent.spec.agent in
      record {
        name = "instana-agent";
        image = image_name a.image;
        image_pull_policy = a.image.pull_policy;
        command = [];
        args = [];
        env = envs;
        volume_mounts = agent_volumes.1 ++ (build_from_user_config agent_volume_builder).1;
        resources = requirements_or_default a.pod.resource_requirements;
        ports = ports;
        privileged = some true;
        liveness_probe = some get_liveness_probe;
      }

  abbrev pub agent_template : List CoreEnvVar → List ContainerPort → PodTemplateSpec
  agent_template envs ports =
      let pod = d.instana_agent.spec.agent.pod in
      record {
        labels = agent_pod_template_labels.0;
        annotations = pod.annotations;
        service_account_name = service_account_name d.instana_agent;
        node_selector = pod.node_selector;
        priority_class_name = pod.priority_class_name;
        image_pull_secrets = image_pull_secrets d.instana_agent;
        containers = agent_container envs ports ∷ [];
        host_network = true;
        host_pid = true;
        dns_policy = "ClusterFirstWithHostNet";
        fs_group = none;
        volumes = agent_volumes.0 ++ (build_from_user_config agent_volume_builder).0;
        tolerations = get_tolerations;
        affinity = get_affinity;
      }

  -- `build`, for the environment and the ports of its container
  unfoldable pub daemon_set_with : List CoreEnvVar → List ContainerPort → DaemonSet
  daemon_set_with envs ports = record {
    name = daemon_set_name;
    namespace = d.instana_agent.namespace;
    labels = get_non_standard_labels;
    min_ready_seconds = d.instana_agent.spec.agent.min_ready_seconds;
    selector = get_pod_selector_labels agent_labels_generator;
    template = agent_template envs ports;
    update_strategy = d.instana_agent.spec.agent.update_strategy;
  }

  -- the cases in which `Build` gives nothing
  abbrev pub gives_no_daemon_set : Bool
  gives_no_daemon_set =
      let s = d.instana_agent.spec in
      (not (is_set s.agent.credentials.key) && not (is_set s.agent.keys_secret)) || (elim d.zone [
        | none ↦ not (is_set s.zone_name) && not (is_set s.cluster_name)
        | some z ↦ not (is_set s.cluster_name)
      ])

  -- `Build`: the outer option says whether it returns, the inner one whether it gives a DaemonSet;
  -- then the resource that is left behind, and the key that the status manager is told.
  unfoldable pub build_daemon_set : Option (Option DaemonSet) × InstanaAgent × Option ObjectKey
  build_daemon_set =
      if gives_no_daemon_set then (some none, d.instana_agent, none) else elim agent_env_vars [
        | none ↦ (none, d.instana_agent, none)
        | some envs ↦ elim (get_container_ports d.instana_agent.spec.open_telemetry) [
          | none ↦ (none, d.instana_agent, none)
          | some ports ↦
              let built = daemon_set_with envs ports in
              (
                some (some built),
                agent_pod_template_labels.1,
                some (key_from_object (daemon_set_object built)),
              )
        ]
      ]
