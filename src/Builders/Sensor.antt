-- ===== src/Builders/Sensor.antt =====
-- k8s-sensor/deployment/deployment.go: the Deployment of the k8s sensor. `none` for an environment
-- says that the code follows a nil pointer. The matching of a text with `PollRateRegex` and the
-- hexadecimal SHA-256 of a text are parameters.
pub mod Env
pub mod Volumes
pub mod Selector
pub mod Targets
pub mod CaFile
use instana_agent_operator.Prelude.{
  String, Bool, true, false, not, ◌&&◌, ◌||◌, Option, none, some, List, [], ◌∷◌, ◌++◌, ◌==◌,
  string_comparable, if◌then◌else◌,
}
use instana_agent_operator.Prelude.Dict.{Dict, insert}
use instana_agent_operator.Prelude.Text.{◌<>◌, join}
use instana_agent_operator.Collections.Maps.{map_or_make, copy_map, value_at, set_if_empty}
use instana_agent_operator.Optional.{string_zero, optional_of, get_or_default, deref_or_default}
use instana_agent_operator.Kube.{Object, ObjectKey, key_from_object}
use instana_agent_operator.Agent.{InstanaAgent, image_name}
use instana_agent_operator.Builders.{
  CoreEnvVar, CoreVolume, CoreVolumeMount, config_map_key_ref, secret_key_ref, secret_source_plain,
  agent_key, backend_key, instana_secrets_directory, secret_file_agent_key, secret_file_https_proxy,
}
use instana_agent_operator.Builders.EtcdNames.{
  env_etcd_targets, env_etcd_ca_file, env_etcd_cert_file, env_etcd_key_file, env_etcd_metrics_url,
  env_etcd_request_timeout, etcd_ca_mount_path, etcd_metrics_ca_mount_path,
  etcd_client_cert_mount_path, etcd_ca_bundle_file_name, etcd_client_cert_file_name,
  etcd_client_key_file_name, get_etcd_ocp_metrics_url,
}
use instana_agent_operator.Builders.Pods.{
  Affinity, WeightedPodAffinityTerm, preferred_pod_anti_affinity, affinity_zero,
}
use instana_agent_operator.Builders.Helpers.{is_set, k8s_sensor_resources_name, image_pull_secrets}
use instana_agent_operator.Builders.Env.{build_env, use_secret_mounts}
use instana_agent_operator.Builders.Env.Vars.{
  EnvVar, plain_env_var, keys_secret_name, backend_url_env, agent_zone_env, pod_uid_env,
  pod_namespace_env, pod_name_env, pod_ip_env, no_proxy_env, redact_k8s_secrets_env,
  config_path_env, etcd_insecure_env, etcd_targets_env, control_plane_ca_file_env,
  rest_client_host_allowlist_env, crd_monitoring, etcd_ca_file_env, https_proxy_env,
}
use instana_agent_operator.Builders.Volumes.Single.{VolumeBuilder}
use instana_agent_operator.Builders.Volumes.{
  Volume, build_volumes, config_volume, control_plane_ca_volume, etcd_ca_volume,
  etcd_client_cert_volume, k8_sensor_secrets_volume,
}
use instana_agent_operator.Builders.Ports.{as_container_port, instana_agent_api_port_config}
use instana_agent_operator.Builders.Secrets.{K8SensorBackend}
use instana_agent_operator.Builders.Labels.{
  PodSelectorLabelGenerator, get_pod_selector_labels, labels_for_mode, label_agent_mode,
}
use instana_agent_operator.Builders.Workloads.{
  Deployment, Container, PodTemplateSpec, deployment_object, requirements_or_default,
  sort_env_vars_by_name, path_join,
}

pub record DeploymentContext : Type 0 where
  pub discovered_etcd_targets : List String
  pub etcd_ca_secret_name : String
  pub open_shift_etcd_resources_exist : Bool

-- `deploymentBuilder`, with the Secret of the keys and the context as pointers
pub record DeploymentBuilder : Type 0 where
  pub instana_agent : InstanaAgent
  pub backend : K8SensorBackend
  pub keys_secret : Option Object
  pub deployment_context : Option DeploymentContext
  pub is_open_shift : Bool

abbrev pub common_env_vars : List EnvVar
common_env_vars =
    backend_url_env ∷ agent_zone_env ∷ pod_uid_env ∷ pod_namespace_env ∷ pod_name_env ∷ pod_ip_env
    ∷ no_proxy_env ∷ redact_k8s_secrets_env ∷ config_path_env ∷ etcd_insecure_env ∷ etcd_targets_env
    ∷ control_plane_ca_file_env ∷ rest_client_host_allowlist_env ∷ crd_monitoring ∷ []

-- the context is there and says that the resources exist
abbrev pub resources_exist : Option DeploymentContext → Bool
resources_exist none = false
resources_exist (some c) = c.open_shift_etcd_resources_exist

-- the variables for the targets that were discovered
unfoldable pub discovered_env_vars : List String → Option DeploymentContext → List CoreEnvVar
discovered_env_vars own none = []
discovered_env_vars own (some c) = elim c.discovered_etcd_targets [
  | [] ↦ []
  | t ∷ ts ↦ elim own [
    | [] ↦
        plain_env_var env_etcd_targets (join (t ∷ ts) ",")
        ∷ (if is_set c.etcd_ca_secret_name
            then plain_env_var env_etcd_ca_file (etcd_ca_mount_path <> "/ca.crt") ∷ []
            else [])
    | _ ∷ _ ↦ []
  ]
]

-- the variables for the copied resources of OpenShift
abbrev open_shift_env_vars : List CoreEnvVar
open_shift_env_vars =
    plain_env_var env_etcd_metrics_url get_etcd_ocp_metrics_url
    ∷ plain_env_var env_etcd_request_timeout "15s"
    ∷ plain_env_var env_etcd_ca_file (path_join etcd_metrics_ca_mount_path etcd_ca_bundle_file_name)
    ∷ plain_env_var env_etcd_cert_file
        (path_join etcd_client_cert_mount_path etcd_client_cert_file_name)
    ∷ plain_env_var env_etcd_key_file
        (path_join etcd_client_cert_mount_path etcd_client_key_file_name)
    ∷ []

-- K8Sensor relies on this label
unfoldable pub add_app_label : Option (Dict String) → Dict String
unfolding set_if_empty
add_app_label labels = set_if_empty "app" "k8sensor" (map_or_make labels)

module _ (d : DeploymentBuilder) where
  abbrev pub include_etcd_ca_file_env : Bool
  include_etcd_ca_file_env = not d.is_open_shift || not (resources_exist d.deployment_context)

  abbrev pub env_vars_to_include : List EnvVar
  env_vars_to_include =
      if include_etcd_ca_file_env then common_env_vars ++ etcd_ca_file_env ∷ [] else common_env_vars

  unfoldable pub etcd_env_vars : List CoreEnvVar
  unfolding discovered_env_vars
  etcd_env_vars =
      if d.is_open_shift
      then (if resources_exist d.deployment_context then open_shift_env_vars else [])
      else discovered_env_vars d.instana_agent.spec.k8s_sensor.etcd.targets d.deployment_context

  abbrev pub get_agent_key_env_var : CoreEnvVar
  get_agent_key_env_var = record {
    name = "AGENT_KEY";
    value = "";
    value_from = some (
        secret_key_ref (keys_secret_name d.instana_agent) (agent_key <> d.backend.resource_suffix)
          none);
  }

  abbrev pub backend_env_var : CoreEnvVar
  backend_env_var = record {
    name = "BACKEND";
    value = "";
    value_from = some (
        config_map_key_ref (k8s_sensor_resources_name d.instana_agent)
          (backend_key <> d.backend.resource_suffix));
  }

  -- the variables with the address of the backend, and those for which a file would be mounted
  unfoldable pub backend_env_vars : Option (List CoreEnvVar)
  backend_env_vars =
      if use_secret_mounts d.instana_agent
      then some (backend_env_var ∷ [])
      else elim (build_env d.instana_agent none (https_proxy_env ∷ [])) [
        | none ↦ none
        | some proxy ↦ some (backend_env_var ∷ get_agent_key_env_var ∷ proxy)
      ]

  unfoldable pub get_env_vars : Option (List CoreEnvVar)
  get_env_vars = elim (build_env d.instana_agent none env_vars_to_include) [
    | none ↦ none
    | some common ↦ elim backend_env_vars [
      | none ↦ none
      | some backend ↦ some (sort_env_vars_by_name (backend ++ common ++ etcd_env_vars))
    ]
  ]

  abbrev pub volume_builder : VolumeBuilder
  volume_builder = record {
    instana_agent = d.instana_agent;
    is_open_shift = d.is_open_shift;
    backend_resource_suffix = d.backend.resource_suffix;
  }

  abbrev pub copied_resources_exist : Bool
  copied_resources_exist = d.is_open_shift && resources_exist d.deployment_context

  unfoldable pub volumes_to_build : List Volume
  volumes_to_build =
      config_volume
        ∷ control_plane_ca_volume
        ∷ (if copied_resources_exist || is_set d.instana_agent.spec.k8s_sensor.etcd.ca.secret_name
            then etcd_ca_volume ∷ []
            else [])
      ++ (if copied_resources_exist then etcd_client_cert_volume ∷ [] else [])
      ++ (if use_secret_mounts d.instana_agent then k8_sensor_secrets_volume ∷ [] else [])

  -- the context has the name of a CA secret, and the resource has no targets
  abbrev pub mounts_discovered_ca : Bool
  mounts_discovered_ca = elim d.deployment_context [
    | none ↦ false
    | some c ↦ elim d.instana_agent.spec.k8s_sensor.etcd.targets [
      | [] ↦ is_set c.etcd_ca_secret_name
      | _ ∷ _ ↦ false
    ]
  ]

  abbrev pub discovered_ca_name : String
  discovered_ca_name = elim d.deployment_context [ none ↦ "" | some c ↦ c.etcd_ca_secret_name ]

  unfoldable pub get_volumes : List CoreVolume × List CoreVolumeMount
  get_volumes =
      let (volumes, mounts) = build_volumes volume_builder volumes_to_build in
      if mounts_discovered_ca
      then (
        volumes
            ++ record {
              name = "etcd-ca";
              source =
                  secret_source_plain discovered_ca_name
                    (record { key = "ca.crt"; path = "ca.crt" } ∷ []);
            }
              ∷ [],
        mounts
            ++ record {
              name = "etcd-ca";
              mount_path = "/var/run/secrets/etcd";
              mount_propagation = none;
              read_only = true;
            }
              ∷ [],
      )
      else (volumes, mounts)

  abbrev pub labels_generator : PodSelectorLabelGenerator
  labels_generator = record { instana_agent = d.instana_agent; zone = none; component = "k8sensor" }

  -- the labels and the resource as the write to its map leaves it
  abbrev pub get_pod_template_labels : Dict String × InstanaAgent
  get_pod_template_labels = labels_for_mode labels_generator "KUBERNETES" d.instana_agent

  -- what is hashed
  unfoldable pub backend_text : String
  backend_text =
      let address = d.backend.endpoint_host <> d.backend.endpoint_port in
      if is_set d.instana_agent.spec.agent.keys_secret
      then address <> (elim d.keys_secret [
        | none ↦ ""
        | some secret ↦ value_at ("key" <> d.backend.resource_suffix) (map_or_make secret.payload)
      ])
      else address <> d.backend.endpoint_key

  module _ (sha256_hex : String → String) (matches_poll_rate : String → Bool) where
    unfoldable pub get_pod_annotations_with_backend_checksum : Dict String
    unfolding backend_text
    get_pod_annotations_with_backend_checksum =
        insert "checksum/backend" (sha256_hex backend_text)
          (copy_map d.instana_agent.spec.agent.pod.annotations)

    unfoldable pub poll_rate : String
    poll_rate =
        let wanted = d.instana_agent.spec.k8s_sensor.poll_rate in
        if is_set wanted then (if matches_poll_rate wanted then wanted else "10s") else "10s"

    unfoldable pub get_k8_sensor_args : List String
    get_k8_sensor_args =
        "-pollrate"
        ∷ poll_rate
        ∷ (if use_secret_mounts d.instana_agent
            then "-agent-key-file"
              ∷ (instana_secrets_directory <> "/" <> secret_file_agent_key
                  <> d.backend.resource_suffix)
              ∷ (if is_set d.instana_agent.spec.agent.proxy_host
                  then "-https-proxy-file"
                    ∷ (instana_secrets_directory <> "/" <> secret_file_https_proxy)
                    ∷ []
                  else [])
            else [])

    abbrev default_affinity_term : WeightedPodAffinityTerm
    default_affinity_term = record {
      weight = 100;
      key = label_agent_mode;
      operator = "In";
      values = "KUBERNETES" ∷ [];
      topology_key = "kubernetes.io/hostname";
    }

    abbrev pub container_with : List CoreEnvVar → Container
    container_with envs =
        let k = d.instana_agent.spec.k8s_sensor in
        record {
          name = "instana-agent";
          image = image_name k.image;
          image_pull_policy = k.image.pull_policy;
          command = "/ko-app/k8sensor" ∷ [];
          args = get_k8_sensor_args;
          env = envs;
          volume_mounts = get_volumes.1;
          resources = requirements_or_default k.pod.resource_requirements;
          ports = as_container_port instana_agent_api_port_config ∷ [];
          privileged = none;
          liveness_probe = none;
        }

    abbrev pub template_with : List CoreEnvVar → PodTemplateSpec
    template_with envs =
        let pod = d.instana_agent.spec.k8s_sensor.pod in
        record {
          labels = add_app_label (some get_pod_template_labels.0);
          annotations = some get_pod_annotations_with_backend_checksum;
          service_account_name = k8s_sensor_resources_name d.instana_agent;
          node_selector = pod.node_selector;
          priority_class_name = pod.priority_class_name;
          image_pull_secrets = image_pull_secrets d.instana_agent;
          containers = container_with envs ∷ [];
          host_network = false;
          host_pid = false;
          dns_policy = "";
          fs_group = some 1000;
          volumes = get_volumes.0;
          tolerations = pod.tolerations;
          affinity =
              get_or_default (optional_of pod.affinity)
                (preferred_pod_anti_affinity default_affinity_term);
        }

    -- `build`, for the environment of its container
    unfoldable pub deployment_with : List CoreEnvVar → Deployment
    deployment_with envs = record {
      name = k8s_sensor_resources_name d.instana_agent <> d.backend.resource_suffix;
      namespace = d.instana_agent.namespace;
      labels = add_app_label none;
      replicas = d.instana_agent.spec.k8s_sensor.replicas;
      min_ready_seconds = d.instana_agent.spec.k8s_sensor.min_ready_seconds;
      selector = add_app_label (some (get_pod_selector_labels labels_generator));
      template = template_with envs;
    }

    -- the condition under which `Build` gives nothing
    abbrev pub gives_nothing : Bool
    gives_nothing =
        let s = d.instana_agent.spec in
        (not (is_set s.agent.credentials.key) && not (is_set s.agent.keys_secret))
        || (not (is_set s.zone_name) && not (is_set s.cluster_name))
        || not (deref_or_default s.k8s_sensor.enabled true)

    -- `Build`: the outer option says whether it returns, the inner one whether it gives a Deployment;
    -- then the resource that is left behind, and the key that the status manager is told.
    unfoldable pub build_deployment : Option (Option Deployment) × InstanaAgent × Option ObjectKey
    build_deployment =
        if gives_nothing then (some none, d.instana_agent, none) else elim get_env_vars [
          | none ↦ (none, d.instana_agent, none)
          | some envs ↦
              let built = deployment_with envs in
              (
                some (some built),
                get_pod_template_labels.1,
                some (key_from_object (deployment_object built)),
              )
        ]
