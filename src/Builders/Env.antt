-- ===== src/Builders/Env.antt =====
-- common/env/env_builder.go: the environment of the agent's containers. The log call for the
-- deprecated CrdMonitoring field is left out.
pub mod Vars
pub mod Secrecy
pub mod Names
pub mod Total
pub mod Lacks
use instana_agent_operator.Prelude.{
  ℕ, String, Bool, true, false, not, ◌&&◌, ◌||◌, Option, none, some, List, [], ◌∷◌, ◌++◌,
  if◌then◌else◌,
}
use instana_agent_operator.Prelude.Dict.{Dict}
use instana_agent_operator.Prelude.Text.{◌<>◌, itoa, format_bool, join}
use instana_agent_operator.Optional.{optional_of, get_or_default, string_zero, deref_or_default}
use instana_agent_operator.Agent.{InstanaAgent, Zone, CaSpec}
use instana_agent_operator.Builders.{
  CoreEnvVar, config_map_key_ref, secret_key_ref, field_ref, agent_key, download_key_name,
  backend_key, instana_config_directory, instana_namespaces_details_directory,
  instana_namespaces_details_file_name,
}
use instana_agent_operator.Builders.Helpers.{
  is_set, headless_service_name, k8s_sensor_resources_name,
}
use instana_agent_operator.Builders.Env.Vars.{
  EnvVar, Built, skipped, built, nil_dereference, plain_env_var, string_to_env_var, bool_to_env_var,
  int_to_env_var, dereferenced, ca_file_env_var, etcd_insecure_env_var, list_env_var,
  env_with_object_field_selector, backend_env_var, keys_secret_name, agent_key_helper,
  download_key_env_var, proxy_address, https_proxy_env_var, agent_mode_env_var, zone_name_env_var,
  agent_mode_env, zone_name_env, cluster_name_env, agent_endpoint_env, agent_endpoint_port_env,
  maven_repo_url_env, maven_repo_features_path, maven_repo_shared_path, mirror_release_repo_url_env,
  mirror_release_repo_username_env, mirror_release_repo_password_env, mirror_shared_repo_url_env,
  mirror_shared_repo_username_env, mirror_shared_repo_password_env, proxy_host_env, proxy_port_env,
  proxy_protocol_env, proxy_user_env, proxy_password_env, proxy_use_dns_env, listen_address_env,
  redact_k8s_secrets_env, agent_zone_env, https_proxy_env, backend_url_env, no_proxy_env,
  config_path_env, entrypoint_skip_backend_template_generation, backend_env, instana_agent_key_env,
  agent_key_env, download_key_env, instana_agent_pod_name_env, pod_name_env, pod_ip_env,
  pod_uid_env, pod_namespace_env, k8s_service_domain_env, enable_agent_socket_env,
  namespaces_details_path_env, node_name_env, instana_open_telemetry_grpc_enabled,
  instana_open_telemetry_grpc_port, instana_open_telemetry_http_enabled,
  instana_open_telemetry_http_port, etcd_ca_file_env, etcd_insecure_env, etcd_targets_env,
  control_plane_ca_file_env, rest_client_host_allowlist_env, crd_monitoring,
}

-- `isSecret`
abbrev pub is_secret : EnvVar → Bool
is_secret instana_agent_key_env = true
is_secret agent_key_env = true
is_secret download_key_env = true
is_secret proxy_user_env = true
is_secret proxy_password_env = true
is_secret https_proxy_env = true
is_secret mirror_release_repo_username_env = true
is_secret mirror_release_repo_password_env = true
is_secret mirror_shared_repo_username_env = true
is_secret mirror_shared_repo_password_env = true
is_secret _ = false

-- a nil pointer stands for true
abbrev pub use_secret_mounts : InstanaAgent → Bool
use_secret_mounts a = deref_or_default a.spec.use_secret_mounts true

-- the second `switch` of `build`
module _ (a : InstanaAgent) (agent_zone : Option Zone) where
  unfoldable pub value_of : EnvVar → Built
  value_of agent_mode_env = agent_mode_env_var a agent_zone
  value_of zone_name_env = zone_name_env_var a agent_zone
  value_of cluster_name_env =
      string_to_env_var "INSTANA_KUBERNETES_CLUSTER_NAME" a.spec.cluster_name
  value_of agent_endpoint_env =
      string_to_env_var "INSTANA_AGENT_ENDPOINT" a.spec.agent.endpoint_host
  value_of agent_endpoint_port_env =
      string_to_env_var "INSTANA_AGENT_ENDPOINT_PORT" a.spec.agent.endpoint_port
  value_of maven_repo_url_env =
      string_to_env_var "INSTANA_MVN_REPOSITORY_URL" a.spec.agent.mvn_repo_url
  value_of maven_repo_features_path =
      string_to_env_var "INSTANA_MVN_REPOSITORY_FEATURES_PATH" a.spec.agent.mvn_repo_features_path
  value_of maven_repo_shared_path =
      string_to_env_var "INSTANA_MVN_REPOSITORY_SHARED_PATH" a.spec.agent.mvn_repo_shared_path
  value_of mirror_release_repo_url_env =
      string_to_env_var "AGENT_RELEASE_REPOSITORY_MIRROR_URL" a.spec.agent.mirror_release_repo_url
  value_of mirror_release_repo_username_env =
      string_to_env_var "AGENT_RELEASE_REPOSITORY_MIRROR_USERNAME"
        a.spec.agent.credentials.mirror_release_repo_username
  value_of mirror_release_repo_password_env =
      string_to_env_var "AGENT_RELEASE_REPOSITORY_MIRROR_PASSWORD"
        a.spec.agent.credentials.mirror_release_repo_password
  value_of mirror_shared_repo_url_env =
      string_to_env_var "INSTANA_SHARED_REPOSITORY_MIRROR_URL" a.spec.agent.mirror_shared_repo_url
  value_of mirror_shared_repo_username_env =
      string_to_env_var "INSTANA_SHARED_REPOSITORY_MIRROR_USERNAME"
        a.spec.agent.credentials.mirror_shared_repo_username
  value_of mirror_shared_repo_password_env =
      string_to_env_var "INSTANA_SHARED_REPOSITORY_MIRROR_PASSWORD"
        a.spec.agent.credentials.mirror_shared_repo_password
  value_of proxy_host_env = string_to_env_var "INSTANA_AGENT_PROXY_HOST" a.spec.agent.proxy_host
  value_of proxy_port_env = string_to_env_var "INSTANA_AGENT_PROXY_PORT" a.spec.agent.proxy_port
  value_of proxy_protocol_env =
      string_to_env_var "INSTANA_AGENT_PROXY_PROTOCOL" a.spec.agent.proxy_protocol
  value_of proxy_user_env =
      string_to_env_var "INSTANA_AGENT_PROXY_USER" a.spec.agent.credentials.proxy_user
  value_of proxy_password_env =
      string_to_env_var "INSTANA_AGENT_PROXY_PASSWORD" a.spec.agent.credentials.proxy_password
  value_of proxy_use_dns_env =
      bool_to_env_var "INSTANA_AGENT_PROXY_USE_DNS" a.spec.agent.proxy_use_dns
  value_of listen_address_env =
      string_to_env_var "INSTANA_AGENT_HTTP_LISTEN" a.spec.agent.listen_address
  value_of redact_k8s_secrets_env =
      string_to_env_var "INSTANA_KUBERNETES_REDACT_SECRETS" a.spec.agent.redact_kubernetes_secrets
  value_of agent_zone_env = built (
      plain_env_var "AGENT_ZONE"
        (get_or_default (optional_of a.spec.cluster_name) a.spec.zone_name))
  value_of https_proxy_env = https_proxy_env_var a
  value_of backend_url_env = built (plain_env_var "BACKEND_URL" "https://$(BACKEND)")
  value_of no_proxy_env =
      if not (is_set a.spec.agent.proxy_host)
      then skipped
      else built (plain_env_var "NO_PROXY" "kubernetes.default.svc")
  value_of config_path_env = built (plain_env_var "CONFIG_PATH" instana_config_directory)
  value_of entrypoint_skip_backend_template_generation =
      built (plain_env_var "ENTRYPOINT_SKIP_BACKEND_TEMPLATE_GENERATION" "true")
  value_of backend_env = built (backend_env_var a)
  value_of instana_agent_key_env = built (agent_key_helper a "INSTANA_AGENT_KEY")
  value_of agent_key_env = built (agent_key_helper a "AGENT_KEY")
  value_of download_key_env = built (download_key_env_var a)
  value_of instana_agent_pod_name_env =
      built (env_with_object_field_selector "INSTANA_AGENT_POD_NAME" "metadata.name")
  value_of pod_name_env = built (env_with_object_field_selector "POD_NAME" "metadata.name")
  value_of pod_ip_env = built (env_with_object_field_selector "POD_IP" "status.podIP")
  value_of pod_uid_env = built (env_with_object_field_selector "POD_UID" "metadata.uid")
  value_of pod_namespace_env =
      built (env_with_object_field_selector "POD_NAMESPACE" "metadata.namespace")
  value_of k8s_service_domain_env =
      built (
        plain_env_var "K8S_SERVICE_DOMAIN"
          (headless_service_name a <> "." <> a.namespace <> ".svc"))
  value_of enable_agent_socket_env =
      bool_to_env_var "ENABLE_AGENT_SOCKET" a.spec.agent.service_mesh_enabled
  value_of namespaces_details_path_env = built (
      plain_env_var "NAMESPACES_DETAILS_PATH"
        (instana_namespaces_details_directory <> "/" <> instana_namespaces_details_file_name))
  value_of node_name_env = built (env_with_object_field_selector "NODE_NAME" "spec.nodeName")
  value_of instana_open_telemetry_grpc_enabled =
      dereferenced a.spec.open_telemetry.grpc.enabled (bool_to_env_var "INSTANA_AGENT_OTEL_GRPC")
  value_of instana_open_telemetry_grpc_port =
      dereferenced a.spec.open_telemetry.grpc.port (int_to_env_var "INSTANA_AGENT_OTEL_GRPC_PORT")
  value_of instana_open_telemetry_http_enabled =
      dereferenced a.spec.open_telemetry.http.enabled (bool_to_env_var "INSTANA_AGENT_OTEL_HTTP")
  value_of instana_open_telemetry_http_port =
      dereferenced a.spec.open_telemetry.http.port (int_to_env_var "INSTANA_AGENT_OTEL_HTTP_PORT")
  value_of etcd_ca_file_env = ca_file_env_var "ETCD_CA_FILE" a.spec.k8s_sensor.etcd.ca
  value_of etcd_insecure_env = etcd_insecure_env_var a.spec.k8s_sensor.etcd.insecure
  value_of etcd_targets_env = list_env_var "ETCD_TARGETS" a.spec.k8s_sensor.etcd.targets
  value_of control_plane_ca_file_env =
      ca_file_env_var "CONTROL_PLANE_CA_FILE" a.spec.k8s_sensor.rest_client.ca
  value_of rest_client_host_allowlist_env =
      list_env_var "REST_CLIENT_HOST_ALLOWLIST" a.spec.k8s_sensor.rest_client.host_allowlist
  value_of crd_monitoring = skipped

-- `build`
unfoldable pub build_env_var : InstanaAgent → Option Zone → EnvVar → Built
build_env_var a agent_zone v =
    if use_secret_mounts a && is_secret v then skipped else value_of a agent_zone v

-- `getUserProvidedEnvs`, over the map in the order of its iteration
unfoldable pub user_provided_envs : Dict String → List CoreEnvVar
user_provided_envs [] = []
user_provided_envs ((name, value) ∷ envs) = plain_env_var name value ∷ user_provided_envs envs

-- the variables that the loop of `Build` appends; `none` says that it panics
unfoldable pub built_env_vars : InstanaAgent → Option Zone → List EnvVar → Option (List CoreEnvVar)
built_env_vars a agent_zone [] = some []
built_env_vars a agent_zone (v ∷ vs) =
    let rest = built_env_vars a agent_zone vs in
    elim (build_env_var a agent_zone v) [
      | skipped ↦ rest
      | nil_dereference ↦ none
      | built e ↦ elim rest [ none ↦ none | some es ↦ some (e ∷ es) ]
    ]

-- `Build`
unfoldable pub build_env : InstanaAgent → Option Zone → List EnvVar → Option (List CoreEnvVar)
build_env a agent_zone vs = elim (built_env_vars a agent_zone vs) [
  | none ↦ none
  | some es ↦ some (user_provided_envs a.spec.agent.env ++ es)
]
