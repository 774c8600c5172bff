-- ===== src/Builders/Env/Vars.antt =====
-- common/env/env_builder.go: the kinds of variables and the functions that make one.
use instana_agent_operator.Prelude.{
  ℕ, String, Bool, true, not, ◌||◌, Option, none, some, List, [], ◌∷◌, if◌then◌else◌,
}
use instana_agent_operator.Prelude.Text.{◌<>◌, itoa, format_bool, join}
use instana_agent_operator.Optional.{optional_of, get_or_default, string_zero}
use instana_agent_operator.Agent.{InstanaAgent, Zone, CaSpec}
use instana_agent_operator.Builders.{
  CoreEnvVar, config_map_key_ref, secret_key_ref, field_ref, agent_key, download_key_name,
  backend_key,
}
use instana_agent_operator.Builders.Helpers.{is_set, k8s_sensor_resources_name}

-- the integer constants of type `EnvVar`
pub data EnvVar : Type 0 where
  agent_mode_env : EnvVar
  zone_name_env : EnvVar
  cluster_name_env : EnvVar
  agent_endpoint_env : EnvVar
  agent_endpoint_port_env : EnvVar
  maven_repo_url_env : EnvVar
  maven_repo_features_path : EnvVar
  maven_repo_shared_path : EnvVar
  mirror_release_repo_url_env : EnvVar
  mirror_release_repo_username_env : EnvVar
  mirror_release_repo_password_env : EnvVar
  mirror_shared_repo_url_env : EnvVar
  mirror_shared_repo_username_env : EnvVar
  mirror_shared_repo_password_env : EnvVar
  proxy_host_env : EnvVar
  proxy_port_env : EnvVar
  proxy_protocol_env : EnvVar
  proxy_user_env : EnvVar
  proxy_password_env : EnvVar
  proxy_use_dns_env : EnvVar
  listen_address_env : EnvVar
  redact_k8s_secrets_env : EnvVar
  agent_zone_env : EnvVar
  https_proxy_env : EnvVar
  backend_url_env : EnvVar
  no_proxy_env : EnvVar
  config_path_env : EnvVar
  entrypoint_skip_backend_template_generation : EnvVar
  backend_env : EnvVar
  instana_agent_key_env : EnvVar
  agent_key_env : EnvVar
  download_key_env : EnvVar
  instana_agent_pod_name_env : EnvVar
  pod_name_env : EnvVar
  pod_ip_env : EnvVar
  pod_uid_env : EnvVar
  pod_namespace_env : EnvVar
  k8s_service_domain_env : EnvVar
  enable_agent_socket_env : EnvVar
  namespaces_details_path_env : EnvVar
  node_name_env : EnvVar
  instana_open_telemetry_grpc_enabled : EnvVar
  instana_open_telemetry_grpc_port : EnvVar
  instana_open_telemetry_http_enabled : EnvVar
  instana_open_telemetry_http_port : EnvVar
  etcd_ca_file_env : EnvVar
  etcd_insecure_env : EnvVar
  etcd_targets_env : EnvVar
  control_plane_ca_file_env : EnvVar
  rest_client_host_allowlist_env : EnvVar
  crd_monitoring : EnvVar

-- What `build` does: return nil, return a variable, or follow a nil pointer and panic.
pub data Built : Type 0 where
  skipped : Built
  built : CoreEnvVar → Built
  nil_dereference : Built

abbrev pub plain_env_var : String → String → CoreEnvVar
plain_env_var name value = record { name = name; value = value; value_from = none }

abbrev pub string_to_env_var : String → String → Built
string_to_env_var name val = if not (is_set val) then skipped else built (plain_env_var name val)

abbrev pub bool_to_env_var : String → Bool → Built
bool_to_env_var name val = if not val then skipped else built (plain_env_var name (format_bool val))

-- `int32ToEnvVar` and `intToEnvVar`, of a port
abbrev pub int_to_env_var : String → ℕ → Built
int_to_env_var name val = built (plain_env_var name (itoa val))

-- f(*p)
abbrev pub dereferenced {ℓ} : {A : Type ℓ} → Option A → (A → Built) → Built
dereferenced none f = nil_dereference
dereferenced (some a) f = f a

-- `etcdCAFileEnv` and `controlPlaneCAFileEnv`
abbrev pub ca_file_env_var : String → CaSpec → Built
ca_file_env_var name ca =
    if not (is_set ca.mount_path)
    then skipped
    else built (plain_env_var name (ca.mount_path <> "/ca.crt"))

abbrev pub etcd_insecure_env_var : Option Bool → Built
etcd_insecure_env_var none = skipped
etcd_insecure_env_var (some b) = built (plain_env_var "ETCD_INSECURE" (format_bool b))

-- `etcdTargetsEnv` and `restClientHostAllowlistEnv`
abbrev pub list_env_var : String → List String → Built
list_env_var name [] = skipped
list_env_var name (s ∷ ss) = built (plain_env_var name (join (s ∷ ss) ","))

abbrev pub env_with_object_field_selector : String → String → CoreEnvVar
env_with_object_field_selector name path = record {
  name = name;
  value = "";
  value_from = some (field_ref path);
}

module _ (a : InstanaAgent) where
  abbrev pub backend_env_var : CoreEnvVar
  backend_env_var = record {
    name = "BACKEND";
    value = "";
    value_from = some (config_map_key_ref (k8s_sensor_resources_name a) backend_key);
  }

  -- the Secret that holds the keys
  abbrev pub keys_secret_name : String
  keys_secret_name = get_or_default (optional_of a.spec.agent.keys_secret) a.name

  abbrev pub agent_key_helper : String → CoreEnvVar
  agent_key_helper name = record {
    name = name;
    value = "";
    value_from = some (secret_key_ref keys_secret_name agent_key none);
  }

  abbrev pub download_key_env_var : CoreEnvVar
  download_key_env_var = record {
    name = "INSTANA_DOWNLOAD_KEY";
    value = "";
    value_from = some (secret_key_ref keys_secret_name download_key_name (some true));
  }

  -- protocol://credentials host:port
  abbrev pub proxy_address : String → String
  proxy_address credentials =
      get_or_default (optional_of a.spec.agent.proxy_protocol) "http"
      <> "://"
      <> credentials
      <> a.spec.agent.proxy_host
      <> ":"
      <> get_or_default (optional_of a.spec.agent.proxy_port) "80"

  abbrev pub https_proxy_env_var : Built
  https_proxy_env_var =
      let user = a.spec.agent.credentials.proxy_user in
      let password = a.spec.agent.credentials.proxy_password in
      if not (is_set a.spec.agent.proxy_host)
      then skipped
      else if not (is_set user) || not (is_set password)
      then built (plain_env_var "HTTPS_PROXY" (proxy_address ""))
      else built (plain_env_var "HTTPS_PROXY" (proxy_address (user <> ":" <> password <> "@")))

  module _ (agent_zone : Option Zone) where
    abbrev pub agent_mode_env_var : Built
    agent_mode_env_var = elim agent_zone [
      | none ↦ string_to_env_var "INSTANA_AGENT_MODE" a.spec.agent.mode
      | some z ↦ built (plain_env_var "INSTANA_AGENT_MODE" z.mode)
    ]

    abbrev pub zone_name_env_var : Built
    zone_name_env_var = elim agent_zone [
      | none ↦ string_to_env_var "INSTANA_ZONE" a.spec.zone_name
      | some z ↦ built (plain_env_var "INSTANA_ZONE" z.name)
    ]
