-- ===== src/Builders/Env/Secrecy.antt =====
-- With secret mounts, no credential of the resource reaches the environment of a container.
use instana_agent_operator.Prelude.{
  ◌≡◌, refl, true, false, Bool-cases, inl, inr, Option, List, [], ◌∷◌, arith,
}
use instana_agent_operator.Agent.{InstanaAgent, Zone, Credentials}
use instana_agent_operator.Builders.Env.{
  is_secret, use_secret_mounts, value_of, build_env_var, built_env_vars, build_env,
}
use instana_agent_operator.Builders.Env.Vars.{
  EnvVar, agent_mode_env, zone_name_env, cluster_name_env, agent_endpoint_env,
  agent_endpoint_port_env, maven_repo_url_env, maven_repo_features_path, maven_repo_shared_path,
  mirror_release_repo_url_env, mirror_release_repo_username_env, mirror_release_repo_password_env,
  mirror_shared_repo_url_env, mirror_shared_repo_username_env, mirror_shared_repo_password_env,
  proxy_host_env, proxy_port_env, proxy_protocol_env, proxy_user_env, proxy_password_env,
  proxy_use_dns_env, listen_address_env, redact_k8s_secrets_env, agent_zone_env, https_proxy_env,
  backend_url_env, no_proxy_env, config_path_env, entrypoint_skip_backend_template_generation,
  backend_env, instana_agent_key_env, agent_key_env, download_key_env, instana_agent_pod_name_env,
  pod_name_env, pod_ip_env, pod_uid_env, pod_namespace_env, k8s_service_domain_env,
  enable_agent_socket_env, namespaces_details_path_env, node_name_env,
  instana_open_telemetry_grpc_enabled, instana_open_telemetry_grpc_port,
  instana_open_telemetry_http_enabled, instana_open_telemetry_http_port, etcd_ca_file_env,
  etcd_insecure_env, etcd_targets_env, control_plane_ca_file_env, rest_client_host_allowlist_env,
  crd_monitoring,
}

-- the resource with other credentials
abbrev pub with_credentials : Credentials → InstanaAgent → InstanaAgent
with_credentials c a = record a {
  spec = record a.spec { agent = record a.spec.agent { credentials = c } };
}

value_of-with_credentials :
    (c : Credentials) (a : InstanaAgent) (agent_zone : Option Zone) (v : EnvVar)
    → is_secret v ≡ false
    → value_of (with_credentials c a) agent_zone v ≡ value_of a agent_zone v
unfolding value_of
value_of-with_credentials c a agent_zone agent_mode_env h = refl
value_of-with_credentials c a agent_zone zone_name_env h = refl
value_of-with_credentials c a agent_zone cluster_name_env h = refl
value_of-with_credentials c a agent_zone agent_endpoint_env h = refl
value_of-with_credentials c a agent_zone agent_endpoint_port_env h = refl
value_of-with_credentials c a agent_zone maven_repo_url_env h = refl
value_of-with_credentials c a agent_zone maven_repo_features_path h = refl
value_of-with_credentials c a agent_zone maven_repo_shared_path h = refl
value_of-with_credentials c a agent_zone mirror_release_repo_url_env h = refl
value_of-with_credentials c a agent_zone mirror_release_repo_username_env h = ground arith
value_of-with_credentials c a agent_zone mirror_release_repo_password_env h = ground arith
value_of-with_credentials c a agent_zone mirror_shared_repo_url_env h = refl
value_of-with_credentials c a agent_zone mirror_shared_repo_username_env h = ground arith
value_of-with_credentials c a agent_zone mirror_shared_repo_password_env h = ground arith
value_of-with_credentials c a agent_zone proxy_host_env h = refl
value_of-with_credentials c a agent_zone proxy_port_env h = refl
value_of-with_credentials c a agent_zone proxy_protocol_env h = refl
value_of-with_credentials c a agent_zone proxy_user_env h = ground arith
value_of-with_credentials c a agent_zone proxy_password_env h = ground arith
value_of-with_credentials c a agent_zone proxy_use_dns_env h = refl
value_of-with_credentials c a agent_zone listen_address_env h = refl
value_of-with_credentials c a agent_zone redact_k8s_secrets_env h = refl
value_of-with_credentials c a agent_zone agent_zone_env h = refl
value_of-with_credentials c a agent_zone https_proxy_env h = ground arith
value_of-with_credentials c a agent_zone backend_url_env h = refl
value_of-with_credentials c a agent_zone no_proxy_env h = refl
value_of-with_credentials c a agent_zone config_path_env h = refl
value_of-with_credentials c a agent_zone entrypoint_skip_backend_template_generation h = refl
value_of-with_credentials c a agent_zone backend_env h = refl
value_of-with_credentials c a agent_zone instana_agent_key_env h = ground arith
value_of-with_credentials c a agent_zone agent_key_env h = ground arith
value_of-with_credentials c a agent_zone download_key_env h = ground arith
value_of-with_credentials c a agent_zone instana_agent_pod_name_env h = refl
value_of-with_credentials c a agent_zone pod_name_env h = refl
value_of-with_credentials c a agent_zone pod_ip_env h = refl
value_of-with_credentials c a agent_zone pod_uid_env h = refl
value_of-with_credentials c a agent_zone pod_namespace_env h = refl
value_of-with_credentials c a agent_zone k8s_service_domain_env h = refl
value_of-with_credentials c a agent_zone enable_agent_socket_env h = refl
value_of-with_credentials c a agent_zone namespaces_details_path_env h = refl
value_of-with_credentials c a agent_zone node_name_env h = refl
value_of-with_credentials c a agent_zone instana_open_telemetry_grpc_enabled h = refl
value_of-with_credentials c a agent_zone instana_open_telemetry_grpc_port h = refl
value_of-with_credentials c a agent_zone instana_open_telemetry_http_enabled h = refl
value_of-with_credentials c a agent_zone instana_open_telemetry_http_port h = refl
value_of-with_credentials c a agent_zone etcd_ca_file_env h = refl
value_of-with_credentials c a agent_zone etcd_insecure_env h = refl
value_of-with_credentials c a agent_zone etcd_targets_env h = refl
value_of-with_credentials c a agent_zone control_plane_ca_file_env h = refl
value_of-with_credentials c a agent_zone rest_client_host_allowlist_env h = refl
value_of-with_credentials c a agent_zone crd_monitoring h = refl

build_env_var-with_credentials :
    (c : Credentials) (a : InstanaAgent) (agent_zone : Option Zone) (v : EnvVar)
    → use_secret_mounts a ≡ true
    → build_env_var (with_credentials c a) agent_zone v ≡ build_env_var a agent_zone v
unfolding build_env_var
build_env_var-with_credentials c a agent_zone v on = elim (Bool-cases (is_secret v)) [
  | inl secret ↦ rw (on, secret) refl
  | inr plain ↦ rw (on, plain) (value_of-with_credentials c a agent_zone v plain)
]

built_env_vars-with_credentials :
    (c : Credentials) (a : InstanaAgent) (agent_zone : Option Zone) (vs : List EnvVar)
    → use_secret_mounts a ≡ true
    → built_env_vars (with_credentials c a) agent_zone vs ≡ built_env_vars a agent_zone vs
unfolding built_env_vars
built_env_vars-with_credentials c a agent_zone [] on = refl
built_env_vars-with_credentials c a agent_zone (v ∷ vs) on = ground (
  arith,
  build_env_var-with_credentials c a agent_zone v on,
  built_env_vars-with_credentials c a agent_zone vs on,
)

-- With secret mounts, whatever variables are asked for, `Build` returns the same environment for
-- two resources that differ only in their credentials.
pub build_env-with_credentials :
    (c : Credentials) (a : InstanaAgent) (agent_zone : Option Zone) (vs : List EnvVar)
    → use_secret_mounts a ≡ true
    → build_env (with_credentials c a) agent_zone vs ≡ build_env a agent_zone vs
unfolding build_env
build_env-with_credentials c a agent_zone vs on =
    ground (arith, built_env_vars-with_credentials c a agent_zone vs on)
