-- ===== src/Builders/Env/Total.antt =====
-- Building the environment does not follow a nil pointer unless a variable of OpenTelemetry is asked
-- for.
use instana_agent_operator.Prelude.{
  String, ◌≡◌, refl, Bool, true, false, not, ◌&&◌, Bool-cases, inl, inr, Option, none, some, List,
  [], ◌∷◌, arith, ◌++◌, if◌then◌else◌, All, all,
}
use instana_agent_operator.Agent.{InstanaAgent, Zone}
use instana_agent_operator.Builders.{CoreEnvVar}
use instana_agent_operator.Builders.Helpers.{is_set}
use instana_agent_operator.Builders.Env.{
  value_of, build_env_var, built_env_vars, build_env, user_provided_envs, is_secret,
  use_secret_mounts,
}
use instana_agent_operator.Builders.Env.Vars.{
  EnvVar, Built, skipped, built, nil_dereference, plain_env_var, string_to_env_var, list_env_var,
  etcd_insecure_env_var, https_proxy_env_var, agent_mode_env, zone_name_env, cluster_name_env,
  agent_endpoint_env, agent_endpoint_port_env, maven_repo_url_env, maven_repo_features_path,
  maven_repo_shared_path, mirror_release_repo_url_env, mirror_release_repo_username_env,
  mirror_release_repo_password_env, mirror_shared_repo_url_env, mirror_shared_repo_username_env,
  mirror_shared_repo_password_env, proxy_host_env, proxy_port_env, proxy_protocol_env,
  proxy_user_env, proxy_password_env, proxy_use_dns_env, listen_address_env, redact_k8s_secrets_env,
  agent_zone_env, https_proxy_env, backend_url_env, no_proxy_env, config_path_env,
  entrypoint_skip_backend_template_generation, backend_env, instana_agent_key_env, agent_key_env,
  download_key_env, instana_agent_pod_name_env, pod_name_env, pod_ip_env, pod_uid_env,
  pod_namespace_env, k8s_service_domain_env, enable_agent_socket_env, namespaces_details_path_env,
  node_name_env, instana_open_telemetry_grpc_enabled, instana_open_telemetry_grpc_port,
  instana_open_telemetry_http_enabled, instana_open_telemetry_http_port, etcd_ca_file_env,
  etcd_insecure_env, etcd_targets_env, control_plane_ca_file_env, rest_client_host_allowlist_env,
  crd_monitoring,
}

-- the variables whose pointers are followed
abbrev pub is_open_telemetry : EnvVar → Bool
is_open_telemetry instana_open_telemetry_grpc_enabled = true
is_open_telemetry instana_open_telemetry_grpc_port = true
is_open_telemetry instana_open_telemetry_http_enabled = true
is_open_telemetry instana_open_telemetry_http_port = true
is_open_telemetry _ = false

abbrev Returns : Built → Type 0
Returns nil_dereference = ⊥
Returns _ = Unit

unless-Returns : (b : Bool) (e : CoreEnvVar) → Returns (if b then skipped else built e)
unless-Returns true e = tt
unless-Returns false e = tt

list-Returns : (name : String) (ss : List String) → Returns (list_env_var name ss)
list-Returns name [] = tt
list-Returns name (s ∷ ss) = tt

zoned-Returns :
    (name val : String) (z : Option Zone) (of_zone : Zone → String)
    → Returns (elim z [
      | none ↦ string_to_env_var name val
      | some z' ↦ built (plain_env_var name (of_zone z'))
    ])
zoned-Returns name val none of_zone = unless-Returns (not (is_set val)) _
zoned-Returns name val (some z) of_zone = tt

insecure-Returns : (b : Option Bool) → Returns (etcd_insecure_env_var b)
insecure-Returns none = tt
insecure-Returns (some b) = tt

either-Returns : (b : Bool) (e f : CoreEnvVar) → Returns (if b then built e else built f)
either-Returns true e f = tt
either-Returns false e f = tt

https_proxy-Returns : (a : InstanaAgent) → Returns (https_proxy_env_var a)
https_proxy-Returns a = elim (Bool-cases (is_set a.spec.agent.proxy_host)) [
  | inl e ↦ rw e (either-Returns _ _ _)
  | inr e ↦ rw e tt
]

value_of-Returns :
    (a : InstanaAgent) (agent_zone : Option Zone) (v : EnvVar)
    → is_open_telemetry v ≡ false
    → Returns (value_of a agent_zone v)
unfolding value_of
value_of-Returns a agent_zone agent_mode_env h =
    zoned-Returns _ a.spec.agent.mode agent_zone (λ z. z.mode)
value_of-Returns a agent_zone zone_name_env h =
    zoned-Returns _ a.spec.zone_name agent_zone (λ z. z.name)
value_of-Returns a agent_zone cluster_name_env h =
    unless-Returns (not (is_set a.spec.cluster_name)) _
value_of-Returns a agent_zone agent_endpoint_env h =
    unless-Returns (not (is_set a.spec.agent.endpoint_host)) _
value_of-Returns a agent_zone agent_endpoint_port_env h =
    unless-Returns (not (is_set a.spec.agent.endpoint_port)) _
value_of-Returns a agent_zone maven_repo_url_env h =
    unless-Returns (not (is_set a.spec.agent.mvn_repo_url)) _
value_of-Returns a agent_zone maven_repo_features_path h =
    unless-Returns (not (is_set a.spec.agent.mvn_repo_features_path)) _
value_of-Returns a agent_zone maven_repo_shared_path h =
    unless-Returns (not (is_set a.spec.agent.mvn_repo_shared_path)) _
value_of-Returns a agent_zone mirror_release_repo_url_env h =
    unless-Returns (not (is_set a.spec.agent.mirror_release_repo_url)) _
value_of-Returns a agent_zone mirror_release_repo_username_env h =
    unless-Returns (not (is_set a.spec.agent.credentials.mirror_release_repo_username)) _
value_of-Returns a agent_zone mirror_release_repo_password_env h =
    unless-Returns (not (is_set a.spec.agent.credentials.mirror_release_repo_password)) _
value_of-Returns a agent_zone mirror_shared_repo_url_env h =
    unless-Returns (not (is_set a.spec.agent.mirror_shared_repo_url)) _
value_of-Returns a agent_zone mirror_shared_repo_username_env h =
    unless-Returns (not (is_set a.spec.agent.credentials.mirror_shared_repo_username)) _
value_of-Returns a agent_zone mirror_shared_repo_password_env h =
    unless-Returns (not (is_set a.spec.agent.credentials.mirror_shared_repo_password)) _
value_of-Returns a agent_zone proxy_host_env h =
    unless-Returns (not (is_set a.spec.agent.proxy_host)) _
value_of-Returns a agent_zone proxy_port_env h =
    unless-Returns (not (is_set a.spec.agent.proxy_port)) _
value_of-Returns a agent_zone proxy_protocol_env h =
    unless-Returns (not (is_set a.spec.agent.proxy_protocol)) _
value_of-Returns a agent_zone proxy_user_env h =
    unless-Returns (not (is_set a.spec.agent.credentials.proxy_user)) _
value_of-Returns a agent_zone proxy_password_env h =
    unless-Returns (not (is_set a.spec.agent.credentials.proxy_password)) _
value_of-Returns a agent_zone proxy_use_dns_env h =
    unless-Returns (not a.spec.agent.proxy_use_dns) _
value_of-Returns a agent_zone listen_address_env h =
    unless-Returns (not (is_set a.spec.agent.listen_address)) _
value_of-Returns a agent_zone redact_k8s_secrets_env h =
    unless-Returns (not (is_set a.spec.agent.redact_kubernetes_secrets)) _
value_of-Returns a agent_zone agent_zone_env h = tt
value_of-Returns a agent_zone https_proxy_env h = https_proxy-Returns a
value_of-Returns a agent_zone backend_url_env h = tt
value_of-Returns a agent_zone no_proxy_env h =
    unless-Returns (not (is_set a.spec.agent.proxy_host)) _
value_of-Returns a agent_zone config_path_env h = tt
value_of-Returns a agent_zone entrypoint_skip_backend_template_generation h = tt
value_of-Returns a agent_zone backend_env h = tt
value_of-Returns a agent_zone instana_agent_key_env h = tt
value_of-Returns a agent_zone agent_key_env h = tt
value_of-Returns a agent_zone download_key_env h = tt
value_of-Returns a agent_zone instana_agent_pod_name_env h = tt
value_of-Returns a agent_zone pod_name_env h = tt
value_of-Returns a agent_zone pod_ip_env h = tt
value_of-Returns a agent_zone pod_uid_env h = tt
value_of-Returns a agent_zone pod_namespace_env h = tt
value_of-Returns a agent_zone k8s_service_domain_env h = tt
value_of-Returns a agent_zone enable_agent_socket_env h =
    unless-Returns (not a.spec.agent.service_mesh_enabled) _
value_of-Returns a agent_zone namespaces_details_path_env h = tt
value_of-Returns a agent_zone node_name_env h = tt
value_of-Returns a agent_zone instana_open_telemetry_grpc_enabled h = ground (arith, h)
value_of-Returns a agent_zone instana_open_telemetry_grpc_port h = ground (arith, h)
value_of-Returns a agent_zone instana_open_telemetry_http_enabled h = ground (arith, h)
value_of-Returns a agent_zone instana_open_telemetry_http_port h = ground (arith, h)
value_of-Returns a agent_zone etcd_ca_file_env h =
    unless-Returns (not (is_set a.spec.k8s_sensor.etcd.ca.mount_path)) _
value_of-Returns a agent_zone etcd_insecure_env h = insecure-Returns a.spec.k8s_sensor.etcd.insecure
value_of-Returns a agent_zone etcd_targets_env h =
    list-Returns "ETCD_TARGETS" a.spec.k8s_sensor.etcd.targets
value_of-Returns a agent_zone control_plane_ca_file_env h =
    unless-Returns (not (is_set a.spec.k8s_sensor.rest_client.ca.mount_path)) _
value_of-Returns a agent_zone rest_client_host_allowlist_env h =
    list-Returns "REST_CLIENT_HOST_ALLOWLIST" a.spec.k8s_sensor.rest_client.host_allowlist
value_of-Returns a agent_zone crd_monitoring h = tt

build_env_var-Returns :
    (a : InstanaAgent) (agent_zone : Option Zone) (v : EnvVar)
    → is_open_telemetry v ≡ false
    → Returns (build_env_var a agent_zone v)
unfolding build_env_var
build_env_var-Returns a agent_zone v h = elim (Bool-cases (use_secret_mounts a && is_secret v)) [
  | inl e ↦ rw e tt
  | inr e ↦ rw e (value_of-Returns a agent_zone v h)
]

-- the step of the loop for a variable that is built or left out
step-some :
    (b : Built) (rest : Option (List CoreEnvVar))
    → Returns b
    → (es : List CoreEnvVar) × (rest ≡ some es)
    → (es : List CoreEnvVar) × ((elim b [
      | skipped ↦ rest
      | nil_dereference ↦ none
      | built e ↦ elim rest [ none ↦ none | some fs ↦ some (e ∷ fs) ]
    ])
        ≡ some es)
step-some skipped rest h found = found
step-some (built e) none h (es, eq) = ground (arith, eq)
step-some (built e) (some fs) h found = (e ∷ fs, refl)
step-some nil_dereference rest h found = elim h [ ]

abbrev pub NotOpenTelemetry : List EnvVar → Type 0
NotOpenTelemetry vs = All (λ v. is_open_telemetry v ≡ false) vs

pub all-NotOpenTelemetry :
    (vs : List EnvVar) → all (λ v. not (is_open_telemetry v)) vs ≡ true → NotOpenTelemetry vs
all-NotOpenTelemetry [] h = tt
all-NotOpenTelemetry (v ∷ vs) h = (ground (arith, h), all-NotOpenTelemetry vs (ground (arith, h)))

built_env_vars-some :
    (a : InstanaAgent) (agent_zone : Option Zone) (vs : List EnvVar)
    → NotOpenTelemetry vs
    → (es : List CoreEnvVar) × (built_env_vars a agent_zone vs ≡ some es)
unfolding built_env_vars
built_env_vars-some a agent_zone [] h = ([], refl)
built_env_vars-some a agent_zone (v ∷ vs) (safe, h) =
    step-some (build_env_var a agent_zone v) (built_env_vars a agent_zone vs)
      (build_env_var-Returns a agent_zone v safe) (built_env_vars-some a agent_zone vs h)

appended-some :
    (first : List CoreEnvVar) (rest : Option (List CoreEnvVar))
    → (es : List CoreEnvVar) × (rest ≡ some es)
    → (es : List CoreEnvVar) × ((elim rest [ none ↦ none | some fs ↦ some (first ++ fs) ])
        ≡ some es)
appended-some first none (es, eq) = ground (arith, eq)
appended-some first (some fs) found = (first ++ fs, refl)

pub build_env-some :
    (a : InstanaAgent) (agent_zone : Option Zone) (vs : List EnvVar)
    → NotOpenTelemetry vs
    → (es : List CoreEnvVar) × (build_env a agent_zone vs ≡ some es)
unfolding build_env
build_env-some a agent_zone vs h =
    appended-some (user_provided_envs a.spec.agent.env) (built_env_vars a agent_zone vs)
      (built_env_vars-some a agent_zone vs h)
