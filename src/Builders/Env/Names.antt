-- ===== src/Builders/Env/Names.antt =====
-- The names of the variables: whatever `build` makes of a variable has the name of that variable.
use instana_agent_operator.Prelude.{
  ℕ, String, ◌≡◌, ◌≢◌, refl, ap, sym, ◌∙◌, Bool, true, false, not, Bool-cases, inl, inr, Option,
  none, some, some-injective, List, [], ◌∷◌, arith, if◌then◌else◌, Memᴰ, All, Mem-cons_cases, ◌&&◌,
  ◌⊎◌,
}
use mathlib.Core.Path.{subst}
use instana_agent_operator.Agent.{InstanaAgent, Zone, CaSpec}
use instana_agent_operator.Builders.{CoreEnvVar}
use instana_agent_operator.Builders.Helpers.{is_set}
use instana_agent_operator.Builders.Env.{
  value_of, build_env_var, built_env_vars, is_secret, use_secret_mounts,
}
use instana_agent_operator.Builders.Env.Vars.{
  EnvVar, Built, skipped, built, nil_dereference, plain_env_var, string_to_env_var, bool_to_env_var,
  int_to_env_var, dereferenced, ca_file_env_var, list_env_var, etcd_insecure_env_var,
  https_proxy_env_var, agent_mode_env, zone_name_env, cluster_name_env, agent_endpoint_env,
  agent_endpoint_port_env, maven_repo_url_env, maven_repo_features_path, maven_repo_shared_path,
  mirror_release_repo_url_env, mirror_release_repo_username_env, mirror_release_repo_password_env,
  mirror_shared_repo_url_env, mirror_shared_repo_username_env, mirror_shared_repo_password_env,
  proxy_host_env, proxy_port_env, proxy_protocol_env, proxy_user_env, proxy_password_env,
  proxy_use_dns_env, listen_address_env, redact_k8s_secrets_env, agent_zone_env, https_proxy_env,
  backend_url_env, no_proxy_env, config_path_env, entrypoint_skip_backend_template_generation,
  backend_env, instana_agent_key_env, agent_key_env, download_key_env, instana_agent_pod_name_env,
  pod_name_env, pod_ip_env, pod_uid_env, pod_namespace_env, k8s_service_domain_env,
  enable_agent_socket_env, namespaces_details_path_env, node_name_env,
  instana_open_telemetry_grpc_enabled, instana_open_telemetry_grpc_port,
  instana_open_telemetry_http_enabled, instana_open_telemetry_http_port, etcd_ca_file_env,
  etcd_insecure_env, etcd_targets_env, control_plane_ca_file_env, rest_client_host_allowlist_env,
  crd_monitoring,
}

abbrev pub name_of : EnvVar → String
name_of agent_mode_env = "INSTANA_AGENT_MODE"
name_of zone_name_env = "INSTANA_ZONE"
name_of cluster_name_env = "INSTANA_KUBERNETES_CLUSTER_NAME"
name_of agent_endpoint_env = "INSTANA_AGENT_ENDPOINT"
name_of agent_endpoint_port_env = "INSTANA_AGENT_ENDPOINT_PORT"
name_of maven_repo_url_env = "INSTANA_MVN_REPOSITORY_URL"
name_of maven_repo_features_path = "INSTANA_MVN_REPOSITORY_FEATURES_PATH"
name_of maven_repo_shared_path = "INSTANA_MVN_REPOSITORY_SHARED_PATH"
name_of mirror_release_repo_url_env = "AGENT_RELEASE_REPOSITORY_MIRROR_URL"
name_of mirror_release_repo_username_env = "AGENT_RELEASE_REPOSITORY_MIRROR_USERNAME"
name_of mirror_release_repo_password_env = "AGENT_RELEASE_REPOSITORY_MIRROR_PASSWORD"
name_of mirror_shared_repo_url_env = "INSTANA_SHARED_REPOSITORY_MIRROR_URL"
name_of mirror_shared_repo_username_env = "INSTANA_SHARED_REPOSITORY_MIRROR_USERNAME"
name_of mirror_shared_repo_password_env = "INSTANA_SHARED_REPOSITORY_MIRROR_PASSWORD"
name_of proxy_host_env = "INSTANA_AGENT_PROXY_HOST"
name_of proxy_port_env = "INSTANA_AGENT_PROXY_PORT"
name_of proxy_protocol_env = "INSTANA_AGENT_PROXY_PROTOCOL"
name_of proxy_user_env = "INSTANA_AGENT_PROXY_USER"
name_of proxy_password_env = "INSTANA_AGENT_PROXY_PASSWORD"
name_of proxy_use_dns_env = "INSTANA_AGENT_PROXY_USE_DNS"
name_of listen_address_env = "INSTANA_AGENT_HTTP_LISTEN"
name_of redact_k8s_secrets_env = "INSTANA_KUBERNETES_REDACT_SECRETS"
name_of agent_zone_env = "AGENT_ZONE"
name_of https_proxy_env = "HTTPS_PROXY"
name_of backend_url_env = "BACKEND_URL"
name_of no_proxy_env = "NO_PROXY"
name_of config_path_env = "CONFIG_PATH"
name_of entrypoint_skip_backend_template_generation = "ENTRYPOINT_SKIP_BACKEND_TEMPLATE_GENERATION"
name_of backend_env = "BACKEND"
name_of instana_agent_key_env = "INSTANA_AGENT_KEY"
name_of agent_key_env = "AGENT_KEY"
name_of download_key_env = "INSTANA_DOWNLOAD_KEY"
name_of instana_agent_pod_name_env = "INSTANA_AGENT_POD_NAME"
name_of pod_name_env = "POD_NAME"
name_of pod_ip_env = "POD_IP"
name_of pod_uid_env = "POD_UID"
name_of pod_namespace_env = "POD_NAMESPACE"
name_of k8s_service_domain_env = "K8S_SERVICE_DOMAIN"
name_of enable_agent_socket_env = "ENABLE_AGENT_SOCKET"
name_of namespaces_details_path_env = "NAMESPACES_DETAILS_PATH"
name_of node_name_env = "NODE_NAME"
name_of instana_open_telemetry_grpc_enabled = "INSTANA_AGENT_OTEL_GRPC"
name_of instana_open_telemetry_grpc_port = "INSTANA_AGENT_OTEL_GRPC_PORT"
name_of instana_open_telemetry_http_enabled = "INSTANA_AGENT_OTEL_HTTP"
name_of instana_open_telemetry_http_port = "INSTANA_AGENT_OTEL_HTTP_PORT"
name_of etcd_ca_file_env = "ETCD_CA_FILE"
name_of etcd_insecure_env = "ETCD_INSECURE"
name_of etcd_targets_env = "ETCD_TARGETS"
name_of control_plane_ca_file_env = "CONTROL_PLANE_CA_FILE"
name_of rest_client_host_allowlist_env = "REST_CLIENT_HOST_ALLOWLIST"
name_of crd_monitoring = ""

abbrev pub HasName : String → Built → Type 0
HasName name (built e) = e.name ≡ name
HasName name _ = Unit

-- a variable that a test may leave out
unless-HasName :
    (b : Bool) (e : CoreEnvVar) (name : String)
    → e.name ≡ name
    → HasName name (if b then skipped else built e)
unless-HasName true e name h = tt
unless-HasName false e name h = h

string-HasName : (name val : String) → HasName name (string_to_env_var name val)
string-HasName name val = unless-HasName (not (is_set val)) _ name refl

bool-HasName : (name : String) (val : Bool) → HasName name (bool_to_env_var name val)
bool-HasName name val = unless-HasName (not val) _ name refl

ca_file-HasName : (name : String) (ca : CaSpec) → HasName name (ca_file_env_var name ca)
ca_file-HasName name ca = unless-HasName (not (is_set ca.mount_path)) _ name refl

list-HasName : (name : String) (ss : List String) → HasName name (list_env_var name ss)
list-HasName name [] = tt
list-HasName name (s ∷ ss) = refl

dereferenced_bool-HasName :
    (name : String) (b : Option Bool) → HasName name (dereferenced b (bool_to_env_var name))
dereferenced_bool-HasName name none = tt
dereferenced_bool-HasName name (some b) = bool-HasName name b

dereferenced_int-HasName :
    (name : String) (n : Option ℕ) → HasName name (dereferenced n (int_to_env_var name))
dereferenced_int-HasName name none = tt
dereferenced_int-HasName name (some n) = refl

zoned-HasName :
    (name val : String) (z : Option Zone) (of_zone : Zone → String)
    → HasName name (elim z [
      | none ↦ string_to_env_var name val
      | some z' ↦ built (plain_env_var name (of_zone z'))
    ])
zoned-HasName name val none of_zone = string-HasName name val
zoned-HasName name val (some z) of_zone = refl

insecure-HasName : (b : Option Bool) → HasName "ETCD_INSECURE" (etcd_insecure_env_var b)
insecure-HasName none = tt
insecure-HasName (some b) = refl

either-HasName :
    (b : Bool) (e f : CoreEnvVar) (name : String)
    → e.name ≡ name
    → f.name ≡ name
    → HasName name (if b then built e else built f)
either-HasName true e f name h k = h
either-HasName false e f name h k = k

https_proxy-HasName : (a : InstanaAgent) → HasName "HTTPS_PROXY" (https_proxy_env_var a)
https_proxy-HasName a = elim (Bool-cases (is_set a.spec.agent.proxy_host)) [
  | inl e ↦ rw e (either-HasName _ _ _ "HTTPS_PROXY" refl refl)
  | inr e ↦ rw e tt
]

value_of-HasName :
    (a : InstanaAgent) (agent_zone : Option Zone) (v : EnvVar)
    → HasName (name_of v) (value_of a agent_zone v)
unfolding value_of
value_of-HasName a agent_zone agent_mode_env =
    zoned-HasName "INSTANA_AGENT_MODE" a.spec.agent.mode agent_zone (λ z. z.mode)
value_of-HasName a agent_zone zone_name_env =
    zoned-HasName "INSTANA_ZONE" a.spec.zone_name agent_zone (λ z. z.name)
value_of-HasName a agent_zone cluster_name_env =
    string-HasName "INSTANA_KUBERNETES_CLUSTER_NAME" a.spec.cluster_name
value_of-HasName a agent_zone agent_endpoint_env =
    string-HasName "INSTANA_AGENT_ENDPOINT" a.spec.agent.endpoint_host
value_of-HasName a agent_zone agent_endpoint_port_env =
    string-HasName "INSTANA_AGENT_ENDPOINT_PORT" a.spec.agent.endpoint_port
value_of-HasName a agent_zone maven_repo_url_env =
    string-HasName "INSTANA_MVN_REPOSITORY_URL" a.spec.agent.mvn_repo_url
value_of-HasName a agent_zone maven_repo_features_path =
    string-HasName "INSTANA_MVN_REPOSITORY_FEATURES_PATH" a.spec.agent.mvn_repo_features_path
value_of-HasName a agent_zone maven_repo_shared_path =
    string-HasName "INSTANA_MVN_REPOSITORY_SHARED_PATH" a.spec.agent.mvn_repo_shared_path
value_of-HasName a agent_zone mirror_release_repo_url_env =
    string-HasName "AGENT_RELEASE_REPOSITORY_MIRROR_URL" a.spec.agent.mirror_release_repo_url
value_of-HasName a agent_zone mirror_release_repo_username_env =
    string-HasName "AGENT_RELEASE_REPOSITORY_MIRROR_USERNAME"
      a.spec.agent.credentials.mirror_release_repo_username
value_of-HasName a agent_zone mirror_release_repo_password_env =
    string-HasName "AGENT_RELEASE_REPOSITORY_MIRROR_PASSWORD"
      a.spec.agent.credentials.mirror_release_repo_password
value_of-HasName a agent_zone mirror_shared_repo_url_env =
    string-HasName "INSTANA_SHARED_REPOSITORY_MIRROR_URL" a.spec.agent.mirror_shared_repo_url
value_of-HasName a agent_zone mirror_shared_repo_username_env =
    string-HasName "INSTANA_SHARED_REPOSITORY_MIRROR_USERNAME"
      a.spec.agent.credentials.mirror_shared_repo_username
value_of-HasName a agent_zone mirror_shared_repo_password_env =
    string-HasName "INSTANA_SHARED_REPOSITORY_MIRROR_PASSWORD"
      a.spec.agent.credentials.mirror_shared_repo_password
value_of-HasName a agent_zone proxy_host_env =
    string-HasName "INSTANA_AGENT_PROXY_HOST" a.spec.agent.proxy_host
value_of-HasName a agent_zone proxy_port_env =
    string-HasName "INSTANA_AGENT_PROXY_PORT" a.spec.agent.proxy_port
value_of-HasName a agent_zone proxy_protocol_env =
    string-HasName "INSTANA_AGENT_PROXY_PROTOCOL" a.spec.agent.proxy_protocol
value_of-HasName a agent_zone proxy_user_env =
    string-HasName "INSTANA_AGENT_PROXY_USER" a.spec.agent.credentials.proxy_user
value_of-HasName a agent_zone proxy_password_env =
    string-HasName "INSTANA_AGENT_PROXY_PASSWORD" a.spec.agent.credentials.proxy_password
value_of-HasName a agent_zone proxy_use_dns_env =
    bool-HasName "INSTANA_AGENT_PROXY_USE_DNS" a.spec.agent.proxy_use_dns
value_of-HasName a agent_zone listen_address_env =
    string-HasName "INSTANA_AGENT_HTTP_LISTEN" a.spec.agent.listen_address
value_of-HasName a agent_zone redact_k8s_secrets_env =
    string-HasName "INSTANA_KUBERNETES_REDACT_SECRETS" a.spec.agent.redact_kubernetes_secrets
value_of-HasName a agent_zone agent_zone_env = refl
value_of-HasName a agent_zone https_proxy_env = https_proxy-HasName a
value_of-HasName a agent_zone backend_url_env = refl
value_of-HasName a agent_zone no_proxy_env =
    unless-HasName _ (plain_env_var "NO_PROXY" "kubernetes.default.svc") _ refl
value_of-HasName a agent_zone config_path_env = refl
value_of-HasName a agent_zone entrypoint_skip_backend_template_generation = refl
value_of-HasName a agent_zone backend_env = refl
value_of-HasName a agent_zone instana_agent_key_env = refl
value_of-HasName a agent_zone agent_key_env = refl
value_of-HasName a agent_zone download_key_env = refl
value_of-HasName a agent_zone instana_agent_pod_name_env = refl
value_of-HasName a agent_zone pod_name_env = refl
value_of-HasName a agent_zone pod_ip_env = refl
value_of-HasName a agent_zone pod_uid_env = refl
value_of-HasName a agent_zone pod_namespace_env = refl
value_of-HasName a agent_zone k8s_service_domain_env = refl
value_of-HasName a agent_zone enable_agent_socket_env =
    bool-HasName "ENABLE_AGENT_SOCKET" a.spec.agent.service_mesh_enabled
value_of-HasName a agent_zone namespaces_details_path_env = refl
value_of-HasName a agent_zone node_name_env = refl
value_of-HasName a agent_zone instana_open_telemetry_grpc_enabled =
    dereferenced_bool-HasName "INSTANA_AGENT_OTEL_GRPC" a.spec.open_telemetry.grpc.enabled
value_of-HasName a agent_zone instana_open_telemetry_grpc_port =
    dereferenced_int-HasName "INSTANA_AGENT_OTEL_GRPC_PORT" a.spec.open_telemetry.grpc.port
value_of-HasName a agent_zone instana_open_telemetry_http_enabled =
    dereferenced_bool-HasName "INSTANA_AGENT_OTEL_HTTP" a.spec.open_telemetry.http.enabled
value_of-HasName a agent_zone instana_open_telemetry_http_port =
    dereferenced_int-HasName "INSTANA_AGENT_OTEL_HTTP_PORT" a.spec.open_telemetry.http.port
value_of-HasName a agent_zone etcd_ca_file_env =
    ca_file-HasName "ETCD_CA_FILE" a.spec.k8s_sensor.etcd.ca
value_of-HasName a agent_zone etcd_insecure_env = insecure-HasName a.spec.k8s_sensor.etcd.insecure
value_of-HasName a agent_zone etcd_targets_env =
    list-HasName "ETCD_TARGETS" a.spec.k8s_sensor.etcd.targets
value_of-HasName a agent_zone control_plane_ca_file_env =
    ca_file-HasName "CONTROL_PLANE_CA_FILE" a.spec.k8s_sensor.rest_client.ca
value_of-HasName a agent_zone rest_client_host_allowlist_env =
    list-HasName "REST_CLIENT_HOST_ALLOWLIST" a.spec.k8s_sensor.rest_client.host_allowlist
value_of-HasName a agent_zone crd_monitoring = tt

build_env_var-HasName :
    (a : InstanaAgent) (agent_zone : Option Zone) (v : EnvVar)
    → HasName (name_of v) (build_env_var a agent_zone v)
unfolding build_env_var
build_env_var-HasName a agent_zone v = elim (Bool-cases (use_secret_mounts a && is_secret v)) [
  | inl e ↦ rw e tt
  | inr e ↦ rw e (value_of-HasName a agent_zone v)
]

-- A variable with another name is none of those built for `vs`, given that each of `vs` has another
-- name or is left out.
abbrev pub Avoids : InstanaAgent → Option Zone → String → EnvVar → Type 0
Avoids a agent_zone name v = (name_of v ≢ name) ⊎ (build_env_var a agent_zone v ≡ skipped)

cons-built :
    (b : Built) (rest : Option (List CoreEnvVar)) (es : List CoreEnvVar)
    → (elim b [
      | skipped ↦ rest
      | nil_dereference ↦ none
      | built e ↦ elim rest [ none ↦ none | some fs ↦ some (e ∷ fs) ]
    ])
      ≡ some es
    → ((b ≡ skipped) × (rest ≡ some es))
      ⊎ ((e : CoreEnvVar) × (fs : List CoreEnvVar) × (b ≡ built e)
          × (rest ≡ some fs)
          × (es ≡ e ∷ fs))
cons-built skipped rest es h = inl (refl, h)
cons-built nil_dereference rest es h = ground (arith, h)
cons-built (built e) none es h = ground (arith, h)
cons-built (built e) (some fs) es h = inr (e, fs, refl, refl, ground (arith, h))

pub built_env_vars-Avoids :
    (a : InstanaAgent) (agent_zone : Option Zone) (name : String) (vs : List EnvVar)
    (es : List CoreEnvVar)
    → All (Avoids a agent_zone name) vs
    → built_env_vars a agent_zone vs ≡ some es
    → All (λ (e : CoreEnvVar). e.name ≢ name) es
unfolding built_env_vars
built_env_vars-Avoids a agent_zone name [] es h eq =
    subst (λ (l : List CoreEnvVar). All (λ (e : CoreEnvVar). e.name ≢ name) l) (some-injective eq)
      tt
built_env_vars-Avoids a agent_zone name (v ∷ vs) es (avoids, h) eq =
    elim (cons-built (build_env_var a agent_zone v) (built_env_vars a agent_zone vs) es eq) [
      | inl (_, rest) ↦ built_env_vars-Avoids a agent_zone name vs es h rest
      | inr (e, fs, made, rest, same) ↦
          subst (λ l. All (λ (x : CoreEnvVar). x.name ≢ name) l) (sym same)
            (
              elim avoids [
                | inl other ↦ λ p. other (
                    sym (
                      subst (λ b. HasName (name_of v) b) made
                        (build_env_var-HasName a agent_zone v))
                    ∙ p)
                | inr left_out ↦ λ p. ground (arith, left_out, made)
              ],
              built_env_vars-Avoids a agent_zone name vs fs h rest,
            )
    ]

pub built_env_vars-Mem :
    (a : InstanaAgent) (agent_zone : Option Zone) (v : EnvVar) (vs : List EnvVar) (e : CoreEnvVar)
    (es : List CoreEnvVar)
    → Memᴰ v vs
    → build_env_var a agent_zone v ≡ built e
    → built_env_vars a agent_zone vs ≡ some es
    → Memᴰ e es
unfolding built_env_vars
built_env_vars-Mem a agent_zone v [] e es mem made eq = elim mem [ ]
built_env_vars-Mem a agent_zone v (w ∷ ws) e es mem made eq =
    elim (cons-built (build_env_var a agent_zone w) (built_env_vars a agent_zone ws) es eq) [
      | inl (left_out, rest) ↦ elim (Mem-cons_cases mem) [
        | inl p ↦ ground (arith, left_out, made, ap (build_env_var a agent_zone) p)
        | inr m ↦ built_env_vars-Mem a agent_zone v ws e es m made rest
      ]
      | inr (f, fs, made', rest, same) ↦ elim (Mem-cons_cases mem) [
        | inl p ↦
            subst (λ l. Memᴰ e l) (sym same)
              (Memᴰ.head (ground (arith, made, made', ap (build_env_var a agent_zone) p)))
        | inr m ↦
            subst (λ l. Memᴰ e l) (sym same)
              (Memᴰ.tail (built_env_vars-Mem a agent_zone v ws e fs m made rest))
      ]
    ]
