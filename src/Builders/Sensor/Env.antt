-- ===== src/Builders/Sensor/Env.antt =====
-- The environment of the k8s sensor's container.
use instana_agent_operator.Prelude.{
  ◌≡◌, refl, inl, inr, true, Bool-cases, none, some, List, [], ◌∷◌, ◌++◌, arith,
}
use instana_agent_operator.Prelude.Sort.{sort_by}
use instana_agent_operator.Agent.{InstanaAgent, Credentials}
use instana_agent_operator.Builders.{CoreEnvVar}
use instana_agent_operator.Builders.Env.{build_env, use_secret_mounts}
use instana_agent_operator.Builders.Env.Vars.{etcd_ca_file_env, https_proxy_env}
use instana_agent_operator.Builders.Env.Secrecy.{with_credentials, build_env-with_credentials}
use instana_agent_operator.Builders.Env.Total.{
  NotOpenTelemetry, all-NotOpenTelemetry, build_env-some,
}
use instana_agent_operator.Builders.Sensor.{
  DeploymentBuilder, get_env_vars, backend_env_vars, backend_env_var, get_agent_key_env_var,
  etcd_env_vars, env_vars_to_include, common_env_vars, include_etcd_ca_file_env,
}

abbrev with_agent : InstanaAgent → DeploymentBuilder → DeploymentBuilder
with_agent a d = record d { instana_agent = a }

backend-with_credentials :
    (c : Credentials) (d : DeploymentBuilder)
    → use_secret_mounts d.instana_agent ≡ true
    → backend_env_vars (with_agent (with_credentials c d.instana_agent) d) ≡ backend_env_vars d
unfolding backend_env_vars
backend-with_credentials c d mounts = ground (arith, mounts)

-- With secret mounts the environment of the k8s sensor's container is the same for all credentials
-- of the resource.
pub get_env_vars-with_credentials :
    (c : Credentials) (d : DeploymentBuilder)
    → use_secret_mounts d.instana_agent ≡ true
    → get_env_vars (with_agent (with_credentials c d.instana_agent) d) ≡ get_env_vars d
unfolding get_env_vars etcd_env_vars
get_env_vars-with_credentials c d mounts = ground (
  arith,
  backend-with_credentials c d mounts,
  build_env-with_credentials c d.instana_agent none (env_vars_to_include d) mounts,
)

included-NotOpenTelemetry : (d : DeploymentBuilder) → NotOpenTelemetry (env_vars_to_include d)
included-NotOpenTelemetry d = elim (Bool-cases (include_etcd_ca_file_env d)) [
  | inl e ↦ rw e (all-NotOpenTelemetry (common_env_vars ++ etcd_ca_file_env ∷ []) refl)
  | inr e ↦ rw e (all-NotOpenTelemetry common_env_vars refl)
]

backend_env_vars-some :
    (d : DeploymentBuilder) → (es : List CoreEnvVar) × (backend_env_vars d ≡ some es)
unfolding backend_env_vars
backend_env_vars-some d =
    let (proxy, e) = build_env-some d.instana_agent none (https_proxy_env ∷ []) (refl, tt) in
    elim (Bool-cases (use_secret_mounts d.instana_agent)) [
      | inl m ↦ (backend_env_var d ∷ [], ground (arith, m))
      | inr m ↦ (backend_env_var d ∷ get_agent_key_env_var d ∷ proxy, ground (arith, m, e))
    ]

-- The parts of the environment: the sorted list of the backend's variables, the common ones and
-- those for etcd.
pub get_env_vars-parts :
    (d : DeploymentBuilder)
    → (backend : List CoreEnvVar) × (common : List CoreEnvVar) × (backend_env_vars d ≡ some backend)
      × (build_env d.instana_agent none (env_vars_to_include d) ≡ some common)
      × (get_env_vars d
          ≡ some (sort_by (λ (e : CoreEnvVar). e.name) (backend ++ common ++ etcd_env_vars d)))
unfolding get_env_vars
get_env_vars-parts d =
    let (backend, b) = backend_env_vars-some d in
    let (common, c) =
      build_env-some d.instana_agent none (env_vars_to_include d) (included-NotOpenTelemetry d) in
    (backend, common, b, c, ground (arith, b, c))
