-- ===== src/Builders/DaemonSets/Returns.antt =====
-- That the two workload builders do not follow a nil pointer.
use instana_agent_operator.Prelude.{
  String, ◌≡◌, ◌≢◌, refl, ap, ◌∙◌, Bool, false, Bool-cases, inl, inr, Option, none, some, List, map,
  arith,
}
use instana_agent_operator.Agent.{InstanaAgent, Zone, default}
use instana_agent_operator.Agent.Defaults.{default-IsComplete}
use instana_agent_operator.Builders.{CoreEnvVar}
use instana_agent_operator.Builders.Workloads.{sort_env_vars_by_name}
use instana_agent_operator.Builders.Env.Total.{build_env-some, all-NotOpenTelemetry}
use instana_agent_operator.Builders.Ports.{
  ContainerPort, target_of, targets_of, get_service_ports-IsComplete, get_container_ports-targets,
}
use instana_agent_operator.Builders.Sensor.{DeploymentBuilder, build_deployment, gives_nothing}
use instana_agent_operator.Builders.Sensor.Env.{get_env_vars-parts}
use instana_agent_operator.Builders.DaemonSets.{
  DaemonSetBuilder, base_env_vars, build_daemon_set, daemon_set_with, env_vars_of, env_var_map,
  gives_no_daemon_set,
}
use instana_agent_operator.Builders.DaemonSets.Environment.{agent_env_vars-sorted}

-- `Build` of the k8s sensor returns on every resource.
pub build_deployment-returns :
    (d : DeploymentBuilder) (sha256_hex : String → String) (matches_poll_rate : String → Bool)
    → (build_deployment d sha256_hex matches_poll_rate).0 ≢ none
unfolding build_deployment
build_deployment-returns d sha256_hex matches_poll_rate h =
    let (_, _, _, _, made) = get_env_vars-parts d in
    elim (Bool-cases (gives_nothing d sha256_hex matches_poll_rate)) [
      | inl e ↦ ground (arith, h, e)
      | inr e ↦ ground (arith, h, e, made)
    ]

-- What `Build` gives under its conditions.
pub build_daemon_set-gives :
    (a : InstanaAgent) (flag open_shift : Bool) (z : Option Zone)
    → let d : DaemonSetBuilder = record {
      instana_agent = default a;
      should_set_persist_host_unique_id_env_var = flag;
      zone = z;
      is_open_shift = open_shift;
    } in
      gives_no_daemon_set d ≡ false
      → (envs : List CoreEnvVar) × (ports : List ContainerPort) × ((build_daemon_set d).0
          ≡ some (some (daemon_set_with d envs ports)))
unfolding build_daemon_set
build_daemon_set-gives a flag open_shift z gives =
    let d : DaemonSetBuilder = record {
      instana_agent = default a;
      should_set_persist_host_unique_id_env_var = flag;
      zone = z;
      is_open_shift = open_shift;
    } in
    let otel = (default a).spec.open_telemetry in
    let (base, some_base) =
      build_env-some (default a) z base_env_vars (all-NotOpenTelemetry base_env_vars refl) in
    let made = agent_env_vars-sorted d base some_base in
    let (ports, some_ports) = get_service_ports-IsComplete (default a) (default-IsComplete a) in
    let targets = get_container_ports-targets otel ∙ ap targets_of some_ports in
    (
      sort_env_vars_by_name (env_vars_of (env_var_map d base)),
      map target_of ports,
      ground (arith, gives, made, targets),
    )

-- For a resource that `Default` has completed, `Build` of the agent's DaemonSet returns, whatever
-- the zone and the platform.
pub build_daemon_set-returns :
    (a : InstanaAgent) (flag open_shift : Bool) (z : Option Zone)
    → (build_daemon_set (record {
      instana_agent = default a;
      should_set_persist_host_unique_id_env_var = flag;
      zone = z;
      is_open_shift = open_shift;
    })).0
      ≢ none
unfolding build_daemon_set
build_daemon_set-returns a flag open_shift z h =
    let d : DaemonSetBuilder = record {
      instana_agent = default a;
      should_set_persist_host_unique_id_env_var = flag;
      zone = z;
      is_open_shift = open_shift;
    } in
    elim (Bool-cases (gives_no_daemon_set d)) [
      | inl e ↦ ground (arith, h, e)
      | inr e ↦ ground (arith, h, (build_daemon_set-gives a flag open_shift z e).2)
    ]
