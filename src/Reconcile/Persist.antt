-- ===== src/Reconcile/Persist.antt =====
-- controllers/util.go, `isOpenShift` and `shouldSetPersistHostUniqueIDEnvVar`, and
-- `getDaemonSetBuilders` of controllers/apply.go.
use instana_agent_operator.Prelude.{
  String, Bool, true, false, Option, none, some, List, [], ◌∷◌, ◌==◌, string_comparable, any,
  if◌then◌else◌,
}
use instana_agent_operator.Prelude.Text.{◌<>◌}
use instana_agent_operator.Errors.{text}
use instana_agent_operator.Kube.{GroupVersionKind}
use instana_agent_operator.Kube.Api.{Cluster}
use instana_agent_operator.Lifecycle.{DependentLifecycleManager}
use instana_agent_operator.Operator.{cluster_is_open_shift}
use instana_agent_operator.Agent.{InstanaAgent, Zone}
use instana_agent_operator.Builders.{CoreEnvVar}
use instana_agent_operator.Builders.Workloads.{Container}
use instana_agent_operator.Builders.DaemonSets.{DaemonSetBuilder, persist_name}
use instana_agent_operator.Etcd.Discovery.{TypedReads}
use instana_agent_operator.Reconcile.{ReconcileReturn, reconcile_continue, reconcile_failure}

abbrev pub daemon_set_gvk : GroupVersionKind
daemon_set_gvk = record { group = "apps"; version = "v1"; kind = "DaemonSet" }

-- `dsName`
abbrev pub ds_name : InstanaAgent → Option Zone → String
ds_name agent zone = elim zone [ none ↦ agent.name | some z ↦ agent.name <> "-" <> z.name ]

abbrev pub names_persist : List CoreEnvVar → Bool
names_persist envs = any (λ (e : CoreEnvVar). e.name == persist_name) envs

-- whether the agent's container has the variable; `none` if there is no such container
unfoldable pub persist_in : List Container → Option Bool
persist_in [] = none
persist_in (container ∷ containers) =
    let rest = persist_in containers in
    if container.name == "instana-agent" then some (names_persist container.env) else rest

-- the builder of one zone, or of the agent without zones
abbrev pub daemon_set_builder : InstanaAgent → Bool → Option Zone → Bool → DaemonSetBuilder
daemon_set_builder agent is_open_shift zone flag = record {
  instana_agent = agent;
  should_set_persist_host_unique_id_env_var = flag;
  zone = zone;
  is_open_shift = is_open_shift;
}

abbrev pub builders_of : InstanaAgent → Bool → List (Zone × Bool) → List DaemonSetBuilder
builders_of agent is_open_shift [] = []
builders_of agent is_open_shift ((zone, flag) ∷ settings) =
    daemon_set_builder agent is_open_shift (some zone) flag
    ∷ builders_of agent is_open_shift settings

module _ {W : Type 0} (d : DependentLifecycleManager W) (reads : TypedReads W) where
  unfoldable pub is_open_shift : InstanaAgent → Cluster W → Bool × ReconcileReturn × Cluster W
  is_open_shift agent c =
      let (res, c') = cluster_is_open_shift d agent.spec.open_shift c in
      elim res.err [
        | some e ↦ (false, reconcile_failure e, c')
        | none ↦ (res.res, reconcile_continue, c')
      ]

  unfoldable pub should_set_persist_host_unique_id_env_var :
      InstanaAgent → Option Zone → Cluster W → Bool × ReconcileReturn × Cluster W
  should_set_persist_host_unique_id_env_var agent zone c =
      let (err, existing, c') =
        d.client.get daemon_set_gvk
          (record { namespace = agent.namespace; name = ds_name agent zone }) c in
      elim err [
        | some e ↦
            if d.server.is_not_found e
            then (true, reconcile_continue, c')
            else (false, reconcile_failure e, c')
        | none ↦ elim (persist_in (reads.containers_of existing)) [
          | some found ↦ (found, reconcile_continue, c')
          | none ↦ (
            false,
            reconcile_failure
                (text ("instana-agent container not found in DaemonSet " <> ds_name agent zone)),
            c',
          )
        ]
      ]

  -- the loop that collects the settings of all zones before any builder is made
  unfoldable pub zone_settings :
      InstanaAgent → List Zone → Cluster W → List (Zone × Bool) × ReconcileReturn × Cluster W
  zone_settings agent [] c = ([], reconcile_continue, c)
  zone_settings agent (zone ∷ zones) c =
      let (flag, res, c') = should_set_persist_host_unique_id_env_var agent (some zone) c in
      let (settings, res', c'') = zone_settings agent zones c' in
      elim res [
        | some r ↦ ([], some r, c')
        | none ↦ elim res' [
          | some r ↦ ([], some r, c'')
          | none ↦ ((zone, flag) ∷ settings, reconcile_continue, c'')
        ]
      ]

  -- the second loop, once the settings are collected
  unfoldable pub builders_made :
      InstanaAgent
      → Bool
      → List (Zone × Bool) × ReconcileReturn × Cluster W
      → List DaemonSetBuilder × ReconcileReturn × Cluster W
  builders_made agent open_shift (settings, some r, c) = ([], some r, c)
  builders_made agent open_shift (settings, none, c) =
      (builders_of agent open_shift settings, reconcile_continue, c)

  -- the builders for a list of zones
  unfoldable pub builders_for_zones :
      InstanaAgent
      → Bool
      → Bool
      → List Zone
      → Cluster W
      → List DaemonSetBuilder × ReconcileReturn × Cluster W
  unfolding zone_settings builders_made
  builders_for_zones agent open_shift flag [] c =
      (daemon_set_builder agent open_shift none flag ∷ [], reconcile_continue, c)
  builders_for_zones agent open_shift flag (z ∷ zs) c =
      builders_made agent open_shift (zone_settings agent (z ∷ zs) c)

  unfoldable pub get_daemon_set_builders :
      InstanaAgent → Bool → Bool → Cluster W → List DaemonSetBuilder × ReconcileReturn × Cluster W
  unfolding builders_for_zones
  get_daemon_set_builders agent open_shift flag c =
      builders_for_zones agent open_shift flag agent.spec.zones c
