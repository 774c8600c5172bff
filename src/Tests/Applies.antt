-- ===== src/Tests/Applies.antt =====
-- The reconciliation's step `applyResources` on the small server.
use instana_agent_operator.Prelude.{
  ℕ, String, ◌≡◌, ◌≢◌, refl, Bool, false, Option, none, some, [], ◌∷◌, Memᴰ,
}
use instana_agent_operator.Errors.{build, add_single}
use instana_agent_operator.Kube.{Object}
use instana_agent_operator.Kube.Api.{apply_call, Cluster}
use instana_agent_operator.Kube.Client
use instana_agent_operator.Kube.Client.{
  new_instana_agent_client, delete_all_in_time_limit_fuel, ignore_not_found, verify_deletion,
  with_timeout, objects_exist, do_not_exist, exists,
}
use instana_agent_operator.Collections.{deep_diff, deep_contains_element, conditions_all}
use instana_agent_operator.Lifecycle
use instana_agent_operator.Lifecycle.{
  as_unstructureds, cleanup_dependents, retry, cleanup_attempt, update_dependent_lifecycle_info,
  update_attempt,
}
use instana_agent_operator.Optional.{value_or_default}
use instana_agent_operator.Transform.{apply_builder, add_owner_reference, add_common_labels}
use instana_agent_operator.Operator.{build_objects, apply_objects, apply_all, cluster_is_open_shift}
use instana_agent_operator.Agent.{InstanaAgent, Zone, default}
use instana_agent_operator.Builders.Pods.{unset_affinity}
use instana_agent_operator.Builders.Env.{build_env, built_env_vars, build_env_var, value_of}
use instana_agent_operator.Builders.Ports.{get_container_ports}
use instana_agent_operator.Builders.DaemonSets.{build_daemon_set, agent_env_vars}
use instana_agent_operator.Etcd.Discovery.{
  TypedReads, should_skip_discovery, discover_etcd_endpoints,
}
use instana_agent_operator.Etcd.Context.{create_deployment_context, context_of_discovered}
use instana_agent_operator.Reconcile.{ReconcileReturn, reconcile_continue}
use instana_agent_operator.Reconcile.Persist.{
  daemon_set_gvk, ds_name, get_daemon_set_builders, builders_for_zones, builders_made,
  zone_settings, should_set_persist_host_unique_id_env_var,
}
use instana_agent_operator.Reconcile.Apply.{
  apply_resources, apply_builders, all_builders, get_k8s_sensor_deployments,
}
use instana_agent_operator.Reconcile.Applied.{
  apply_resources-returns, apply_resources-applies_zones,
}
use instana_agent_operator.Tests.Fixture.{manager, start, client_of-KeepsPromises}
use instana_agent_operator.Tests.Sample.{resource}

abbrev zone_a : Zone
zone_a = record { name = "a"; tolerations = []; affinity = unset_affinity; mode = "APM" }

-- one zone, and targets of etcd of the user's own
abbrev zoned_resource : InstanaAgent
zoned_resource = record resource {
  spec = record resource.spec {
    open_shift = some false;
    zones = zone_a ∷ [];
    k8s_sensor = record resource.spec.k8s_sensor {
      etcd = record resource.spec.k8s_sensor.etcd { targets = "http://etcd" ∷ [] };
    };
  };
}

abbrev reads : TypedReads ℕ
reads = record {
  service_of = λ o. record { name = o.name; labels = none; annotations = []; ports = [] };
  subsets_of = λ o. [];
  containers_of = λ o. [];
  list_endpoint_slices = λ name w. (none, [], w);
}

abbrev no_hash : String → String
no_hash s = s

abbrev no_match : String → Bool
no_match s = false

abbrev applied : Option ReconcileReturn × Cluster ℕ
applied =
    apply_resources no_hash no_match manager reads (default zoned_resource) false false none [] []
      start

apply_resources-returns_example : applied.0 ≢ none
apply_resources-returns_example =
    apply_resources-returns no_hash no_match manager reads zoned_resource false false none [] []
      start

applied_test : applied.0 ≡ some reconcile_continue
unfolding apply_resources apply_builders all_builders get_k8s_sensor_deployments
    create_deployment_context context_of_discovered discover_etcd_endpoints should_skip_discovery
    cluster_is_open_shift get_daemon_set_builders builders_for_zones builders_made zone_settings
    should_set_persist_host_unique_id_env_var build_daemon_set agent_env_vars build_env
    built_env_vars build_env_var value_of get_container_ports default apply_all apply_objects
    build_objects apply_builder update_dependent_lifecycle_info update_attempt cleanup_dependents
    retry cleanup_attempt new_instana_agent_client build add_single Lifecycle.delete_all
    delete_all_in_time_limit_fuel Client.delete_all deep_diff deep_contains_element as_unstructureds
    ignore_not_found verify_deletion with_timeout conditions_all objects_exist do_not_exist exists
    value_or_default add_owner_reference add_common_labels
applied_test = refl

apply_resources-applies_zones_example :
    (o : Object) × Memᴰ (apply_call false o) applied.1.calls
    × (o.gvk ≡ daemon_set_gvk)
    × (o.name ≡ ds_name (default zoned_resource) (some zone_a))
    × (o.namespace ≡ (default zoned_resource).namespace)
unfolding default
apply_resources-applies_zones_example =
    apply_resources-applies_zones no_hash no_match manager reads zoned_resource false false none []
      [] start (client_of-KeepsPromises none) (some zone_a) (Memᴰ.head refl) refl applied_test
