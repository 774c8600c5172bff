-- ===== src/Tests/Lifecycles.antt =====
-- The lifecycle manager and the operator utilities on the small server.
use instana_agent_operator.Prelude.{
  String, ◌≡◌, ◌⊎◌, refl, true, false, none, some, List, [], ◌∷◌, Memᴰ, ◌==◌, string_comparable,
  if◌then◌else◌,
}
use instana_agent_operator.Prelude.Dict.{Dict, lookup}
use instana_agent_operator.Optional.{optional_of}
use instana_agent_operator.Errors.{ext, multi_error, build, add_single}
use instana_agent_operator.Kube.Api.{SendsOnly}
use instana_agent_operator.Lifecycle
use instana_agent_operator.Kube.Client
use instana_agent_operator.Collections.{deep_diff, deep_contains_element, conditions_all}
use instana_agent_operator.Kube.Client.{
  new_instana_agent_client, delete_all_in_time_limit_fuel, ignore_not_found, verify_deletion,
  with_timeout, objects_exist, do_not_exist, exists,
}
use instana_agent_operator.Lifecycle.{
  cleanup_attempt, is_conflict_error, as_unstructured, as_unstructureds, get_current_gen_key,
  get_lifecycle_config_map, record_generation, cleanup_entries, cleanup_dependents,
  update_dependent_lifecycle_info, retry, update_attempt,
}
use instana_agent_operator.Lifecycle.Record.{dirty_key, dirty_value, lookup-record_generation}
use instana_agent_operator.Lifecycle.Retries.{cleanup-ne-conflict, update-nil_of_conflicts}
use instana_agent_operator.Lifecycle.Cleanup.{
  Spares, KeepsIdentities, delete_of, cleanup_dependents-SendsOnly,
}
use instana_agent_operator.Lifecycle.Deletes.{cleanup_dependents-deletes}
use instana_agent_operator.Lifecycle.Entries.{IsDropped, lookup-cleanup_entries}
use instana_agent_operator.Transform.{ObjectBuilder, apply_builder}
use instana_agent_operator.Operator.{build_objects, apply_objects, apply_all}
use instana_agent_operator.Operator.Laws.{
  apply_all-dry_run_failed, KeepsIdentity, IsApply, apply_all-SendsOnly,
}
use instana_agent_operator.Tests.Fixture.{
  client_of-KeepsPromises, start, manager, manager_of, current_object, old_dependent,
}

abbrev builders : List ObjectBuilder
builders =
    record {
      build = optional_of (some current_object);
      component_name = "instana-agent";
      is_namespaced = true;
    }
    ∷ []

abbrev stored : Dict String
stored = ("v1_1", "[old]") ∷ []

lookup-record_generation_example : lookup "v1_1" (record_generation manager [] stored) ≡ (
    if get_current_gen_key manager == "v1_1"
    then some "[new]"
    else if dirty_key manager == "v1_1"
    then dirty_value manager stored
    else lookup "v1_1" stored)
lookup-record_generation_example = lookup-record_generation manager [] stored "v1_1"

-- every apply conflicts, and the result is nil
update-nil_of_conflicts_example :
    (update_dependent_lifecycle_info (manager_of (some (ext "Conflict"))) [] start).0 ≡ none
unfolding new_instana_agent_client
update-nil_of_conflicts_example =
    update-nil_of_conflicts (manager_of (some (ext "Conflict"))) [] start (λ o at. refl)

update_fails :
    (update_dependent_lifecycle_info (manager_of (some (ext "Forbidden"))) [] start).0
    ≡ some (ext "Forbidden")
unfolding update_dependent_lifecycle_info retry update_attempt new_instana_agent_client
update_fails = refl

-- what a run of the manager computes with
unfoldable pub manager_runs : Unit {0}
unfolding cleanup_dependents retry cleanup_attempt new_instana_agent_client build add_single
    Lifecycle.delete_all delete_all_in_time_limit_fuel Client.delete_all deep_diff
    deep_contains_element as_unstructureds ignore_not_found verify_deletion with_timeout
    conditions_all objects_exist do_not_exist exists apply_objects build_objects apply_builder
manager_runs = tt

cleanup_fails :
    (cleanup_dependents (manager_of (some (ext "Forbidden"))) [] start).0
    ≡ some (multi_error (ext "Forbidden"))
unfolding manager_runs
cleanup_fails = refl

cleanup-ne-conflict_example :
    is_conflict_error
      (manager_of (some (ext "Forbidden"))).server
      (some (multi_error (ext "Forbidden")))
    ≡ false
cleanup-ne-conflict_example =
    cleanup-ne-conflict (manager_of (some (ext "Forbidden"))) [] start
      (multi_error (ext "Forbidden")) cleanup_fails

manager-KeepsIdentities : KeepsIdentities manager
unfolding get_lifecycle_config_map new_instana_agent_client
manager-KeepsIdentities = record { holds = λ c. ((refl, tt), tt) }

cleanup_dependents-SendsOnly_example :
    SendsOnly
      (Spares (as_unstructureds (current_object ∷ [])))
      start
      (cleanup_dependents manager (current_object ∷ []) start).1
cleanup_dependents-SendsOnly_example =
    cleanup_dependents-SendsOnly manager (client_of-KeepsPromises none) manager-KeepsIdentities
      (current_object ∷ []) start

cleanup_dependents-deletes_example :
    Memᴰ (delete_of old_dependent) (cleanup_dependents manager [] start).1.calls
unfolding get_lifecycle_config_map new_instana_agent_client as_unstructureds
cleanup_dependents-deletes_example =
    cleanup_dependents-deletes manager (client_of-KeepsPromises none) [] start "v1_1" "[old]"
      old_dependent (Memᴰ.head refl) (Memᴰ.head refl) (λ m. elim m [ ])

lookup-cleanup_entries_example :
    (lookup "v1_1" (cleanup_entries manager [] stored stored [] start).0 ≡ lookup "v1_1" stored)
    ⊎ ((lookup "v1_1" (cleanup_entries manager [] stored stored [] start).0 ≡ none)
        × IsDropped manager [] stored start "v1_1")
lookup-cleanup_entries_example = lookup-cleanup_entries manager [] stored stored [] start "v1_1"

manager-KeepsIdentity : KeepsIdentity manager (client_of-KeepsPromises none)
unfolding new_instana_agent_client as_unstructured
manager-KeepsIdentity = record { same = λ dry o c. refl }

apply_all-SendsOnly_example :
    SendsOnly
      (Spares (as_unstructureds (build_objects manager builders)))
      start
      (apply_all manager builders start).1
apply_all-SendsOnly_example =
    apply_all-SendsOnly manager (client_of-KeepsPromises none) manager-KeepsIdentity
      manager-KeepsIdentities builders start

dry_run_fails :
    (apply_objects
      (manager_of (some (ext "Forbidden")))
      true
      (build_objects (manager_of (some (ext "Forbidden"))) builders)
      start).0
    ≡ some (multi_error (ext "Forbidden"))
unfolding manager_runs
dry_run_fails = refl

apply_all-dry_run_failed_example :
    ((apply_all (manager_of (some (ext "Forbidden"))) builders start).0
      ≡ some (multi_error (ext "Forbidden")))
    × SendsOnly
        (IsApply true)
        start
        (apply_all (manager_of (some (ext "Forbidden"))) builders start).1
apply_all-dry_run_failed_example =
    apply_all-dry_run_failed (manager_of (some (ext "Forbidden")))
      (client_of-KeepsPromises (some (ext "Forbidden"))) builders start
      (multi_error (ext "Forbidden")) dry_run_fails
