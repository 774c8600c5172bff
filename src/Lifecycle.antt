-- ===== src/Lifecycle.antt =====
-- pkg/k8s/operator/lifecycle: dependent_lifecycle_manager.go and helpers.go. The manager keeps, in
-- a ConfigMap, which objects each generation of the agent had, and deletes those that the current
-- generation no longer has. Log calls are left out.
pub mod Record
pub mod Retries
pub mod Cleanup
pub mod Entries
pub mod Deletes
use mathlib.Core.Option
use instana_agent_operator.Prelude.{
  ℕ, zero, suc, ◌+◌, ◌-◌, ◌*◌, ◌^◌, String, Bool, true, false, not, ◌&&◌, ◌||◌, Option, none, some,
  List, [], ◌∷◌, map, ◌==◌, string_comparable, ltb, if◌then◌else◌,
}
use instana_agent_operator.Prelude.Dict.{Dict, lookup, insert, erase}
use instana_agent_operator.Prelude.Text.{◌<>◌, itoa}
use instana_agent_operator.Collections.{deep_diff, map_to}
use instana_agent_operator.Errors.{Error, MultiErrorBuilder, add_single, build}
use instana_agent_operator.Results.{Result, is_success, on_failure}
use instana_agent_operator.Kube.{
  GroupVersionKind, ObjectKey, Object, Unstructured, unstructured_deep_equality, bare_object,
}
use instana_agent_operator.Kube.Api.{Server, Cluster, nil_or, sleep_for}
use instana_agent_operator.Kube.Client.{InstanaAgentClient}
use instana_agent_operator.Transform.{
  AgentMeta, Transformations, add_common_labels, add_owner_reference,
}

-- encoding/json on lists of unstructured objects; the manager ignores the errors, and uses the
-- slice that `Unmarshal` leaves behind
pub record Codec : Type 0 where
  pub marshal : List Unstructured → String
  pub unmarshal : String → List Unstructured

-- the struct `dependentLifecycleManager`, with the outside code that its methods call
pub record DependentLifecycleManager (W : Type 0) : Type 0 where
  pub server : Server W
  pub client : InstanaAgentClient W
  pub json : Codec
  pub agent : AgentMeta
  pub transformations : Transformations

unfoldable pub as_unstructured : Object → Unstructured
as_unstructured obj = record {
  gvk = obj.gvk;
  name = obj.name;
  namespace = obj.namespace;
  other_content = "";
}

unfoldable pub as_unstructureds : List Object → List Unstructured
unfolding as_unstructured
as_unstructureds [] = []
as_unstructureds (obj ∷ objects) = as_unstructured obj ∷ as_unstructureds objects

-- the deletion looks at no more than the identity
unfoldable pub as_object : Unstructured → Object
as_object u = bare_object u.gvk u.name u.namespace

abbrev pub config_map_gvk : GroupVersionKind
config_map_gvk = record { group = ""; version = "v1"; kind = "ConfigMap" }

abbrev no_gvk : GroupVersionKind
no_gvk = record { group = ""; version = ""; kind = "" }

-- cm.Data, read as a map
abbrev pub data_of : Object → Dict String
data_of cm = elim cm.payload [ none ↦ [] | some m ↦ m ]

-- `retry`. After the last attempt that is not done it returns the variable `err` of the outer
-- scope: the loop's `done, err := fn()` declares another one, so it is still nil.
module _ {W : Type 0} (server : Server W) where
  pub retry_from :
      ℕ
      → ℕ
      → ℕ
      → ℕ
      → (Cluster W → Bool × Option Error × Cluster W)
      → Cluster W
      → Option Error × Cluster W
  retry_from zero i attempts pause fn c = (none, c)
  retry_from (suc left) i attempts pause fn c =
      let (done, err, c') = fn c in
      let rested = if ltb i (attempts - 1) then sleep_for server (pause * 2 ^ i) c' else c' in
      let rest = retry_from left (i + 1) attempts pause fn rested in
      if done then (err, c') else rest

  unfoldable pub retry :
      ℕ → ℕ → (Cluster W → Bool × Option Error × Cluster W) → Cluster W → Option Error × Cluster W
  unfolding retry_from
  retry attempts pause fn c = retry_from attempts 0 attempts pause fn c

  abbrev conflict_message : String → Bool
  conflict_message s =
      not (s == "") && (s == "Operation cannot be fulfilled" || s == "the object has been modified")

  unfoldable pub is_conflict_error : Option Error → Bool
  is_conflict_error none = false
  is_conflict_error (some e) = server.is_conflict e || conflict_message (server.message e)

module _ {W : Type 0} (d : DependentLifecycleManager W) where
  unfoldable pub get_config_map_name : String
  get_config_map_name = d.agent.name <> "-dependents"

  unfoldable pub get_current_gen_key : String
  get_current_gen_key = d.transformations.version <> "_" <> itoa d.agent.generation

  unfoldable pub get_lifecycle_config_map : Cluster W → Option Error × Object × Cluster W
  unfolding get_config_map_name
  get_lifecycle_config_map c =
      d.client.get config_map_gvk
        (record { namespace = d.agent.namespace; name = get_config_map_name }) c

  -- the ConfigMap that an error leaves to `getOrInitializeLifecycleCm`
  initial_config_map : Option Error → Object → Object
  unfolding get_config_map_name
  initial_config_map none cm = cm
  initial_config_map (some e) cm =
      if d.server.is_not_found e
      then bare_object config_map_gvk get_config_map_name d.agent.namespace
      else bare_object no_gvk "" ""

  unfoldable pub get_or_initialize_lifecycle_cm : Cluster W → Object × Cluster W
  unfolding initial_config_map get_lifecycle_config_map
  get_or_initialize_lifecycle_cm c =
      let (err, fetched, c') = get_lifecycle_config_map c in
      let cm = initial_config_map err fetched in (record cm { payload = some (data_of cm) }, c')

  -- lifecycleCm.Data after the current generation is written to it
  unfoldable pub record_generation : List Object → Dict String → Dict String
  unfolding get_current_gen_key
  record_generation objects data' =
      let key = get_current_gen_key in
      let kept : Dict String = elim (lookup key data') [
        | some existing ↦ insert (key <> "-dirty") existing data'
        | none ↦ data'
      ] in
      insert key (d.json.marshal (as_unstructureds objects)) kept

  unfoldable pub updated_config_map : List Object → Object → Object
  unfolding record_generation
  updated_config_map objects cm = add_owner_reference d.transformations (
      add_common_labels d.transformations "instana-agent"
        (record cm { payload = some (record_generation objects (data_of cm)) }))

  -- the closure of `UpdateDependentLifecycleInfo`
  unfoldable pub update_attempt : List Object → Cluster W → Bool × Option Error × Cluster W
  unfolding get_or_initialize_lifecycle_cm updated_config_map
  update_attempt objects c =
      let (cm, c') = get_or_initialize_lifecycle_cm c in
      let (res, c'') = d.client.apply false (updated_config_map objects cm) c' in
      (not (nil_or d.server.is_conflict res.err), res.err, c'')

  unfoldable pub update_dependent_lifecycle_info :
      List Object → Cluster W → Option Error × Cluster W
  update_dependent_lifecycle_info objects c = retry d.server 5 100 (update_attempt objects) c

  -- `deleteAll`, for its error
  unfoldable pub delete_all : List Unstructured → Cluster W → Option Error × Cluster W
  unfolding as_object map_to
  delete_all to_be_deleted c =
      let (res, c') =
        d.client.delete_all_in_time_limit (map_to to_be_deleted as_object) 30000 5000 c in
      (res.err, c')

  -- The loop over lifecycleConfigMap.Data: the entries still to visit, the map itself, and the
  -- errors so far.
  pub cleanup_entries :
      List Unstructured
      → Dict String
      → Dict String
      → MultiErrorBuilder
      → Cluster W
      → Dict String × MultiErrorBuilder × Cluster W
  unfolding get_current_gen_key
  cleanup_entries current [] data' errs c = (data', errs, c)
  cleanup_entries current ((key, json) ∷ entries) data' errs c =
      let (err, c') = delete_all (deep_diff (d.json.unmarshal json) current) c in
      cleanup_entries current entries
        (elim err [
          | none ↦ if key == get_current_gen_key then data' else erase key data'
          | some e ↦ data'
        ])
        (elim err [ none ↦ errs | some e ↦ add_single (some e) errs ]) c'

  -- the closure of `CleanupDependents`
  unfoldable pub cleanup_attempt : List Object → Cluster W → Bool × Option Error × Cluster W
  unfolding get_lifecycle_config_map cleanup_entries on_failure is_conflict_error
  cleanup_attempt current_dependents c =
      let (_, cm, c1) = get_lifecycle_config_map c in
      let (data', errs, c2) =
        cleanup_entries (as_unstructureds current_dependents) (data_of cm) (data_of cm) [] c1 in
      let (res, c3) =
        d.client.apply false (record cm { payload = Option.map (λ _. data') cm.payload }) c2 in
      let err = build (on_failure res add_single errs) in
      (not (is_conflict_error d.server err), err, c3)

  unfoldable pub cleanup_dependents : List Object → Cluster W → Option Error × Cluster W
  cleanup_dependents current_dependents c =
      retry d.server 5 100 (cleanup_attempt current_dependents) c
