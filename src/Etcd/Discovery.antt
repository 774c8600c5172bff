-- ===== src/Etcd/Discovery.antt =====
-- controllers/etcd_discoverer.go and etcd_discovery.go: the search for the service of etcd and for
-- its targets on a cluster that is not OpenShift.
use instana_agent_operator.Prelude.{
  ℕ, String, Bool, true, false, Option, none, some, List, [], ◌∷◌, ◌++◌, ◌==◌, string_comparable,
  if◌then◌else◌,
}
use instana_agent_operator.Prelude.Sort.{sort_by}
use instana_agent_operator.Collections.Maps.{value_at}
use instana_agent_operator.Optional.{string_zero}
use instana_agent_operator.Errors.{Error, text}
use instana_agent_operator.Kube.{GroupVersionKind, ObjectKey, Object}
use instana_agent_operator.Kube.Api.{Cluster}
use instana_agent_operator.Lifecycle.{DependentLifecycleManager}
use instana_agent_operator.Operator.{cluster_is_open_shift}
use instana_agent_operator.Agent.{InstanaAgent}
use instana_agent_operator.Builders.EtcdNames.{etcd_ca_secret_name}
use instana_agent_operator.Builders.Workloads.{Container}
use instana_agent_operator.Etcd.{
  Service, EndpointSlice, EndpointSubset, find_metrics_port_and_scheme,
  build_targets_from_endpoint_slice, legacy_targets,
}

-- What typed reads give, for objects that the other modules see by their metadata alone; and the
-- list of the endpoint slices in kube-system that belong to a service.
pub record TypedReads (W : Type 0) : Type 0 where
  pub service_of : Object → Service
  pub subsets_of : Object → List EndpointSubset
  pub containers_of : Object → List Container
  pub list_endpoint_slices : String → W → Option Error × List EndpointSlice × W

pub record DiscoveredEtcdTargets : Type 0 where
  pub targets : List String
  pub ca_found : Bool

abbrev pub core_gvk : String → GroupVersionKind
core_gvk kind = record { group = ""; version = "v1"; kind = kind }

abbrev pub in_kube_system : String → ObjectKey
in_kube_system name = record { namespace = "kube-system"; name = name }

-- service.Labels != nil && service.Labels[key] == value
abbrev pub has_label : String → String → Service → Bool
has_label key value service = elim service.labels [
  | none ↦ false
  | some labels ↦ value_at key labels == value
]

-- sort.Strings
abbrev pub sort_strings : List String → List String
sort_strings ss = sort_by (λ s. s) ss

-- the loop over the slices
unfoldable pub slices_targets : ℕ → String → List EndpointSlice → List String
slices_targets metrics_port scheme [] = []
slices_targets metrics_port scheme (slice ∷ slices) =
    build_targets_from_endpoint_slice slice metrics_port scheme
    ++ slices_targets metrics_port scheme slices

module _ {W : Type 0} (d : DependentLifecycleManager W) (reads : TypedReads W) where
  -- an error, a service that may be nil, and the cluster after the calls
  abbrev pub Found : Type 0
  Found = Option Error × Option Service × Cluster W

  unfoldable pub get_service_by_name : String → Cluster W → Found
  get_service_by_name name c =
      let (err, obj, c') = d.client.get (core_gvk "Service") (in_kube_system name) c in
      elim err [
        | none ↦ (none, some (reads.service_of obj), c')
        | some e ↦ if d.server.is_not_found e then (none, none, c') else (some e, none, c')
      ]

  unfoldable pub get_service_with_label : String → String → String → Cluster W → Found
  unfolding get_service_by_name
  get_service_with_label name key value c =
      let (err, found, c') = get_service_by_name name c in
      elim err [
        | some e ↦ (some e, found, c')
        | none ↦ elim found [
          | none ↦ (none, none, c')
          | some service ↦
              if has_label key value service then (none, some service, c') else (none, none, c')
        ]
      ]

  -- the next attempt, unless this one failed or found a service
  unfoldable pub or_else : Found → (Cluster W → Found) → Found
  or_else (some e, found, c) next = (some e, none, c)
  or_else (none, some service, c) next = (none, some service, c)
  or_else (none, none, c) next = next c

  unfoldable pub get_first_by_name : List String → Cluster W → Found
  get_first_by_name [] c = (none, none, c)
  get_first_by_name (name ∷ names) c =
      or_else (get_service_by_name name c) (get_first_by_name names)

  unfoldable pub find_etcd_service : Cluster W → Found
  unfolding or_else get_first_by_name
  find_etcd_service c = or_else (get_service_with_label "etcd" "component" "etcd" c) (λ c1.
      or_else (get_service_with_label "etcd-metrics" "component" "etcd" c1)
        (get_first_by_name ("etcd" ∷ "etcd-metrics" ∷ "etcd-k8s" ∷ [])))

  unfoldable pub build_targets_from_legacy_endpoints :
      Service → ℕ → String → Cluster W → Option Error × List String × Cluster W
  build_targets_from_legacy_endpoints service metrics_port scheme c =
      let (err, obj, c') = d.client.get (core_gvk "Endpoints") (in_kube_system service.name) c in
      elim err [
        | none ↦ (none, legacy_targets metrics_port scheme (reads.subsets_of obj), c')
        | some e ↦ if d.server.is_not_found e then (none, [], c') else (some e, [], c')
      ]

  -- the legacy endpoints are read if the slices gave no target
  unfoldable pub build_targets_from_endpoints :
      Service → ℕ → String → Cluster W → Option Error × List String × Cluster W
  unfolding build_targets_from_legacy_endpoints
  build_targets_from_endpoints service metrics_port scheme c =
      let (err, slices, w) = reads.list_endpoint_slices service.name c.world in
      let c' = record c { world = w } in
      let (legacy_err, legacy, c'') =
        build_targets_from_legacy_endpoints service metrics_port scheme c' in
      elim err [
        | some e ↦ (some e, [], c')
        | none ↦ elim (slices_targets metrics_port scheme slices) [
          | [] ↦ elim legacy_err [
            | some e ↦ (some e, [], c'')
            | none ↦ (none, sort_strings legacy, c'')
          ]
          | t ∷ ts ↦ (none, sort_strings (t ∷ ts), c')
        ]
      ]

  unfoldable pub check_ca_secret_exists : InstanaAgent → Cluster W → Bool × Cluster W
  check_ca_secret_exists agent c =
      let (err, _, c') =
        d.client.get (core_gvk "Secret")
          (record { namespace = agent.namespace; name = etcd_ca_secret_name }) c in
      (elim err [ none ↦ true | some e ↦ false ], c')

  unfoldable pub should_skip_discovery : InstanaAgent → Cluster W → Bool × Option Error × Cluster W
  should_skip_discovery agent c =
      let (res, c') = cluster_is_open_shift d agent.spec.open_shift c in
      elim res.err [
        | some e ↦ (false, some (text "failed to determine if cluster is OpenShift"), c')
        | none ↦ if res.res then (true, none, c') else elim agent.spec.k8s_sensor.etcd.targets [
          | [] ↦ (false, none, c')
          | t ∷ ts ↦ (true, none, c')
        ]
      ]

  -- an error, and the targets as a pointer
  abbrev pub Discovered : Type 0
  Discovered = Option Error × Option DiscoveredEtcdTargets × Cluster W

  -- from the targets on
  unfoldable pub discovered_of : InstanaAgent → Option Error × List String × Cluster W → Discovered
  unfolding check_ca_secret_exists
  discovered_of agent (some e, targets, c) = (some e, none, c)
  discovered_of agent (none, [], c) = (none, none, c)
  discovered_of agent (none, t ∷ ts, c) =
      let (found, c') = check_ca_secret_exists agent c in
      (none, some (record { targets = t ∷ ts; ca_found = found }), c')

  -- from the service on
  unfoldable pub discover_from_service : InstanaAgent → Found → Discovered
  unfolding discovered_of
  discover_from_service agent (some e, found, c) = (some e, none, c)
  discover_from_service agent (none, none, c) = (none, none, c)
  discover_from_service agent (none, some service, c) =
      let (port, scheme) = find_metrics_port_and_scheme service in
      elim port [
        | none ↦ (none, none, c)
        | some metrics_port ↦
            discovered_of agent (build_targets_from_endpoints service metrics_port scheme c)
      ]

  unfoldable pub discover_etcd_endpoints : InstanaAgent → Cluster W → Discovered
  unfolding discover_from_service
  discover_etcd_endpoints agent c =
      let (skip, err, c') = should_skip_discovery agent c in
      elim err [
        | some e ↦ (some e, none, c')
        | none ↦
            if skip then (none, none, c') else discover_from_service agent (find_etcd_service c')
      ]
