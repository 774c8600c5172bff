-- ===== src/Etcd.antt =====
-- controllers/etcd_discoverer.go: the metrics port of a service, and the targets that are built
-- from endpoint slices and from legacy endpoints. A port is a positive int32. Log calls are left out
-- here and in the modules below.
pub mod Ready
pub mod Discovery
pub mod Copies
pub mod Context
pub mod Compared
pub mod Copied
pub mod Forgets
use instana_agent_operator.Prelude.{
  ℕ, String, Bool, true, false, not, Option, none, some, List, [], ◌∷◌, ◌++◌, map, ◌==◌,
  nat_comparable, string_comparable, if◌then◌else◌,
}
use instana_agent_operator.Prelude.Dict.{Dict, lookup}
use instana_agent_operator.Prelude.Text.{◌<>◌, itoa}
use instana_agent_operator.Optional.{deref_or_default}

-- corev1.ServicePort and corev1.EndpointPort: the name and the port
pub record NamedPort : Type 0 where
  pub name : String
  pub port : ℕ

-- corev1.Service
pub record Service : Type 0 where
  pub name : String
  pub labels : Option (Dict String)
  pub annotations : Dict String
  pub ports : List NamedPort

-- discoveryv1.EndpointPort, of two pointers
pub record SlicePort : Type 0 where
  pub name : Option String
  pub port : Option ℕ

-- discoveryv1.Endpoint: the condition Ready is a pointer
pub record Endpoint : Type 0 where
  pub ready : Option Bool
  pub addresses : List String

-- discoveryv1.EndpointSlice
pub record EndpointSlice : Type 0 where
  pub ports : List SlicePort
  pub endpoints : List Endpoint

-- corev1.EndpointSubset: the IPs of its addresses and its ports
pub record EndpointSubset : Type 0 where
  pub addresses : List String
  pub ports : List NamedPort

-- https but for the port of plain HTTP, unless an annotation says otherwise
abbrev scheme_of : Service → ℕ → String
scheme_of service port = elim (lookup "instana.io/etcd-scheme" service.annotations) [
  | none ↦ if port == 2379 then "https" else if port == 2381 then "http" else "https"
  | some scheme_override ↦ scheme_override
]

-- the loop of `FindMetricsPortAndScheme`
find_metrics_port_from : Service → List NamedPort → Option ℕ × String
find_metrics_port_from service [] = (none, "")
find_metrics_port_from service (p ∷ ports) =
    let rest = find_metrics_port_from service ports in
    if p.name == "metrics" then (some p.port, scheme_of service p.port) else rest

unfoldable pub find_metrics_port_and_scheme : Service → Option ℕ × String
unfolding find_metrics_port_from
find_metrics_port_and_scheme service = find_metrics_port_from service service.ports

-- fmt.Sprintf("%s://%s:%d/metrics", scheme, address, port)
abbrev pub target : String → ℕ → String → String
target scheme port address = scheme <> "://" <> address <> ":" <> itoa port <> "/metrics"

-- the first port named metrics that has a number
unfoldable pub slice_port : ℕ → List SlicePort → ℕ
slice_port metrics_port [] = metrics_port
slice_port metrics_port (p ∷ ports) =
    let rest = slice_port metrics_port ports in
    elim p.name [
      | none ↦ rest
      | some name ↦
          if name == "metrics" then elim p.port [ none ↦ rest | some port ↦ port ] else rest
    ]

-- endpoint.Conditions.Ready != nil && !*endpoint.Conditions.Ready does not hold
abbrev pub is_ready : Endpoint → Bool
is_ready e = deref_or_default e.ready true

-- the loop over the endpoints
unfoldable pub endpoint_targets : String → ℕ → List Endpoint → List String
endpoint_targets scheme port [] = []
endpoint_targets scheme port (e ∷ endpoints) =
    let rest = endpoint_targets scheme port endpoints in
    if not (is_ready e) then rest else map (target scheme port) e.addresses ++ rest

unfoldable pub build_targets_from_endpoint_slice : EndpointSlice → ℕ → String → List String
build_targets_from_endpoint_slice slice metrics_port scheme =
    endpoint_targets scheme (slice_port metrics_port slice.ports) slice.endpoints

-- the port of a subset
unfoldable pub subset_port : ℕ → List NamedPort → ℕ
subset_port metrics_port [] = metrics_port
subset_port metrics_port (p ∷ ports) =
    let rest = subset_port metrics_port ports in if p.name == "metrics" then p.port else rest

-- the loop of `BuildTargetsFromLegacyEndpoints`
unfoldable pub legacy_targets : ℕ → String → List EndpointSubset → List String
legacy_targets metrics_port scheme [] = []
legacy_targets metrics_port scheme (s ∷ subsets) =
    map (target scheme (subset_port metrics_port s.ports)) s.addresses
    ++ legacy_targets metrics_port scheme subsets
