-- ===== src/Tests/Targets.antt =====
-- The targets of etcd.
use instana_agent_operator.Prelude.{
  ℕ, String, ◌≢◌, ◌≡◌, ◌↔◌, refl, false, none, some, [], ◌∷◌, Memᴰ,
}
use instana_agent_operator.Prelude.Text.{itoa, ◌<>◌}
use instana_agent_operator.Prelude.Dict.{lookup}
use instana_agent_operator.Etcd.{
  Endpoint, EndpointSlice, Service, slice_port, endpoint_targets, build_targets_from_endpoint_slice,
  find_metrics_port_and_scheme,
}
use instana_agent_operator.Etcd.Ready.{IsSlicePort, Mem-build_targets_iff}

abbrev slice : EndpointSlice
slice = record {
  ports = record { name = some "metrics"; port = some 2381 } ∷ [];
  endpoints =
      record { ready = none; addresses = "10.0.0.1" ∷ [] }
      ∷ record { ready = some false; addresses = "10.0.0.2" ∷ [] }
      ∷ [];
}

build_targets_test :
    build_targets_from_endpoint_slice slice 2379 "http" ≡ "http://10.0.0.1:2381/metrics" ∷ []
unfolding build_targets_from_endpoint_slice slice_port endpoint_targets itoa
build_targets_test = refl

abbrev service : Service
service = record {
  name = "etcd";
  labels = none;
  annotations = [];
  ports = record { name = "client"; port = 2379 } ∷ record { name = "metrics"; port = 2381 } ∷ [];
}

find_metrics_port_test : find_metrics_port_and_scheme service ≡ (some 2381, "http")
unfolding find_metrics_port_and_scheme lookup
find_metrics_port_test = refl

Mem-build_targets_iff_example :
    Memᴰ "http://10.0.0.1:2381/metrics" (build_targets_from_endpoint_slice slice 2379 "http") ↔ (
      (port : ℕ) × (e : Endpoint) × (address : String) × IsSlicePort 2379 slice.ports port
      × Memᴰ e slice.endpoints
      × (e.ready ≢ some false)
      × Memᴰ address e.addresses
      × ("http://10.0.0.1:2381/metrics"
          ≡ "http" <> "://" <> address <> ":" <> itoa port <> "/metrics"))
Mem-build_targets_iff_example =
    Mem-build_targets_iff slice 2379 "http" "http://10.0.0.1:2381/metrics"
