-- ===== src/Builders/Ports.antt =====
-- common/ports: instana_agent_port_config.go and ports_builder.go. A port is an int32 that the
-- schema keeps positive; `none` says that the code follows a nil pointer and panics.
use instana_agent_operator.Prelude.{
  ℕ, String, ◌≡◌, Bool, false, Option, none, some, List, [], ◌∷◌, ◌++◌, map, arith, if◌then◌else◌,
  inl, inr, Option-cases,
}
use instana_agent_operator.Optional.{deref_or_default}
use instana_agent_operator.Agent.{InstanaAgent, OpenTelemetry, OpenTelemetryPortConfig}
use instana_agent_operator.Agent.Defaults.{IsComplete}

pub record InstanaAgentPortConfig : Type 0 where
  pub name : String
  pub port : ℕ

-- corev1.ServicePort
pub record ServicePort : Type 0 where
  pub name : String
  pub protocol : String
  pub port : ℕ
  pub target_port : ℕ

-- corev1.ContainerPort
pub record ContainerPort : Type 0 where
  pub name : String
  pub container_port : ℕ
  pub protocol : String

abbrev pub instana_agent_api_port_config : InstanaAgentPortConfig
instana_agent_api_port_config = record { name = "agent-apis"; port = 42699 }

abbrev open_telemetry_legacy_port_config : InstanaAgentPortConfig
open_telemetry_legacy_port_config = record { name = "otlp-legacy"; port = 55680 }

abbrev default_open_telemetry_grpc_port_config : InstanaAgentPortConfig
default_open_telemetry_grpc_port_config = record { name = "otlp-grpc"; port = 4317 }

abbrev default_open_telemetry_http_port_config : InstanaAgentPortConfig
default_open_telemetry_http_port_config = record { name = "otlp-http"; port = 4318 }

abbrev pub as_service_port : InstanaAgentPortConfig → ServicePort
as_service_port i = record { name = i.name; protocol = "TCP"; port = i.port; target_port = i.port }

abbrev pub as_container_port : InstanaAgentPortConfig → ContainerPort
as_container_port i = record { name = i.name; container_port = i.port; protocol = "TCP" }

-- the default with the port number of the configuration, if it has one
abbrev pub configured : InstanaAgentPortConfig → OpenTelemetryPortConfig → InstanaAgentPortConfig
configured default_config c = elim c.port [
  | none ↦ default_config
  | some p ↦ record default_config { port = p }
]

-- p.otel.Enabled.Enabled != nil && *p.otel.Enabled.Enabled != false
abbrev pub otel_enabled : OpenTelemetry → Bool
otel_enabled otel = deref_or_default otel.enabled false

unfoldable pub get_service_ports : OpenTelemetry → Option (List ServicePort)
get_service_ports otel =
    let api = as_service_port instana_agent_api_port_config ∷ [] in
    if otel_enabled otel
    then elim otel.grpc.enabled [
      | none ↦ none
      | some grpc ↦
          let grpc_port = configured default_open_telemetry_grpc_port_config otel.grpc in
          let ports =
            if grpc
            then api
              ++ as_service_port grpc_port ∷ as_service_port open_telemetry_legacy_port_config ∷ []
            else api in
          elim otel.http.enabled [
            | none ↦ none
            | some http ↦
                let http_port = configured default_open_telemetry_http_port_config otel.http in
                some (if http then ports ++ as_service_port http_port ∷ [] else ports)
          ]
    ]
    else some api

unfoldable pub get_container_ports : OpenTelemetry → Option (List ContainerPort)
get_container_ports otel =
    let api = as_container_port instana_agent_api_port_config ∷ [] in
    if otel_enabled otel
    then elim otel.grpc.enabled [
      | none ↦ none
      | some grpc ↦
          let grpc_port = configured default_open_telemetry_grpc_port_config otel.grpc in
          let ports =
            if grpc
            then api
              ++ as_container_port grpc_port
                ∷ as_container_port open_telemetry_legacy_port_config
                ∷ []
            else api in
          elim otel.http.enabled [
            | none ↦ none
            | some http ↦
                let http_port = configured default_open_telemetry_http_port_config otel.http in
                some (if http then ports ++ as_container_port http_port ∷ [] else ports)
          ]
    ]
    else some api

-- The container port that a service port leads to.
abbrev pub target_of : ServicePort → ContainerPort
target_of p = record { name = p.name; container_port = p.target_port; protocol = p.protocol }

-- the targets of a list that may not be built
abbrev pub targets_of : Option (List ServicePort) → Option (List ContainerPort)
targets_of none = none
targets_of (some ports) = some (map target_of ports)

-- The two lists agree on every configuration: the container's ports are the targets of the
-- service's ports, in order, and one list fails exactly if the other does.
pub get_container_ports-targets :
    (otel : OpenTelemetry) → get_container_ports otel ≡ targets_of (get_service_ports otel)
unfolding get_service_ports get_container_ports
get_container_ports-targets otel = ground arith

-- For a resource whose OpenTelemetry switches are not nil, as after `Default`, building the ports
-- does not follow a nil pointer.
pub get_service_ports-IsComplete :
    (a : InstanaAgent)
    → IsComplete a
    → (ports : List ServicePort) × (get_service_ports a.spec.open_telemetry ≡ some ports)
unfolding get_service_ports
get_service_ports-IsComplete a h = elim (Option-cases (get_service_ports a.spec.open_telemetry)) [
  | inl e ↦ ground (arith, e, h.otel.1, h.grpc.1, h.http.1)
  | inr found ↦ found
]
