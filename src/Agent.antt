-- ===== src/Agent.antt =====
-- api/v1/instanaagent_types.go and inline_types.go: the InstanaAgent resource, with the fields that
-- the modelled components read, and `Default`. A string type of Go is `String`, bytes too.
pub mod Defaults
use instana_agent_operator.Prelude.{
  ℕ, String, Bool, true, false, not, Option, none, some, List, ◌==◌, string_comparable,
  if◌then◌else◌,
}
use instana_agent_operator.Prelude.Text.{◌<>◌}
use instana_agent_operator.Prelude.Dict.{Dict}
use instana_agent_operator.Builders.Pods.{Toleration, Affinity, AgentPodSpec, KubernetesPodSpec}
use instana_agent_operator.Optional.{value_or_default, string_zero, nat_zero, pointer_zero}

pub record ImageSpec : Type 0 where
  pub name : String
  pub digest : String
  pub tag : String
  pub pull_policy : String

pub record TlsSpec : Type 0 where
  pub secret_name : String
  pub certificate : String
  pub key : String

pub record BackendSpec : Type 0 where
  pub endpoint_host : String
  pub endpoint_port : String
  pub key : String

-- intstr.IntOrString
pub data IntOrString : Type 0 where
  from_int : ℕ → IntOrString
  from_string : String → IntOrString

-- appsv1.DaemonSetUpdateStrategy: the pointer to the rolling update, with its MaxUnavailable
pub record UpdateStrategy : Type 0 where
  pub strategy_type : String
  pub rolling_update : Option (Option IntOrString)

-- the credentials among the fields of `BaseAgentSpec`, which embeds them
pub record Credentials : Type 0 where
  pub key : String
  pub download_key : String
  pub proxy_user : String
  pub proxy_password : String
  pub mirror_release_repo_username : String
  pub mirror_release_repo_password : String
  pub mirror_shared_repo_username : String
  pub mirror_shared_repo_password : String

pub record BaseAgentSpec : Type 0 where
  pub credentials : Credentials
  pub mode : String
  pub keys_secret : String
  pub listen_address : String
  pub endpoint_host : String
  pub endpoint_port : String
  pub min_ready_seconds : ℕ
  pub additional_backends : List BackendSpec
  pub tls : TlsSpec
  pub image : ImageSpec
  pub pull_secrets : Option (List String)
  pub update_strategy : UpdateStrategy
  pub pod : AgentPodSpec
  pub proxy_host : String
  pub proxy_port : String
  pub proxy_protocol : String
  pub proxy_use_dns : Bool
  pub env : Dict String
  pub configuration_yaml : String
  pub redact_kubernetes_secrets : String
  pub host_repository : String
  pub service_mesh_enabled : Bool
  pub mvn_repo_url : String
  pub mvn_repo_features_path : String
  pub mvn_repo_shared_path : String
  pub mirror_release_repo_url : String
  pub mirror_shared_repo_url : String

pub record CaSpec : Type 0 where
  pub mount_path : String
  pub secret_name : String
  pub filename : String

pub record EtcdSpec : Type 0 where
  pub insecure : Option Bool
  pub ca : CaSpec
  pub targets : List String

pub record RestClientSpec : Type 0 where
  pub host_allowlist : List String
  pub ca : CaSpec

pub record K8sSpec : Type 0 where
  pub enabled : Option Bool
  pub min_ready_seconds : ℕ
  pub replicas : ℕ
  pub pod : KubernetesPodSpec
  pub image : ImageSpec
  pub pod_disruption_budget : Option Bool
  pub etcd : EtcdSpec
  pub rest_client : RestClientSpec
  pub poll_rate : String
  pub crd_monitoring : Option Bool

pub record OpenTelemetryPortConfig : Type 0 where
  pub enabled : Option Bool
  pub port : Option ℕ

pub record OpenTelemetry : Type 0 where
  pub enabled : Option Bool
  pub grpc : OpenTelemetryPortConfig
  pub http : OpenTelemetryPortConfig

pub record Zone : Type 0 where
  pub name : String
  pub tolerations : List Toleration
  pub affinity : Affinity
  pub mode : String

pub record InstanaAgentSpec : Type 0 where
  pub use_secret_mounts : Option Bool
  pub agent : BaseAgentSpec
  pub cluster_name : String
  pub zone_name : String
  pub open_shift : Option Bool
  pub rbac_create : Option Bool
  pub service_create : Option Bool
  pub service_account_create : Option Bool
  pub service_account_name : String
  pub open_telemetry : OpenTelemetry
  pub prometheus_remote_write : Option Bool
  pub k8s_sensor : K8sSpec
  pub zones : List Zone

pub record InstanaAgent : Type 0 where
  pub name : String
  pub namespace : String
  pub spec : InstanaAgentSpec

-- `Image`
abbrev pub image_name : ImageSpec → String
image_name i =
    if not (i.digest == "")
    then i.name <> "@" <> i.digest
    else if not (i.tag == "")
    then i.name <> ":" <> i.tag
    else i.name

abbrev pub default_image : String → ImageSpec → ImageSpec
default_image name i = record i {
  name = value_or_default i.name name;
  tag = value_or_default i.tag "latest";
  pull_policy = value_or_default i.pull_policy "Always";
}

-- the third line reads the pointer that the second line has made non-nil
abbrev pub default_rolling_update : Option (Option IntOrString) → Option (Option IntOrString)
default_rolling_update none = some (some (from_int 1))
default_rolling_update (some max) = some (value_or_default max (some (from_int 1)))

abbrev default_open_telemetry : OpenTelemetry → OpenTelemetry
default_open_telemetry o =
    let enabled = value_or_default o.enabled (some true) in
    record {
      enabled = enabled;
      grpc = record o.grpc { enabled = value_or_default o.grpc.enabled enabled };
      http = record o.http { enabled = value_or_default o.http.enabled enabled };
    }

abbrev default_base : BaseAgentSpec → BaseAgentSpec
default_base a = record a {
  endpoint_host = value_or_default a.endpoint_host "ingress-red-saas.instana.io";
  endpoint_port = value_or_default a.endpoint_port "443";
  image = default_image "icr.io/instana/agent" a.image;
  update_strategy = record {
    strategy_type = value_or_default a.update_strategy.strategy_type "RollingUpdate";
    rolling_update = default_rolling_update a.update_strategy.rolling_update;
  };
}

abbrev default_k8s_sensor : K8sSpec → K8sSpec
default_k8s_sensor k = record k {
  image = default_image "icr.io/instana/k8sensor" k.image;
  replicas = value_or_default k.replicas 3;
  etcd = record k.etcd {
    insecure = value_or_default k.etcd.insecure (some false);
    ca = record k.etcd.ca {
      mount_path =
          value_or_default k.etcd.ca.mount_path "/var/run/secrets/kubernetes.io/serviceaccount";
    };
  };
  poll_rate = value_or_default k.poll_rate "10s";
}

-- `Default`
unfoldable pub default : InstanaAgent → InstanaAgent
default agent = record agent {
  spec = record agent.spec {
    agent = default_base agent.spec.agent;
    rbac_create = value_or_default agent.spec.rbac_create (some true);
    service_create = value_or_default agent.spec.service_create (some true);
    service_account_create = value_or_default agent.spec.service_account_create (some true);
    k8s_sensor = default_k8s_sensor agent.spec.k8s_sensor;
    open_telemetry = default_open_telemetry agent.spec.open_telemetry;
    use_secret_mounts = value_or_default agent.spec.use_secret_mounts (some true);
  };
}
