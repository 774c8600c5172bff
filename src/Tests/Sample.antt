-- ===== src/Tests/Sample.antt =====
-- A small resource.
use instana_agent_operator.Prelude.{Bool, true, false, Option, none, some, [], ◌∷◌}
use instana_agent_operator.Agent.{InstanaAgent, Credentials}
use instana_agent_operator.Builders.Pods.{
  ResourceRequirements, AgentPodSpec, KubernetesPodSpec, unset_affinity,
}

abbrev pub no_credentials : Credentials
no_credentials = record {
  key = "";
  download_key = "";
  proxy_user = "";
  proxy_password = "";
  mirror_release_repo_username = "";
  mirror_release_repo_password = "";
  mirror_shared_repo_username = "";
  mirror_shared_repo_password = "";
}

abbrev pub some_credentials : Credentials
some_credentials = record no_credentials {
  key = "k1";
  proxy_user = "user";
  proxy_password = "secret";
}

abbrev pub no_requirements : ResourceRequirements
no_requirements = record { requests = none; limits = none }

abbrev pub no_pod_spec : AgentPodSpec
no_pod_spec = record {
  annotations = none;
  labels = none;
  tolerations = [];
  affinity = unset_affinity;
  priority_class_name = "";
  resource_requirements = no_requirements;
  node_selector = none;
  volumes = [];
  volume_mounts = [];
  env = [];
  liveness_probe = none;
}

abbrev pub no_sensor_pod_spec : KubernetesPodSpec
no_sensor_pod_spec = record {
  resource_requirements = no_requirements;
  node_selector = none;
  priority_class_name = "";
  tolerations = [];
  affinity = unset_affinity;
}

abbrev pub agent_with : Option Bool → Credentials → InstanaAgent
agent_with mounts credentials = record {
  name = "instana-agent";
  namespace = "ns";
  spec = record {
    use_secret_mounts = mounts;
    agent = record {
      credentials = credentials;
      mode = "";
      keys_secret = "";
      listen_address = "";
      endpoint_host = "host";
      endpoint_port = "443";
      min_ready_seconds = 0;
      additional_backends = [];
      tls = record { secret_name = ""; certificate = ""; key = "" };
      image = record { name = ""; digest = ""; tag = ""; pull_policy = "" };
      pull_secrets = none;
      update_strategy = record { strategy_type = ""; rolling_update = none };
      pod = no_pod_spec;
      proxy_host = "proxy";
      proxy_port = "";
      proxy_protocol = "";
      proxy_use_dns = false;
      env = ("A", "1") ∷ [];
      configuration_yaml = "";
      redact_kubernetes_secrets = "";
      host_repository = "";
      service_mesh_enabled = false;
      mvn_repo_url = "";
      mvn_repo_features_path = "";
      mvn_repo_shared_path = "";
      mirror_release_repo_url = "";
      mirror_shared_repo_url = "";
    };
    cluster_name = "c";
    zone_name = "z";
    open_shift = none;
    rbac_create = none;
    service_create = none;
    service_account_create = none;
    service_account_name = "";
    open_telemetry = record {
      enabled = none;
      grpc = record { enabled = none; port = none };
      http = record { enabled = none; port = some 4000 };
    };
    prometheus_remote_write = none;
    zones = [];
    k8s_sensor = record {
      enabled = none;
      min_ready_seconds = 0;
      replicas = 0;
      pod = no_sensor_pod_spec;
      pod_disruption_budget = none;
      image = record { name = ""; digest = ""; tag = ""; pull_policy = "" };
      etcd = record {
        insecure = none;
        ca = record { mount_path = ""; secret_name = ""; filename = "" };
        targets = [];
      };
      rest_client = record {
        host_allowlist = [];
        ca = record { mount_path = ""; secret_name = ""; filename = "" };
      };
      poll_rate = "";
      crd_monitoring = none;
    };
  };
}

abbrev pub resource : InstanaAgent
resource = agent_with (some true) some_credentials
