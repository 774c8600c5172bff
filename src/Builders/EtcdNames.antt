-- ===== src/Builders/EtcdNames.antt =====
-- common/constants/etcd.go.
use instana_agent_operator.Prelude.{String}
use instana_agent_operator.Prelude.Text.{◌<>◌, itoa}

abbrev pub etcd_ca_secret_name : String
etcd_ca_secret_name = "etcd-ca"

abbrev pub env_etcd_targets : String
env_etcd_targets = "ETCD_TARGETS"

abbrev pub env_etcd_ca_file : String
env_etcd_ca_file = "ETCD_CA_FILE"

abbrev pub env_etcd_cert_file : String
env_etcd_cert_file = "ETCD_CERT_FILE"

abbrev pub env_etcd_key_file : String
env_etcd_key_file = "ETCD_KEY_FILE"

abbrev pub env_etcd_metrics_url : String
env_etcd_metrics_url = "ETCD_METRICS_URL"

abbrev pub env_etcd_request_timeout : String
env_etcd_request_timeout = "ETCD_REQUEST_TIMEOUT"

abbrev pub etcd_ca_mount_path : String
etcd_ca_mount_path = "/var/run/secrets/etcd"

abbrev pub etcd_metrics_ca_bundle_name : String
etcd_metrics_ca_bundle_name = "etcd-ca-bundle"

abbrev pub etcd_metric_client_secret_name : String
etcd_metric_client_secret_name = "etcd-client"

abbrev pub etcd_namespace : String
etcd_namespace = "openshift-etcd"

abbrev pub etcd_metrics_ca_mount_path : String
etcd_metrics_ca_mount_path = "/etc/etcd-metrics-ca"

abbrev pub etcd_client_cert_mount_path : String
etcd_client_cert_mount_path = "/etc/etcd-client"

abbrev pub etcd_ca_bundle_file_name : String
etcd_ca_bundle_file_name = "ca-bundle.crt"

abbrev pub etcd_client_cert_file_name : String
etcd_client_cert_file_name = "tls.crt"

abbrev pub etcd_client_key_file_name : String
etcd_client_key_file_name = "tls.key"

abbrev pub container_k8_sensor : String
container_k8_sensor = "instana-agent"

-- `GetETCDOCPMetricsURL`
abbrev pub get_etcd_ocp_metrics_url : String
get_etcd_ocp_metrics_url =
    "https://etcd.openshift-etcd.svc.cluster.local:" <> itoa 9978 <> "/metrics"
