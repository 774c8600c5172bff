-- ===== src/Builders.antt =====
-- pkg/k8s/object/builders: the types of k8s.io/api/core/v1 that the builders fill, and
-- common/constants.
pub mod Configs
pub mod Containers
pub mod Pods
pub mod Labels
pub mod Helpers
pub mod Env
pub mod Ports
pub mod Volumes
pub mod Secrets
pub mod EtcdNames
pub mod Workloads
pub mod Sensor
pub mod DaemonSets
use instana_agent_operator.Prelude.{ℕ, String, Bool, Option, List}

-- corev1.EnvVarSource: one of its pointers is set
pub data EnvVarSource : Type 0 where
  -- ConfigMapKeyRef: the name and the key
  config_map_key_ref : String → String → EnvVarSource
  -- SecretKeyRef: the name, the key and Optional
  secret_key_ref : String → String → Option Bool → EnvVarSource
  -- FieldRef: the field path
  field_ref : String → EnvVarSource

-- corev1.EnvVar
pub record CoreEnvVar : Type 0 where
  pub name : String
  pub value : String
  pub value_from : Option EnvVarSource

-- corev1.KeyToPath
pub record KeyToPath : Type 0 where
  pub key : String
  pub path : String

-- corev1.VolumeSource: one of its pointers is set
pub data VolumeSource : Type 0 where
  -- HostPath: the path and the type
  host_path : String → Option String → VolumeSource
  -- Secret and ConfigMap: the name, the items and the default mode
  secret_source : String → List KeyToPath → ℕ → VolumeSource
  -- Secret with no default mode
  secret_source_plain : String → List KeyToPath → VolumeSource
  config_map_source : String → List KeyToPath → ℕ → VolumeSource

-- corev1.Volume
pub record CoreVolume : Type 0 where
  pub name : String
  pub source : VolumeSource

-- corev1.VolumeMount
pub record CoreVolumeMount : Type 0 where
  pub name : String
  pub mount_path : String
  pub mount_propagation : Option String
  pub read_only : Bool

-- common/constants/constants.go
abbrev pub agent_key : String
agent_key = "key"

abbrev pub download_key_name : String
download_key_name = "downloadKey"

abbrev pub backend_key : String
backend_key = "backend"

abbrev pub instana_config_directory : String
instana_config_directory = "/opt/instana/agent/etc/instana-config-yml"

abbrev pub instana_namespaces_details_directory : String
instana_namespaces_details_directory = "/opt/instana/agent/etc/namespaces"

abbrev pub instana_namespaces_details_file_name : String
instana_namespaces_details_file_name = "namespaces.yaml"

abbrev pub instana_secrets_directory : String
instana_secrets_directory = "/opt/instana/agent/etc/instana/secrets"

-- the names of the files in the directory of secrets
abbrev pub secret_file_agent_key : String
secret_file_agent_key = "INSTANA_AGENT_KEY"

abbrev pub secret_file_download_key : String
secret_file_download_key = "INSTANA_DOWNLOAD_KEY"

abbrev pub secret_file_proxy_user : String
secret_file_proxy_user = "INSTANA_AGENT_PROXY_USER"

abbrev pub secret_file_proxy_password : String
secret_file_proxy_password = "INSTANA_AGENT_PROXY_PASSWORD"

abbrev pub secret_file_mirror_release_repo_username : String
secret_file_mirror_release_repo_username = "AGENT_RELEASE_REPOSITORY_MIRROR_USERNAME"

abbrev pub secret_file_mirror_release_repo_password : String
secret_file_mirror_release_repo_password = "AGENT_RELEASE_REPOSITORY_MIRROR_PASSWORD"

abbrev pub secret_file_mirror_shared_repo_username : String
secret_file_mirror_shared_repo_username = "INSTANA_SHARED_REPOSITORY_MIRROR_USERNAME"

abbrev pub secret_file_mirror_shared_repo_password : String
secret_file_mirror_shared_repo_password = "INSTANA_SHARED_REPOSITORY_MIRROR_PASSWORD"

abbrev pub secret_file_https_proxy : String
secret_file_https_proxy = "HTTPS_PROXY"

abbrev pub secret_key_https_proxy : String
secret_key_https_proxy = "httpsProxy"
