-- ===== src/Builders/Volumes/Single.antt =====
-- common/volume/volume_builder.go: the functions that make one volume with its mount, each of which
-- may be nil.
use instana_agent_operator.Prelude.{
  ℕ, String, Bool, true, false, not, Option, none, some, List, [], ◌∷◌, if◌then◌else◌,
}
use instana_agent_operator.Prelude.Text.{◌<>◌}
use instana_agent_operator.Optional.{deref_or_default}
use instana_agent_operator.Agent.{InstanaAgent, CaSpec}
use instana_agent_operator.Builders.{
  CoreVolume, CoreVolumeMount, KeyToPath, VolumeSource, host_path, secret_source, config_map_source,
  agent_key, instana_config_directory, instana_namespaces_details_directory,
  instana_secrets_directory, secret_file_agent_key, secret_file_https_proxy, secret_key_https_proxy,
}
use instana_agent_operator.Builders.Helpers.{is_set, tls_is_enabled, tls_secret_name}

-- `volumeBuilder`
pub record VolumeBuilder : Type 0 where
  pub instana_agent : InstanaAgent
  pub is_open_shift : Bool
  pub backend_resource_suffix : String

abbrev pub VolumeWithMount : Type 0
VolumeWithMount = Option CoreVolume × Option CoreVolumeMount

abbrev pub absent : VolumeWithMount
absent = (none, none)

-- the volume and the mount of a source; the mounts of all but host paths have no propagation
abbrev pub mounted : String → VolumeSource → String → Bool → VolumeWithMount
mounted name source path read_only = (
  some (record { name = name; source = source }),
  some (record { name = name; mount_path = path; mount_propagation = none; read_only = read_only }),
)

-- the modes 0440 and 0400
abbrev group_readable : ℕ
group_readable = 288

abbrev owner_readable : ℕ
owner_readable = 256

abbrev pub host_volume_with_mount :
    String → String → Option String → Option String → VolumeWithMount
host_volume_with_mount name path mount_propagation_mode host_path_type = (
  some (record { name = name; source = host_path path host_path_type }),
  some (record {
    name = name;
    mount_path = path;
    mount_propagation = mount_propagation_mode;
    read_only = false;
  }),
)

abbrev pub host_volume_with_mount_literal_when_condition :
    Bool → String → String → Option String → Option String → VolumeWithMount
host_volume_with_mount_literal_when_condition condition name path mode type' =
    if condition then host_volume_with_mount name path mode type' else absent

-- filename, with its default
abbrev ca_filename : CaSpec → String
ca_filename ca = if not (is_set ca.filename) then "ca.crt" else ca.filename

-- a CA file of a Secret that the resource names
abbrev ca_volume : String → CaSpec → VolumeWithMount
ca_volume name ca =
    mounted name
      (secret_source ca.secret_name (record { key = ca_filename ca; path = "ca.crt" } ∷ [])
        group_readable)
      ca.mount_path true

module _ (v : VolumeBuilder) where
  abbrev pub config_volume_with_mount : VolumeWithMount
  config_volume_with_mount =
      mounted "config" (secret_source (v.instana_agent.name <> "-config") [] group_readable)
        instana_config_directory false

  abbrev pub namespaces_details_volume_with_mount : VolumeWithMount
  namespaces_details_volume_with_mount =
      mounted "namespaces-details"
        (config_map_source (v.instana_agent.name <> "-namespaces") [] group_readable)
        instana_namespaces_details_directory false

  abbrev pub tls_volume_with_mount : VolumeWithMount
  tls_volume_with_mount =
      if not (tls_is_enabled v.instana_agent)
      then absent
      else mounted "instana-agent-tls"
          (secret_source (tls_secret_name v.instana_agent) [] group_readable)
          "/opt/instana/agent/etc/certs" true

  abbrev pub repo_volume_with_mount : VolumeWithMount
  repo_volume_with_mount =
      let repository = v.instana_agent.spec.agent.host_repository in
      if not (is_set repository)
      then absent
      else mounted "repo" (host_path repository none) "/opt/instana/agent/data/repo" false

  -- UseSecretMounts != nil && !*UseSecretMounts
  abbrev secret_mounts_disabled : Bool
  secret_mounts_disabled = not (deref_or_default v.instana_agent.spec.use_secret_mounts true)

  abbrev secret_name : String
  secret_name =
      let keys_secret = v.instana_agent.spec.agent.keys_secret in
      if not (is_set keys_secret) then v.instana_agent.name else keys_secret

  -- `items` of `k8sensorSecretsVolume`
  unfoldable pub k8_sensor_items : List KeyToPath
  k8_sensor_items =
      let external = is_set v.instana_agent.spec.agent.keys_secret in
      let suffix = v.backend_resource_suffix in
      let agent_key_item : KeyToPath = record {
        key = (if external then agent_key else secret_file_agent_key) <> suffix;
        path = secret_file_agent_key <> suffix;
      } in
      let proxy_item : KeyToPath = record {
        key = if external then secret_key_https_proxy else secret_file_https_proxy;
        path = secret_file_https_proxy;
      } in
      if is_set v.instana_agent.spec.agent.proxy_host
      then agent_key_item ∷ proxy_item ∷ []
      else agent_key_item ∷ []

  abbrev pub k8_sensor_secrets_volume_with_mount : VolumeWithMount
  k8_sensor_secrets_volume_with_mount =
      if secret_mounts_disabled
      then absent
      else mounted "instana-secrets" (secret_source secret_name k8_sensor_items owner_readable)
          instana_secrets_directory true

  -- `items` of `secretsVolume`
  abbrev secrets_items : List KeyToPath
  secrets_items =
      if is_set v.instana_agent.spec.agent.keys_secret
      then record { key = agent_key <> v.backend_resource_suffix; path = secret_file_agent_key }
        ∷ []
      else []

  abbrev pub secrets_volume_with_mount : VolumeWithMount
  secrets_volume_with_mount =
      if secret_mounts_disabled
      then absent
      else mounted "instana-secrets" (secret_source secret_name secrets_items owner_readable)
          instana_secrets_directory true

  abbrev pub etcd_ca_volume_with_mount : VolumeWithMount
  etcd_ca_volume_with_mount =
      let ca = v.instana_agent.spec.k8s_sensor.etcd.ca in
      let bundle : KeyToPath = record { key = "ca-bundle.crt"; path = "ca-bundle.crt" } in
      if not (is_set ca.secret_name)
      then (if v.is_open_shift
          then mounted "etcd-ca" (config_map_source "etcd-ca-bundle" (bundle ∷ []) group_readable)
              "/etc/etcd-metrics-ca" true
          else absent)
      else ca_volume "etcd-ca" ca

  abbrev pub etcd_client_cert_volume_with_mount : VolumeWithMount
  etcd_client_cert_volume_with_mount =
      let certificate : KeyToPath = record { key = "tls.crt"; path = "tls.crt" } in
      let key : KeyToPath = record { key = "tls.key"; path = "tls.key" } in
      if not v.is_open_shift
      then absent
      else mounted "etcd-client-cert"
          (secret_source "etcd-client" (certificate ∷ key ∷ []) group_readable) "/etc/etcd-client"
          true

  abbrev pub control_plane_ca_volume_with_mount : VolumeWithMount
  control_plane_ca_volume_with_mount =
      let ca = v.instana_agent.spec.k8s_sensor.rest_client.ca in
      if not (is_set ca.secret_name) then absent else ca_volume "control-plane-ca" ca
