-- ===== src/Builders/Volumes.antt =====
-- common/volume/volume_builder.go: `getBuilder` and `Build`.
pub mod Single
pub mod Names
use instana_agent_operator.Prelude.{String, Bool, not, Option, none, some, List, [], ◌∷◌}
use instana_agent_operator.Builders.{CoreVolume, CoreVolumeMount}
use instana_agent_operator.Builders.Volumes.Single.{
  VolumeBuilder, VolumeWithMount, host_volume_with_mount,
  host_volume_with_mount_literal_when_condition, config_volume_with_mount,
  namespaces_details_volume_with_mount, tls_volume_with_mount, repo_volume_with_mount,
  k8_sensor_secrets_volume_with_mount, secrets_volume_with_mount, etcd_ca_volume_with_mount,
  etcd_client_cert_volume_with_mount, control_plane_ca_volume_with_mount,
}

-- the integer constants of type `Volume`
pub data Volume : Type 0 where
  dev_volume : Volume
  run_volume : Volume
  var_run_volume : Volume
  var_run_kubo_volume : Volume
  var_run_containerd_volume : Volume
  var_containerd_config_volume : Volume
  sys_volume : Volume
  var_log_volume : Volume
  var_lib_instana_volume : Volume
  var_data_volume : Volume
  machine_id_volume : Volume
  config_volume : Volume
  tls_volume : Volume
  repo_volume : Volume
  namespaces_details_volume : Volume
  secrets_volume : Volume
  k8_sensor_secrets_volume : Volume
  etcd_ca_volume : Volume
  etcd_client_cert_volume : Volume
  control_plane_ca_volume : Volume

-- corev1.MountPropagationHostToContainer and corev1.HostPathDirectoryOrCreate
abbrev pub host_to_container : Option String
host_to_container = some "HostToContainer"

abbrev pub mkdir : Option String
mkdir = some "DirectoryOrCreate"

-- `WithBackendResourceSuffix`
abbrev pub with_backend_resource_suffix : VolumeBuilder → String → VolumeBuilder
with_backend_resource_suffix v suffix = record v { backend_resource_suffix = suffix }

-- a volume or a mount that is not nil is appended
abbrev pub append_present {ℓ} : {A : Type ℓ} → Option A → List A → List A
append_present none rest = rest
append_present (some a) rest = a ∷ rest

module _ (v : VolumeBuilder) where
  unfoldable pub get_builder : Volume → VolumeWithMount
  get_builder dev_volume = host_volume_with_mount "dev" "/dev" host_to_container none
  get_builder run_volume = host_volume_with_mount "run" "/run" host_to_container none
  get_builder var_run_volume = host_volume_with_mount "var-run" "/var/run" host_to_container none
  get_builder var_run_kubo_volume =
      host_volume_with_mount_literal_when_condition (not v.is_open_shift) "var-run-kubo"
        "/var/vcap/sys/run/docker" host_to_container mkdir
  get_builder var_run_containerd_volume =
      host_volume_with_mount_literal_when_condition (not v.is_open_shift) "var-run-containerd"
        "/var/vcap/sys/run/containerd" host_to_container mkdir
  get_builder var_containerd_config_volume =
      host_volume_with_mount_literal_when_condition (not v.is_open_shift) "var-containerd-config"
        "/var/vcap/jobs/containerd/config" host_to_container mkdir
  get_builder sys_volume = host_volume_with_mount "sys" "/sys" host_to_container none
  get_builder var_log_volume = host_volume_with_mount "var-log" "/var/log" host_to_container none
  get_builder var_lib_instana_volume =
      host_volume_with_mount "var-lib-instana" "/var/lib/instana" host_to_container mkdir
  get_builder var_data_volume =
      host_volume_with_mount "var-data" "/var/data" host_to_container mkdir
  get_builder machine_id_volume = host_volume_with_mount "machine-id" "/etc/machine-id" none none
  get_builder config_volume = config_volume_with_mount v
  get_builder tls_volume = tls_volume_with_mount v
  get_builder repo_volume = repo_volume_with_mount v
  get_builder namespaces_details_volume = namespaces_details_volume_with_mount v
  get_builder secrets_volume = secrets_volume_with_mount v
  get_builder k8_sensor_secrets_volume = k8_sensor_secrets_volume_with_mount v
  get_builder etcd_ca_volume = etcd_ca_volume_with_mount v
  get_builder etcd_client_cert_volume = etcd_client_cert_volume_with_mount v
  get_builder control_plane_ca_volume = control_plane_ca_volume_with_mount v

  -- the loop of `Build`
  unfoldable pub build_volumes : List Volume → List CoreVolume × List CoreVolumeMount
  build_volumes [] = ([], [])
  build_volumes (volume ∷ volumes) =
      let (built, mount) = get_builder volume in
      let (specs, mounts) = build_volumes volumes in
      (append_present built specs, append_present mount mounts)

-- `BuildFromUserConfig`
abbrev pub build_from_user_config : VolumeBuilder → List CoreVolume × List CoreVolumeMount
build_from_user_config v =
    let pod = v.instana_agent.spec.agent.pod in (pod.volumes, pod.volume_mounts)
