-- ===== src/Builders/Volumes/Names.antt =====
-- Which volumes and mounts `Build` of common/volume/volume_builder.go returns.
use instana_agent_operator.Prelude.{
  String, ◌≡◌, refl, Option, none, some, List, [], ◌∷◌, map, arith,
}
use instana_agent_operator.Builders.{CoreVolume, CoreVolumeMount}
use instana_agent_operator.Builders.Volumes.Single.{VolumeBuilder}
use instana_agent_operator.Builders.Volumes.{
  Volume, get_builder, build_volumes, append_present, dev_volume, run_volume, var_run_volume,
  var_run_kubo_volume, var_run_containerd_volume, var_containerd_config_volume, sys_volume,
  var_log_volume, var_lib_instana_volume, var_data_volume, machine_id_volume, config_volume,
  tls_volume, repo_volume, namespaces_details_volume, secrets_volume, k8_sensor_secrets_volume,
  etcd_ca_volume, etcd_client_cert_volume, control_plane_ca_volume,
}

abbrev volume_name : Option CoreVolume → Option String
volume_name none = none
volume_name (some c) = some c.name

abbrev mount_name : Option CoreVolumeMount → Option String
mount_name none = none
mount_name (some m) = some m.name

-- Both parts are nil, or they have one name.
get_builder-names :
    (v : VolumeBuilder) (volume : Volume)
    → volume_name (get_builder v volume).0 ≡ mount_name (get_builder v volume).1
unfolding get_builder
get_builder-names v dev_volume = refl
get_builder-names v run_volume = refl
get_builder-names v var_run_volume = refl
get_builder-names v var_run_kubo_volume = ground arith
get_builder-names v var_run_containerd_volume = ground arith
get_builder-names v var_containerd_config_volume = ground arith
get_builder-names v sys_volume = refl
get_builder-names v var_log_volume = refl
get_builder-names v var_lib_instana_volume = refl
get_builder-names v var_data_volume = refl
get_builder-names v machine_id_volume = refl
get_builder-names v config_volume = refl
get_builder-names v tls_volume = ground arith
get_builder-names v repo_volume = ground arith
get_builder-names v namespaces_details_volume = refl
get_builder-names v secrets_volume = ground arith
get_builder-names v k8_sensor_secrets_volume = ground arith
get_builder-names v etcd_ca_volume = ground arith
get_builder-names v etcd_client_cert_volume = ground arith
get_builder-names v control_plane_ca_volume = ground arith

names-append_present :
    (c : Option CoreVolume) (m : Option CoreVolumeMount) (cs : List CoreVolume)
    (ms : List CoreVolumeMount)
    → volume_name c ≡ mount_name m
    → map (λ x. x.name) cs ≡ map (λ x. x.name) ms
    → map (λ x. x.name) (append_present c cs) ≡ map (λ x. x.name) (append_present m ms)
names-append_present none none cs ms e h = h
names-append_present none (some m) cs ms e h = ground (arith, e)
names-append_present (some c) none cs ms e h = ground (arith, e)
names-append_present (some c) (some m) cs ms e h = ground (arith, e, h)

-- Whatever volumes are asked for, on any platform, the mounts that `Build` returns have the names
-- of the volumes that it returns, one for one and in the same order.
pub build_volumes-names :
    (v : VolumeBuilder) (volumes : List Volume)
    → map (λ c. c.name) (build_volumes v volumes).0 ≡ map (λ m. m.name) (build_volumes v volumes).1
unfolding build_volumes
build_volumes-names v [] = refl
build_volumes-names v (volume ∷ volumes) =
    names-append_present (get_builder v volume).0 (get_builder v volume).1
      (build_volumes v volumes).0 (build_volumes v volumes).1 (get_builder-names v volume)
      (build_volumes-names v volumes)
