-- ===== src/Builders/Sensor/Volumes.antt =====
-- The names of the volumes of the k8s sensor.
use instana_agent_operator.Prelude.{
  String, ◌≡◌, refl, ap, ◌∙◌, Bool, true, not, ◌&&◌, ◌||◌, List, [], ◌∷◌, map, arith, ◌==◌,
  string_comparable, if◌then◌else◌, any,
}
use instana_agent_operator.Builders.{CoreVolume}
use instana_agent_operator.Builders.Helpers.{is_set}
use instana_agent_operator.Builders.Env.{use_secret_mounts}
use instana_agent_operator.Builders.Volumes.{build_volumes, get_builder}
use instana_agent_operator.Builders.Sensor.{
  DeploymentBuilder, get_volumes, volumes_to_build, copied_resources_exist, mounts_discovered_ca,
}

-- No name stands in the list twice.
unfoldable pub are_distinct : List String → Bool
are_distinct [] = true
are_distinct (n ∷ ns) = not (any (λ m. m == n) ns) && are_distinct ns

abbrev pub volume_names : DeploymentBuilder → List String
volume_names d = map (λ (v : CoreVolume). v.name) (get_volumes d).0

kept : Bool → String → List String → List String
kept b name names = if b then name ∷ names else names

possible_names : Bool → Bool → Bool → Bool → Bool → List String
possible_names control ca cert secrets discovered =
    "config"
    ∷ kept control "control-plane-ca" (
        kept ca "etcd-ca" (
          kept cert "etcd-client-cert"
            (kept secrets "instana-secrets" (kept discovered "etcd-ca" []))))

distinct-possible :
    (control ca cert secrets discovered : Bool)
    → are_distinct (possible_names control ca cert secrets discovered) ≡ not (ca && discovered)
unfolding are_distinct possible_names kept
distinct-possible true true true true true = refl
distinct-possible control ca cert secrets discovered = ground arith

volume_names-eq :
    (d : DeploymentBuilder)
    → volume_names d
      ≡ possible_names
          (is_set d.instana_agent.spec.k8s_sensor.rest_client.ca.secret_name)
          (copied_resources_exist d || is_set d.instana_agent.spec.k8s_sensor.etcd.ca.secret_name)
          (copied_resources_exist d)
          (use_secret_mounts d.instana_agent)
          (mounts_discovered_ca d)
unfolding get_volumes volumes_to_build build_volumes get_builder possible_names kept
volume_names-eq d = ground arith

-- The names of the volumes are distinct exactly unless the volume for the CA of etcd is built, for
-- the copied resources or for etcd.ca.secretName, and a discovered CA is mounted too.
pub get_volumes-distinct :
    (d : DeploymentBuilder)
    → are_distinct (volume_names d)
      ≡ not (
          (copied_resources_exist d || is_set d.instana_agent.spec.k8s_sensor.etcd.ca.secret_name)
          && mounts_discovered_ca d)
get_volumes-distinct d = ap are_distinct (volume_names-eq d) ∙ distinct-possible _ _ _ _ _
