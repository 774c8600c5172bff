-- ===== src/Builders/Containers.antt =====
-- agent/secrets/container.go: the Secret with which the nodes pull the image of the agent. The JSON
-- of the registry and its credentials is a parameter.
use instana_agent_operator.Prelude.{
  String, ◌≡◌, Bool-cases, inl, inr, arith, Option, none, some, [], ◌∷◌, if◌then◌else◌,
}
use instana_agent_operator.Prelude.Dict.{Dict, lookup}
use instana_agent_operator.Prelude.Text.{◌<>◌}
use instana_agent_operator.Optional.{Optional, optional_of, empty_optional, pointer_zero}
use instana_agent_operator.Kube.{Object}
use instana_agent_operator.Collections.Maps.{map_or_make}
use instana_agent_operator.Agent.{InstanaAgent}
use instana_agent_operator.Builders.Helpers.{
  is_set, containers_secret_name, use_containers_secret, containers_instana_io_registry,
  image_pull_secrets,
}

-- the keys of the resource itself
abbrev own_download_key : InstanaAgent → Option String
own_download_key agent =
    let c = agent.spec.agent.credentials in
    if is_set c.download_key then some c.download_key else if is_set c.key then some c.key else none

-- the keys of the Secret, then those of the resource
abbrev download_key_in : Dict String → InstanaAgent → Option String
download_key_in data' agent = elim (lookup "downloadKey" data') [
  | some value ↦ some value
  | none ↦ elim (lookup "key" data') [ some value ↦ some value | none ↦ own_download_key agent ]
]

-- `downloadKey`
abbrev pub download_key : Option Object → InstanaAgent → Option String
download_key none agent = own_download_key agent
download_key (some secret) agent = download_key_in (map_or_make secret.payload) agent

module _ (docker_json : String → String → String) (keys_secret : Option Object)
    (agent : InstanaAgent) where
  abbrev secret_for : String → Object
  secret_for key = record {
    gvk = record { group = ""; version = "v1"; kind = "Secret" };
    name = containers_secret_name agent;
    namespace = agent.namespace;
    resource_version = "";
    labels = none;
    annotations = none;
    owner_references = [];
    managed_fields = [];
    payload =
        some ((".dockerconfigjson", docker_json containers_instana_io_registry ("_:" <> key)) ∷ []);
    secret_type = "kubernetes.io/dockerconfigjson";
  }

  -- `build`
  abbrev container_secret : Option Object
  container_secret = elim (download_key keys_secret agent) [
    | some key ↦ some (secret_for key)
    | none ↦ none
  ]

  -- `Build`
  unfoldable pub build_container_secret : Optional (Option Object)
  build_container_secret =
      if use_containers_secret agent then optional_of container_secret else empty_optional

  -- If a Secret is built, the pods of the agent name it, and no other, to pull their images.
  build_container_secret-pulled :
      (o : Object)
      → build_container_secret.val ≡ some o
      → image_pull_secrets agent ≡ containers_secret_name agent ∷ []
  unfolding build_container_secret empty_optional
  build_container_secret-pulled o h = elim (Bool-cases (use_containers_secret agent)) [
    | inl uses ↦ ground (arith, uses)
    | inr lacks ↦ ground (arith, lacks, h)
  ]
