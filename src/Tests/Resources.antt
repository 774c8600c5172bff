-- ===== src/Tests/Resources.antt =====
-- The resource, its defaults and the builders.
use instana_agent_operator.Prelude.{
  String, ◌≡◌, refl, true, none, some, List, [], ◌∷◌, map, Memᴰ, All,
}
use instana_agent_operator.Prelude.Dict.{lookup}
use instana_agent_operator.Tests.Sample.{no_credentials, resource}
use instana_agent_operator.Builders.{CoreVolume}
use instana_agent_operator.Builders.Env.{
  build_env, value_of, built_env_vars, build_env_var, user_provided_envs,
}
use instana_agent_operator.Builders.Env.Vars.{
  EnvVar, proxy_user_env, https_proxy_env, cluster_name_env, plain_env_var,
}
use instana_agent_operator.Builders.Env.Secrecy.{with_credentials, build_env-with_credentials}
use instana_agent_operator.Builders.Volumes.Single.{VolumeBuilder, k8_sensor_items}
use instana_agent_operator.Builders.Volumes.{
  Volume, build_volumes, get_builder, dev_volume, var_run_kubo_volume, k8_sensor_secrets_volume,
}
use instana_agent_operator.Builders.Secrets.{K8SensorBackend, UrlString, get_data}
use instana_agent_operator.Builders.Secrets.Items.{get_data-k8_sensor_items}

abbrev wanted : List EnvVar
wanted = proxy_user_env ∷ https_proxy_env ∷ cluster_name_env ∷ []

-- only the cluster's name is built beside the user's variable
build_env_test :
    build_env resource none wanted
    ≡ some (plain_env_var "A" "1" ∷ plain_env_var "INSTANA_KUBERNETES_CLUSTER_NAME" "c" ∷ [])
unfolding build_env built_env_vars build_env_var value_of user_provided_envs
build_env_test = refl

build_env-with_credentials_example :
    build_env (with_credentials no_credentials resource) none wanted
    ≡ build_env resource none wanted
build_env-with_credentials_example =
    build_env-with_credentials no_credentials resource none wanted refl

abbrev volume_builder : VolumeBuilder
volume_builder = record {
  instana_agent = resource;
  is_open_shift = true;
  backend_resource_suffix = "";
}

abbrev wanted_volumes : List Volume
wanted_volumes = dev_volume ∷ var_run_kubo_volume ∷ k8_sensor_secrets_volume ∷ []

build_volumes_test :
    map (λ (c : CoreVolume). c.name) (build_volumes volume_builder wanted_volumes).0
    ≡ "dev" ∷ "instana-secrets" ∷ []
unfolding build_volumes get_builder
build_volumes_test = refl

-- a URL without the user
abbrev url_string : UrlString
url_string scheme host user = host

abbrev own_backend : K8SensorBackend
own_backend = record {
  resource_suffix = "";
  endpoint_key = "k1";
  download_key = "";
  endpoint_host = "host";
  endpoint_port = "443";
}

get_data-k8_sensor_items_example :
    All
      (λ item.
        (v : String) × (lookup item.key (get_data url_string resource (own_backend ∷ [])) ≡ some v))
      (k8_sensor_items volume_builder)
get_data-k8_sensor_items_example =
    get_data-k8_sensor_items url_string resource true own_backend (own_backend ∷ []) refl refl
      (Memᴰ.head refl) refl
