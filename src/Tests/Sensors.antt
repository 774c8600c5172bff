-- ===== src/Tests/Sensors.antt =====
-- The k8s sensor, its targets and the copies of the certificates of etcd.
use mathlib.Core.List.{Permᴰ}
use instana_agent_operator.Prelude.{
  ℕ, String, ◌≡◌, ◌↔◌, refl, Bool, true, false, not, ◌&&◌, ◌||◌, Option, none, some, List, [], ◌∷◌,
  Memᴰ, arith, string_comparable,
}
use instana_agent_operator.Prelude.Dict.{lookup}
use instana_agent_operator.Prelude.Text.{join}
use instana_agent_operator.Prelude.Split.{split, has_char, comma}
use instana_agent_operator.Prelude.Sort.{sort_by, insert_by}
use instana_agent_operator.Collections.Maps.{IsIncluded, map_or_make}
use instana_agent_operator.Results.{is_success}
use instana_agent_operator.Kube.{bare_object}
use instana_agent_operator.Kube.Api.{Server, Cluster, delete_call}
use instana_agent_operator.Kube.Client.{new_instana_agent_client}
use instana_agent_operator.Lifecycle.{DependentLifecycleManager}
use instana_agent_operator.Agent.{InstanaAgent}
use instana_agent_operator.Builders.{CoreEnvVar}
use instana_agent_operator.Builders.Secrets.{K8SensorBackend}
use instana_agent_operator.Builders.EtcdNames.{
  etcd_metrics_ca_bundle_name, etcd_metric_client_secret_name, env_etcd_targets, env_etcd_ca_file,
}
use instana_agent_operator.Builders.Helpers.{is_set}
use instana_agent_operator.Builders.Env.{
  build_env, built_env_vars, build_env_var, value_of, user_provided_envs,
}
use instana_agent_operator.Builders.Env.Vars.{plain_env_var}
use instana_agent_operator.Builders.Env.Lacks.{Lacks}
use instana_agent_operator.Builders.Workloads.{Container}
use instana_agent_operator.Builders.Sensor.{
  DeploymentBuilder, get_env_vars, backend_env_vars, etcd_env_vars, deployment_with,
  discovered_env_vars, copied_resources_exist, mounts_discovered_ca, poll_rate, get_k8_sensor_args,
}
use instana_agent_operator.Builders.Sensor.CaFile.{get_env_vars-two_ca_files}
use instana_agent_operator.Builders.Sensor.Volumes.{
  are_distinct, volume_names, get_volumes-distinct,
}
use instana_agent_operator.Builders.Sensor.Selector.{app_or_default, deployment-selects_iff}
use instana_agent_operator.Etcd.Discovery.{
  TypedReads, DiscoveredEtcdTargets, Discovered, sort_strings, core_gvk,
}
use instana_agent_operator.Etcd.Copies.{
  read_sources, setup_open_shift_etcd_monitoring, copied_config_map, copied_secret,
  in_agent_namespace,
}
use instana_agent_operator.Etcd.Context.{
  current_targets, targets_in, compare_and_update_etcd_targets, vanilla_context,
  create_deployment_context,
}
use instana_agent_operator.Etcd.Compared.{compare-eq-false_iff}
use instana_agent_operator.Etcd.Copied.{AreUsable, setup-exist_iff, setup-cleans_up}
use instana_agent_operator.Etcd.Forgets.{
  in_context, create_deployment_context-forgets, targets_in-split,
}
use instana_agent_operator.Tests.Fixture.{server, manager, start, background}
use instana_agent_operator.Tests.Sample.{resource, no_requirements}

abbrev backend : K8SensorBackend
backend = record {
  resource_suffix = "";
  endpoint_key = "k1";
  download_key = "";
  endpoint_host = "host";
  endpoint_port = "443";
}

abbrev found : DiscoveredEtcdTargets
found = record { targets = "https://b/metrics" ∷ "https://a/metrics" ∷ []; ca_found = true }

-- the resource with the mount path that `Default` sets
abbrev mounted_resource : InstanaAgent
mounted_resource = record resource {
  spec = record resource.spec {
    k8s_sensor = record resource.spec.k8s_sensor {
      etcd = record resource.spec.k8s_sensor.etcd {
        ca = record resource.spec.k8s_sensor.etcd.ca { mount_path = "/ca" };
      };
    };
  };
}

abbrev builder : DeploymentBuilder
builder = record {
  instana_agent = mounted_resource;
  backend = backend;
  keys_secret = none;
  deployment_context = some (vanilla_context found);
  is_open_shift = false;
}

abbrev or_nothing : Option (List CoreEnvVar) → List CoreEnvVar
or_nothing none = []
or_nothing (some es) = es

abbrev environment : List CoreEnvVar
environment = or_nothing (get_env_vars builder)

environment_test : get_env_vars builder ≡ some environment
unfolding get_env_vars build_env built_env_vars build_env_var value_of backend_env_vars
environment_test = refl

abbrev container : Container
container = record {
  name = "instana-agent";
  image = "";
  image_pull_policy = "";
  command = [];
  args = [];
  env = environment;
  volume_mounts = [];
  resources = no_requirements;
  ports = [];
  privileged = none;
  liveness_probe = none;
}

-- a server that finds every object, with no data
abbrev finding_server : Server ℕ
finding_server = record server {
  get = λ gvk key w. (none, bare_object gvk key.name key.namespace, w);
}

abbrev finding_manager : DependentLifecycleManager ℕ
finding_manager = record manager {
  server = finding_server;
  client = new_instana_agent_client finding_server background;
}

abbrev reads : TypedReads ℕ
reads = record {
  service_of = λ o. record { name = o.name; labels = none; annotations = []; ports = [] };
  subsets_of = λ o. [];
  containers_of = λ o. container ∷ [];
  list_endpoint_slices = λ name w. (none, [], w);
}

abbrev discover : Cluster ℕ → Discovered finding_manager reads
discover c = (none, some found, c)

create_deployment_context-forgets_example :
    Memᴰ (plain_env_var env_etcd_targets (join (sort_strings found.targets) ",")) environment
    × ((create_deployment_context finding_manager reads mounted_resource false discover start).0
        ≡ none)
    × ((later : List CoreEnvVar)
        → get_env_vars (
            in_context
              (create_deployment_context finding_manager reads mounted_resource false discover
                start).0
              builder)
          ≡ some later
        → Lacks env_etcd_targets later)
unfolding lookup has_char new_instana_agent_client
create_deployment_context-forgets_example =
    create_deployment_context-forgets finding_manager reads builder discover start start
      "https://b/metrics" ("https://a/metrics" ∷ []) true environment container (refl, refl)
      (refl, (refl, tt)) environment_test refl refl refl refl refl

targets_in-split_example :
    split (targets_in environment) comma ≡ "https://a/metrics" ∷ "https://b/metrics" ∷ []
unfolding lookup has_char sort_by insert_by
targets_in-split_example =
    targets_in-split builder (vanilla_context found) "https://a/metrics" ("https://b/metrics" ∷ [])
      environment (refl, refl) refl (refl, (refl, tt)) environment_test

get_env_vars-two_ca_files_example :
    Memᴰ (plain_env_var env_etcd_ca_file "/ca/ca.crt") environment
    × Memᴰ (plain_env_var env_etcd_ca_file "/var/run/secrets/etcd/ca.crt") environment
unfolding sort_by insert_by
get_env_vars-two_ca_files_example =
    get_env_vars-two_ca_files builder (vanilla_context found) "https://a/metrics"
      ("https://b/metrics" ∷ []) environment refl refl refl refl refl refl environment_test

get_volumes-distinct_example :
    are_distinct (volume_names builder)
    ≡ not (
        (copied_resources_exist builder
          || is_set builder.instana_agent.spec.k8s_sensor.etcd.ca.secret_name)
        && mounts_discovered_ca builder)
get_volumes-distinct_example = get_volumes-distinct builder

abbrev hash : String → String
hash s = s

abbrev matches : String → Bool
matches s = true

deployment-selects_iff_example :
    IsIncluded
      (deployment_with builder hash matches environment).selector
      (deployment_with builder hash matches environment).template.labels
    ↔ (app_or_default (map_or_make builder.instana_agent.spec.agent.pod.labels) ≡ "k8sensor")
deployment-selects_iff_example = deployment-selects_iff builder hash matches environment

args_test :
    get_k8_sensor_args builder hash matches
    ≡ "-pollrate" ∷ "10s" ∷ "-agent-key-file"
      ∷ "/opt/instana/agent/etc/instana/secrets/INSTANA_AGENT_KEY" ∷ "-https-proxy-file"
      ∷ "/opt/instana/agent/etc/instana/secrets/HTTPS_PROXY" ∷ []
unfolding get_k8_sensor_args poll_rate
args_test = refl

compare-eq-false_iff_example :
    (compare_and_update_etcd_targets (container ∷ []) found.targets ≡ false)
    ↔ Permᴰ ("https://a/metrics" ∷ "https://b/metrics" ∷ []) found.targets
unfolding has_char current_targets targets_in sort_by insert_by discovered_env_vars join
    get_env_vars build_env built_env_vars build_env_var value_of backend_env_vars user_provided_envs
    etcd_env_vars
compare-eq-false_iff_example =
    compare-eq-false_iff (container ∷ []) "https://a/metrics" "https://b/metrics"
      ("https://b/metrics" ∷ []) ("https://a/metrics" ∷ []) (refl, (refl, tt)) (refl, (refl, tt))
      refl

setup-exist_iff_example :
    ((setup_open_shift_etcd_monitoring manager start).0.open_shift_etcd_resources_exist ≡ true) ↔ (
      AreUsable (read_sources manager start).0 (read_sources manager start).1
      × (is_success
            (manager.client.apply false
              (copied_config_map manager.agent (read_sources manager start).0.1)
              (read_sources manager start).2).0
          ≡ true)
      × (is_success
            (manager.client.apply false
              (copied_secret manager.agent (read_sources manager start).1.1)
              (manager.client.apply false
                (copied_config_map manager.agent (read_sources manager start).0.1)
                (read_sources manager start).2).1).0
          ≡ true))
setup-exist_iff_example = setup-exist_iff manager start

setup-cleans_up_example :
    Memᴰ
      (delete_call (core_gvk "ConfigMap") (in_agent_namespace manager etcd_metrics_ca_bundle_name))
      (setup_open_shift_etcd_monitoring manager start).1.calls
    × Memᴰ
        (delete_call
          (core_gvk "Secret")
          (in_agent_namespace manager etcd_metric_client_secret_name))
        (setup_open_shift_etcd_monitoring manager start).1.calls
unfolding new_instana_agent_client
setup-cleans_up_example =
    setup-cleans_up manager start (λ (ca, cert, _, _, _). ground (arith, cert))
