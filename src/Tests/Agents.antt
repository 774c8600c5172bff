-- ===== src/Tests/Agents.antt =====
-- The labels of pods, the DaemonSet of the agent and the choice about the identity of its hosts.
use instana_agent_operator.Prelude.{
  ℕ, ◌≡◌, ◌↔◌, refl, true, false, Option, none, some, List, [], ◌∷◌, Memᴰ,
}
use instana_agent_operator.Prelude.Dict.{lookup}
use instana_agent_operator.Collections.Maps.{IsIncluded}
use instana_agent_operator.Kube.{bare_object}
use instana_agent_operator.Kube.Api.{Server}
use instana_agent_operator.Kube.Client.{new_instana_agent_client}
use instana_agent_operator.Lifecycle.{DependentLifecycleManager}
use instana_agent_operator.Agent.{InstanaAgent, Zone}
use instana_agent_operator.Builders.{CoreEnvVar}
use instana_agent_operator.Builders.Pods.{unset_affinity}
use instana_agent_operator.Builders.Env.{build_env, built_env_vars, build_env_var, value_of}
use instana_agent_operator.Builders.Env.Vars.{plain_env_var}
use instana_agent_operator.Builders.Labels.{PodSelectorLabelGenerator, labels_for_mode}
use instana_agent_operator.Builders.Labels.Selects.{labels_for_mode-after}
use instana_agent_operator.Builders.Workloads.{Container}
use instana_agent_operator.Builders.DaemonSets.{
  DaemonSetBuilder, agent_env_vars, base_env_vars, daemon_set_with,
}
use instana_agent_operator.Builders.DaemonSets.Selects.{daemon_set_with-IsIncluded}
use instana_agent_operator.Builders.DaemonSets.Environment.{
  effective, last_named, Mem-agent_env_vars_iff,
}
use instana_agent_operator.Etcd.Discovery.{TypedReads}
use instana_agent_operator.Reconcile.{reconcile_continue}
use instana_agent_operator.Reconcile.Persist.{
  daemon_set_gvk, ds_name, daemon_set_builder, should_set_persist_host_unique_id_env_var,
}
use instana_agent_operator.Reconcile.Kept.{should_set-kept}
use instana_agent_operator.Tests.Fixture.{server, manager, start, background}
use instana_agent_operator.Tests.Sample.{resource, no_requirements}

abbrev zone_a : Zone
zone_a = record { name = "a"; tolerations = []; affinity = unset_affinity; mode = "APM" }

-- pods with a label and a variable of their own
abbrev labelled_resource : InstanaAgent
labelled_resource = record resource {
  spec = record resource.spec {
    agent = record resource.spec.agent {
      pod = record resource.spec.agent.pod {
        labels = some (("team", "x") ∷ []);
        env = plain_env_var "A" "2" ∷ [];
      };
    };
  };
}

abbrev generator : PodSelectorLabelGenerator
generator = record {
  instana_agent = labelled_resource;
  zone = some zone_a;
  component = "instana-agent";
}

labels_for_mode-after_example :
    (labels_for_mode generator "KUBERNETES" (labels_for_mode generator "APM" labelled_resource).1).0
    ≡ (labels_for_mode generator "KUBERNETES" labelled_resource).0
labels_for_mode-after_example =
    labels_for_mode-after generator generator "KUBERNETES" "APM" labelled_resource

abbrev builder : DaemonSetBuilder
builder = daemon_set_builder labelled_resource false (some zone_a) true

abbrev or_nothing : Option (List CoreEnvVar) → List CoreEnvVar
or_nothing none = []
or_nothing (some es) = es

abbrev base : List CoreEnvVar
base = or_nothing (build_env labelled_resource (some zone_a) base_env_vars)

abbrev environment : List CoreEnvVar
environment = or_nothing (agent_env_vars builder)

daemon_set_with-IsIncluded_example :
    IsIncluded
      (daemon_set_with builder environment []).selector
      (daemon_set_with builder environment []).template.labels
daemon_set_with-IsIncluded_example = daemon_set_with-IsIncluded builder environment []

base_test : build_env labelled_resource (some zone_a) base_env_vars ≡ some base
unfolding build_env built_env_vars build_env_var value_of
base_test = refl

environment_test : agent_env_vars builder ≡ some environment
unfolding agent_env_vars build_env built_env_vars build_env_var value_of
environment_test = refl

-- pod.env wins over agent.env
Mem-agent_env_vars_iff_example :
    Memᴰ (plain_env_var "A" "2") environment
    ↔ (effective builder base "A" ≡ some (plain_env_var "A" "2"))
Mem-agent_env_vars_iff_example =
    Mem-agent_env_vars_iff builder base environment (plain_env_var "A" "2") base_test
      environment_test

effective_test : effective builder base "A" ≡ some (plain_env_var "A" "2")
unfolding last_named
effective_test = refl

abbrev container : Container
container = record {
  name = "instana-agent";
  image = "";
  image_pull_policy = "";
  command = [];
  args = [];
  env = environment;
  volume_mounts = [];
  resources = no_requirements;
  ports = [];
  privileged = none;
  liveness_probe = none;
}

-- a server that finds every object
abbrev finding_server : Server ℕ
finding_server = record server {
  get = λ gvk key w. (none, bare_object gvk key.name key.namespace, w);
}

abbrev finding_manager : DependentLifecycleManager ℕ
finding_manager = record manager {
  server = finding_server;
  client = new_instana_agent_client finding_server background;
}

abbrev reads : TypedReads ℕ
reads = record {
  service_of = λ o. record { name = o.name; labels = none; annotations = []; ports = [] };
  subsets_of = λ o. [];
  containers_of = λ o. container ∷ [];
  list_endpoint_slices = λ name w. (none, [], w);
}

should_set-kept_example :
    should_set_persist_host_unique_id_env_var finding_manager reads labelled_resource
      (some zone_a)
      start
    ≡ (
      true,
      reconcile_continue,
      (finding_manager.client.get daemon_set_gvk
          (record { namespace = "ns"; name = ds_name labelled_resource (some zone_a) })
          start).2,
    )
unfolding lookup last_named new_instana_agent_client
should_set-kept_example =
    should_set-kept finding_manager reads labelled_resource (some zone_a) false true environment
      container start (refl, refl) environment_test refl refl refl refl
