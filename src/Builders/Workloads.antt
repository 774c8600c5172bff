-- ===== src/Builders/Workloads.antt =====
-- The types of k8s.io/api/apps/v1 and k8s.io/api/core/v1 that make up a DaemonSet and a Deployment,
-- and what the builders of both use: `GetOrDefault` of the resource requirements and
-- `SortEnvVarsByName`.
use instana_agent_operator.Prelude.{ℕ, String, Bool, Option, none, some, List, []}
use instana_agent_operator.Prelude.Dict.{Dict}
use instana_agent_operator.Prelude.Text.{◌<>◌}
use instana_agent_operator.Prelude.Sort.{sort_by}
use instana_agent_operator.Collections.Maps.{map_or_make, set_if_empty}
use instana_agent_operator.Optional.{string_zero}
use instana_agent_operator.Agent.{UpdateStrategy}
use instana_agent_operator.Kube.{Object}
use instana_agent_operator.Builders.{CoreEnvVar, CoreVolume, CoreVolumeMount}
use instana_agent_operator.Builders.Pods.{Toleration, Affinity, Probe, ResourceRequirements}
use instana_agent_operator.Builders.Ports.{ContainerPort}

-- corev1.Container; the flag is Privileged of its security context
pub record Container : Type 0 where
  pub name : String
  pub image : String
  pub image_pull_policy : String
  pub command : List String
  pub args : List String
  pub env : List CoreEnvVar
  pub volume_mounts : List CoreVolumeMount
  pub resources : ResourceRequirements
  pub ports : List ContainerPort
  pub privileged : Option Bool
  pub liveness_probe : Option Probe

-- corev1.PodTemplateSpec; the group is FSGroup of its security context
pub record PodTemplateSpec : Type 0 where
  pub labels : Dict String
  pub annotations : Option (Dict String)
  pub service_account_name : String
  pub node_selector : Option (Dict String)
  pub priority_class_name : String
  pub image_pull_secrets : List String
  pub containers : List Container
  pub host_network : Bool
  pub host_pid : Bool
  pub dns_policy : String
  pub fs_group : Option ℕ
  pub volumes : List CoreVolume
  pub tolerations : List Toleration
  pub affinity : Affinity

-- appsv1.Deployment
pub record Deployment : Type 0 where
  pub name : String
  pub namespace : String
  pub labels : Dict String
  pub replicas : ℕ
  pub min_ready_seconds : ℕ
  pub selector : Dict String
  pub template : PodTemplateSpec

-- appsv1.DaemonSet
pub record DaemonSet : Type 0 where
  pub name : String
  pub namespace : String
  pub labels : Option (Dict String)
  pub min_ready_seconds : ℕ
  pub selector : Dict String
  pub template : PodTemplateSpec
  pub update_strategy : UpdateStrategy

-- A workload as the generic code sees it.
abbrev pub workload_object : String → String → String → Option (Dict String) → Object
workload_object kind name namespace labels = record {
  gvk = record { group = "apps"; version = "v1"; kind = kind };
  name = name;
  namespace = namespace;
  resource_version = "";
  labels = labels;
  annotations = none;
  owner_references = [];
  managed_fields = [];
  payload = none;
  secret_type = "";
}

abbrev pub deployment_object : Deployment → Object
deployment_object d = workload_object "Deployment" d.name d.namespace (some d.labels)

abbrev pub daemon_set_object : DaemonSet → Object
daemon_set_object d = workload_object "DaemonSet" d.name d.namespace d.labels

-- `GetOrDefault`
unfoldable pub requirements_or_default : ResourceRequirements → ResourceRequirements
requirements_or_default r = record {
  requests =
      some (set_if_empty "cpu" "0.5" (set_if_empty "memory" "768Mi" (map_or_make r.requests)));
  limits = some (set_if_empty "cpu" "1.5" (set_if_empty "memory" "768Mi" (map_or_make r.limits)));
}

-- `SortEnvVarsByName`
abbrev pub sort_env_vars_by_name : List CoreEnvVar → List CoreEnvVar
sort_env_vars_by_name envs = sort_by (λ e. e.name) envs

-- path.Join of a clean directory and the name of a file
abbrev pub path_join : String → String → String
path_join directory file = directory <> "/" <> file
