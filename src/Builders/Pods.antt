-- ===== src/Builders/Pods.antt =====
-- The types of k8s.io/api/core/v1 and k8s.io/api/apps/v1 that a resource's pods and the workloads
-- are made of, and `GetOrDefault` of api/v1/inline_types.go for resource requirements.
use instana_agent_operator.Prelude.{ℕ, String, refl, Bool, true, false, Option, List}
use instana_agent_operator.Prelude.Dict.{Dict}
use instana_agent_operator.Optional.{HasZero}
use instana_agent_operator.Builders.{CoreEnvVar, CoreVolume, CoreVolumeMount}

-- corev1.Toleration
pub record Toleration : Type 0 where
  pub key : String
  pub operator : String
  pub value : String
  pub effect : String
  pub toleration_seconds : Option ℕ

-- corev1.WeightedPodAffinityTerm with one expression in its label selector
pub record WeightedPodAffinityTerm : Type 0 where
  pub weight : ℕ
  pub key : String
  pub operator : String
  pub values : List String
  pub topology_key : String

-- corev1.Affinity: its zero value, one that the user wrote, and one with a preferred
-- anti-affinity of pods
pub data Affinity : Type 0 where
  unset_affinity : Affinity
  user_affinity : String → Affinity
  preferred_pod_anti_affinity : WeightedPodAffinityTerm → Affinity

affinity_is_zero : Affinity → Bool
affinity_is_zero unset_affinity = true
affinity_is_zero _ = false

instance abbrev pub affinity_zero : HasZero Affinity
unfolding affinity_is_zero
affinity_zero = record {
  zero_value = unset_affinity;
  is_zero = affinity_is_zero;
  is_zero-zero_value = refl;
}

-- corev1.ProbeHandler: the host, the path and the port of HTTPGet, or another handler
pub data ProbeHandler : Type 0 where
  http_get : String → String → ℕ → ProbeHandler
  other_handler : String → ProbeHandler

-- corev1.Probe
pub record Probe : Type 0 where
  pub handler : ProbeHandler
  pub initial_delay_seconds : ℕ
  pub timeout_seconds : ℕ
  pub period_seconds : ℕ
  pub failure_threshold : ℕ

-- corev1.ResourceRequirements, of two maps that may be nil; a quantity is its text, "" for the zero
-- quantity
pub record ResourceRequirements : Type 0 where
  pub requests : Option (Dict String)
  pub limits : Option (Dict String)

-- AgentPodSpec
pub record AgentPodSpec : Type 0 where
  pub annotations : Option (Dict String)
  pub labels : Option (Dict String)
  pub tolerations : List Toleration
  pub affinity : Affinity
  pub priority_class_name : String
  pub resource_requirements : ResourceRequirements
  pub node_selector : Option (Dict String)
  pub volumes : List CoreVolume
  pub volume_mounts : List CoreVolumeMount
  pub env : List CoreEnvVar
  pub liveness_probe : Option Probe

-- KubernetesPodSpec
pub record KubernetesPodSpec : Type 0 where
  pub resource_requirements : ResourceRequirements
  pub node_selector : Option (Dict String)
  pub priority_class_name : String
  pub tolerations : List Toleration
  pub affinity : Affinity
