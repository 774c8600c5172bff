-- ===== src/Builders/DaemonSets/Selects.antt =====
-- That the DaemonSet of the agent selects the pods of its own template.
use instana_agent_operator.Prelude.{List, some}
use instana_agent_operator.Prelude.Dict.{insert}
use instana_agent_operator.Collections.Maps.{IsIncluded, map_or_make}
use instana_agent_operator.Optional.{optional_of, get_or_default, string_zero}
use instana_agent_operator.Builders.{CoreEnvVar}
use instana_agent_operator.Builders.Ports.{ContainerPort}
use instana_agent_operator.Builders.Labels.{labels_for_mode, label_agent_mode}
use instana_agent_operator.Builders.Labels.Selects.{get_pod_labels-IsIncluded}
use instana_agent_operator.Builders.DaemonSets.{
  DaemonSetBuilder, daemon_set_with, agent_labels_generator,
}

-- The DaemonSet of the agent, with or without a zone, selects the pods of its own template: each
-- label of its selector is on them with the same value, whatever labels the user asks for.
pub daemon_set_with-IsIncluded :
    (d : DaemonSetBuilder) (envs : List CoreEnvVar) (ports : List ContainerPort)
    → IsIncluded
        (daemon_set_with d envs ports).selector
        (daemon_set_with d envs ports).template.labels
unfolding daemon_set_with labels_for_mode
daemon_set_with-IsIncluded d envs ports =
    let a = d.instana_agent.spec.agent in
    get_pod_labels-IsIncluded (agent_labels_generator d) (
      some (
        insert label_agent_mode (get_or_default (optional_of a.mode) "APM")
          (map_or_make a.pod.labels)))
