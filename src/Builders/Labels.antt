-- ===== src/Builders/Labels.antt =====
-- pkg/k8s/object/transformations/pod_selector.go: the labels that a workload puts on its pods and
-- those by which it selects them; and the template's labels of the two workload builders, which
-- write to the map of labels of the resource that they share.
pub mod Selects
use instana_agent_operator.Prelude.{String, Option, none, some, [], ◌∷◌}
use instana_agent_operator.Prelude.Dict.{Dict, insert}
use instana_agent_operator.Collections.Maps.{map_or_make, copy_map}
use instana_agent_operator.Transform.{
  name_label, instance_label, component_label, part_of_label, managed_by_label,
}
use instana_agent_operator.Agent.{InstanaAgent, Zone}

abbrev pub zone_label : String
zone_label = "io.instana/zone"

abbrev pub label_agent_mode : String
label_agent_mode = "instana/agent-mode"

-- `podSelectorLabelGenerator`
pub record PodSelectorLabelGenerator : Type 0 where
  pub instana_agent : InstanaAgent
  pub zone : Option Zone
  pub component : String

abbrev with_zone : Option Zone → Dict String → Dict String
with_zone none labels = labels
with_zone (some z) labels = insert zone_label z.name labels

module _ (p : PodSelectorLabelGenerator) where
  unfoldable pub get_pod_labels : Option (Dict String) → Dict String
  unfolding copy_map
  get_pod_labels user_labels = with_zone p.zone (
      insert managed_by_label "instana-agent-operator" (
        insert part_of_label "instana" (
          insert component_label p.component (
            insert instance_label p.instana_agent.name
              (insert name_label "instana-agent" (copy_map user_labels))))))

  unfoldable pub get_pod_selector_labels : Dict String
  get_pod_selector_labels = with_zone p.zone (
      insert component_label p.component
        (insert instance_label p.instana_agent.name (insert name_label "instana-agent" [])))

-- The map of labels in the resource after podLabels[key] = value: a nil map is left alone, since the
-- builder then writes to a new one.
abbrev pub written : String → String → Option (Dict String) → Option (Dict String)
written key value none = none
written key value (some labels) = some (insert key value labels)

abbrev pub with_pod_labels : Option (Dict String) → InstanaAgent → InstanaAgent
with_pod_labels labels a = record a {
  spec = record a.spec {
    agent = record a.spec.agent { pod = record a.spec.agent.pod { labels = labels } };
  };
}

-- `getPodTemplateLabels` for an agent mode: the labels, and the resource as it is left behind
unfoldable pub labels_for_mode :
    PodSelectorLabelGenerator → String → InstanaAgent → Dict String × InstanaAgent
unfolding get_pod_labels
labels_for_mode p mode a =
    let labels = a.spec.agent.pod.labels in
    (
      get_pod_labels p (some (insert label_agent_mode mode (map_or_make labels))),
      with_pod_labels (written label_agent_mode mode labels) a,
    )
