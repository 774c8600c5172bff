-- ===== src/Builders/Labels/Selects.antt =====
-- The labels of `getPodSelectorLabels` beside those of `getPodLabels`, and that the write to the
-- shared map of labels does not show in the labels of another workload.
use instana_agent_operator.Prelude.{
  String, ◌≡◌, refl, ap, Option, none, some, Option-cases, [], inl, inr,
}
use instana_agent_operator.Prelude.Dict.{Dict, insert, lookup, insert-insert}
use instana_agent_operator.Collections.Maps.{
  copy_map, IsIncluded, nil-IsIncluded, insert-IsIncluded, insert-IsIncluded_right,
}
use instana_agent_operator.Transform.{
  name_label, instance_label, component_label, part_of_label, managed_by_label,
}
use instana_agent_operator.Agent.{InstanaAgent}
use instana_agent_operator.Builders.Labels.{
  PodSelectorLabelGenerator, zone_label, get_pod_labels, get_pod_selector_labels, label_agent_mode,
  labels_for_mode,
}

-- the three labels of every selector
unlabelled : (p : PodSelectorLabelGenerator) → Dict String
unlabelled p =
    insert component_label p.component
      (insert instance_label p.instana_agent.name (insert name_label "instana-agent" []))

lookup-other :
    (p : PodSelectorLabelGenerator)
    → (lookup part_of_label (unlabelled p) ≡ none) × (lookup managed_by_label (unlabelled p) ≡ none)
unfolding unlabelled lookup insert
lookup-other p = (refl, refl)

fixed-IsIncluded :
    (p : PodSelectorLabelGenerator) (m : Dict String)
    → IsIncluded (unlabelled p) (
        insert managed_by_label "instana-agent-operator" (
          insert part_of_label "instana" (
            insert component_label p.component
              (insert instance_label p.instana_agent.name (insert name_label "instana-agent" m)))))
unfolding unlabelled
fixed-IsIncluded p m =
    insert-IsIncluded_right managed_by_label _ (unlabelled p) _ (lookup-other p).1 (
      insert-IsIncluded_right part_of_label _ (unlabelled p) _ (lookup-other p).0 (
        insert-IsIncluded component_label _ _ _ (
          insert-IsIncluded instance_label _ _ _
            (insert-IsIncluded name_label _ _ _ (nil-IsIncluded m)))))

-- Each label that `getPodSelectorLabels` gives is among those that the same generator's
-- `GetPodLabels` gives, with the same value.
pub get_pod_labels-IsIncluded :
    (p : PodSelectorLabelGenerator) (user_labels : Option (Dict String))
    → IsIncluded (get_pod_selector_labels p) (get_pod_labels p user_labels)
unfolding get_pod_labels get_pod_selector_labels unlabelled
get_pod_labels-IsIncluded p user_labels = elim (Option-cases p.zone) [
  | inl e ↦ rw e (fixed-IsIncluded p (copy_map user_labels))
  | inr (z, e) ↦ rw e (
      insert-IsIncluded zone_label z.name (unlabelled p) _
        (fixed-IsIncluded p (copy_map user_labels)))
]

-- The labels of a template do not depend on which other templates were built before: the write to
-- the map of labels in the resource that `getPodTemplateLabels` leaves behind is overwritten.
pub labels_for_mode-after :
    (p q : PodSelectorLabelGenerator) (mode earlier : String) (a : InstanaAgent)
    → (labels_for_mode p mode (labels_for_mode q earlier a).1).0 ≡ (labels_for_mode p mode a).0
unfolding labels_for_mode get_pod_labels
labels_for_mode-after p q mode earlier a = elim (Option-cases a.spec.agent.pod.labels) [
  | inl e ↦ rw e refl
  | inr (labels, e) ↦
      rw e
        (ap (λ l. get_pod_labels p (some l)) (insert-insert label_agent_mode mode earlier labels))
]
