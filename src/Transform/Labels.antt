-- ===== src/Transform/Labels.antt =====
-- What `AddCommonLabels` writes.
use instana_agent_operator.Prelude.{
  String, ◌≡◌, Option, some, ◌==◌, string_comparable, if◌then◌else◌,
}
use instana_agent_operator.Prelude.Dict.{lookup, lookup-insert}
use instana_agent_operator.Kube.{Object}
use instana_agent_operator.Transform.{
  Transformations, add_common_labels, map_or_new, name_label, instance_label, version_label,
  component_label, part_of_label, managed_by_label, generation_label,
}

-- obj.GetLabels()[key]; a nil map has no keys
abbrev pub label : String → Object → Option String
label key obj = lookup key (map_or_new obj.labels)

-- After `AddCommonLabels` the seven common labels have their values, whatever the object had, and
-- every other label is as it was.
pub label-add_common_labels :
    (t : Transformations) (component key : String) (obj : Object)
    → label key (add_common_labels t component obj) ≡ (
        if generation_label == key
        then some t.generation
        else if managed_by_label == key
        then some "instana-agent-operator"
        else if part_of_label == key
        then some "instana"
        else if component_label == key
        then some component
        else if version_label == key
        then some t.version
        else if instance_label == key
        then some t.owner_reference.name
        else if name_label == key
        then some "instana-agent"
        else label key obj)
unfolding add_common_labels
label-add_common_labels t component key obj = simp lookup-insert
