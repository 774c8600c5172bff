-- ===== src/Transform.antt =====
-- pkg/k8s/object/transformations/transformations.go, pkg/env, and the builder transformer of
-- pkg/k8s/object/builders/common/builder/builder.go.
pub mod Labels
pub mod Owners
use instana_agent_operator.Prelude.{
  ℕ, String, Bool, true, false, ◌||◌, Option, none, some, List, [], ◌∷◌, ◌++◌, ◌==◌,
  string_comparable, if◌then◌else◌,
}
use instana_agent_operator.Prelude.Dict.{Dict, insert}
use instana_agent_operator.Prelude.Text.{itoa}
use instana_agent_operator.Optional.{
  Optional, optional_of, get_or_default, is_present, pointer_zero, deref_or_empty,
}
use instana_agent_operator.Kube.{OwnerReference, Object}

-- GetOperatorVersion, of the value of the environment variable OPERATOR_VERSION
unfoldable pub get_operator_version : String → String
get_operator_version env = if env == "" then "v0.0.1-dev" else env

-- The metadata of the custom resource, InstanaAgent or InstanaAgentRemote
pub record AgentMeta : Type 0 where
  pub api_version : String
  pub kind : String
  pub name : String
  pub namespace : String
  pub uid : String
  pub generation : ℕ

-- the struct `transformations`, with the package variable `version`
pub record Transformations : Type 0 where
  pub owner_reference : OwnerReference
  pub generation : String
  pub version : String

-- NewTransformations and NewTransformationsRemote, which are alike
unfoldable pub new_transformations : String → AgentMeta → Transformations
new_transformations version agent = record {
  owner_reference = record {
    api_version = agent.api_version;
    kind = agent.kind;
    name = agent.name;
    uid = agent.uid;
    controller = some true;
    block_owner_deletion = some true;
  };
  generation = itoa agent.generation;
  version = version;
}

abbrev pub name_label : String
name_label = "app.kubernetes.io/name"

abbrev pub instance_label : String
instance_label = "app.kubernetes.io/instance"

abbrev pub version_label : String
version_label = "app.kubernetes.io/version"

abbrev pub component_label : String
component_label = "app.kubernetes.io/component"

abbrev pub part_of_label : String
part_of_label = "app.kubernetes.io/part-of"

abbrev pub managed_by_label : String
managed_by_label = "app.kubernetes.io/managed-by"

abbrev pub generation_label : String
generation_label = "agent.instana.io/generation"

-- optional.Of(m).GetOrDefault(make(map...)), then read as a map
abbrev map_or_new : Option (Dict String) → Dict String
map_or_new none = []
map_or_new (some m) = m

module _ (t : Transformations) where
  common_labels : String → Dict String → Dict String
  common_labels component labels = insert generation_label t.generation (
      insert managed_by_label "instana-agent-operator" (
        insert part_of_label "instana" (
          insert component_label component (
            insert version_label t.version (
              insert instance_label t.owner_reference.name
                (insert name_label "instana-agent" labels))))))

  unfoldable pub add_common_labels : String → Object → Object
  unfolding common_labels
  add_common_labels component obj = record obj {
    labels = some (common_labels component (map_or_new obj.labels));
  }

  -- the loop of `AddOwnerReference` over `existing`
  scan_references : List OwnerReference → List OwnerReference → Bool → List OwnerReference × Bool
  scan_references [] new_refs found = (new_refs, found)
  scan_references (ref ∷ existing) new_refs found =
      let keep = new_refs ++ ref ∷ [] in
      let same_name = ref.name == t.owner_reference.name in
      let same_uid = ref.uid == t.owner_reference.uid in
      scan_references existing (if same_name then (if same_uid then keep else new_refs) else keep)
        (if same_name then (if same_uid then true else found) else found)

  owner_references_of : List OwnerReference → List OwnerReference
  unfolding scan_references
  owner_references_of existing =
      let (new_refs, found) = scan_references existing [] false in
      if found then new_refs else new_refs ++ t.owner_reference ∷ []

  unfoldable pub add_owner_reference : Object → Object
  unfolding owner_references_of
  add_owner_reference obj = record obj {
    owner_references = owner_references_of obj.owner_references;
  }

-- the interface `ObjectBuilder`, as what its methods return; a nil object is `none`
pub record ObjectBuilder : Type 0 where
  pub build : Optional (Option Object)
  pub component_name : String
  pub is_namespaced : Bool

abbrev transform : Transformations → ObjectBuilder → Option Object → Optional (Option Object)
transform t builder none = optional_of none
transform t builder (some obj) =
    let labelled = add_common_labels t builder.component_name obj in
    optional_of (some (if builder.is_namespaced then add_owner_reference t labelled else labelled))

-- builderTransformer.Apply
unfoldable pub apply_builder : Transformations → ObjectBuilder → Optional (Option Object)
unfolding is_present
apply_builder t builder =
    if is_present builder.build then transform t builder builder.build.val else builder.build
