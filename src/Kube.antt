-- ===== src/Kube.antt =====
-- The Kubernetes objects as far as the operator's generic code looks at them: identity, metadata,
-- and an opaque payload. The types are those of k8s.io/apimachinery that the sources name.
pub mod Api
pub mod Client
use instana_agent_operator.Prelude.{
  ℕ, String, ◌≡◌, ◌↔◌, Bool, true, ◌&&◌, Option, none, List, [], Comparable, DeepEquality, ◌==◌,
  arith, eq_iff, string_comparable,
}
use instana_agent_operator.Prelude.Dict.{Dict}

-- schema.GroupVersionKind
pub record GroupVersionKind : Type 0 where
  pub group : String
  pub version : String
  pub kind : String

-- types.NamespacedName, client.ObjectKey
pub record ObjectKey : Type 0 where
  pub namespace : String
  pub name : String

-- metav1.OwnerReference, with the pointers to Boolean
pub record OwnerReference : Type 0 where
  pub api_version : String
  pub kind : String
  pub name : String
  pub uid : String
  pub controller : Option Bool
  pub block_owner_deletion : Option Bool

-- metav1.ManagedFieldsEntry: the manager, the time (a pointer), and the rest of the entry
pub record ManagedFieldsEntry : Type 0 where
  pub manager : String
  pub time : Option ℕ
  pub fields : String

-- client.Object; labels and annotations are maps that may be nil, and so is the payload, which is the Data of a
-- ConfigMap or Secret; the type is that of a Secret
pub record Object : Type 0 where
  pub gvk : GroupVersionKind
  pub name : String
  pub namespace : String
  pub resource_version : String
  pub labels : Option (Dict String)
  pub annotations : Option (Dict String)
  pub owner_references : List OwnerReference
  pub managed_fields : List ManagedFieldsEntry
  pub payload : Option (Dict String)
  pub secret_type : String

-- unstructured.Unstructured: the fields that lifecycle/helpers.go sets, and all else that the content
-- holds, as a text that is empty if there is nothing else
pub record Unstructured : Type 0 where
  pub gvk : GroupVersionKind
  pub name : String
  pub namespace : String
  pub other_content : String

abbrev pub gvk_beq : GroupVersionKind → GroupVersionKind → Bool
gvk_beq a b = a.group == b.group && a.version == b.version && a.kind == b.kind

abbrev pub unstructured_beq : Unstructured → Unstructured → Bool
unstructured_beq a b =
    gvk_beq a.gvk b.gvk
    && a.name == b.name
    && a.namespace == b.namespace
    && a.other_content == b.other_content

pub gvk_beq_iff : (a b : GroupVersionKind) → (gvk_beq a b ≡ true) ↔ (a ≡ b)
gvk_beq_iff a b =
    ground (arith, eq_iff a.group b.group, eq_iff a.version b.version, eq_iff a.kind b.kind)

pub unstructured_beq_iff : (a b : Unstructured) → (unstructured_beq a b ≡ true) ↔ (a ≡ b)
unstructured_beq_iff a b = ground (
  arith,
  gvk_beq_iff a.gvk b.gvk,
  eq_iff a.name b.name,
  eq_iff a.namespace b.namespace,
  eq_iff a.other_content b.other_content,
)

-- reflect.DeepEqual, of the whole contents
instance abbrev pub unstructured_deep_equality : DeepEquality Unstructured
unstructured_deep_equality = record {
  deep_equal = unstructured_beq;
  deep_equal_iff = unstructured_beq_iff;
}

abbrev pub key_beq : ObjectKey → ObjectKey → Bool
key_beq a b = a.namespace == b.namespace && a.name == b.name

pub key_beq_iff : (a b : ObjectKey) → (key_beq a b ≡ true) ↔ (a ≡ b)
key_beq_iff a b = ground (arith, eq_iff a.namespace b.namespace, eq_iff a.name b.name)

instance abbrev pub key_comparable : Comparable ObjectKey
key_comparable = record { equal = key_beq; equal_iff = key_beq_iff }

-- client.ObjectKeyFromObject
abbrev pub key_from_object : Object → ObjectKey
key_from_object o = record { namespace = o.namespace; name = o.name }

-- An object with nothing but its identity: what `&unstructured.Unstructured{}` and the literals
-- that set only name and namespace stand for.
abbrev pub bare_object : GroupVersionKind → String → String → Object
bare_object gvk name namespace = record {
  gvk = gvk;
  name = name;
  namespace = namespace;
  resource_version = "";
  labels = none;
  annotations = none;
  owner_references = [];
  managed_fields = [];
  payload = none;
  secret_type = "";
}
