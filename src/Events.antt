-- ===== src/Events.antt =====
-- controllers/event_filter.go: which events of watched objects start a reconciliation. A time is a
-- number, and the zero time is 0.
pub mod Modified
use instana_agent_operator.Prelude.{
  ℕ, String, Bool, true, false, not, Option, none, some, List, [], ◌∷◌, ◌==◌, ◌&&◌, ◌↔◌, ◌≡◌,
  DeepEquality, string_comparable, nat_comparable, ltb, arith, eq_iff, nat_beq_iff, if◌then◌else◌,
}
use instana_agent_operator.Collections.{deep_contains_element}
use instana_agent_operator.Kube.{ManagedFieldsEntry}

-- `FieldOwnerName` of pkg/k8s/client
abbrev pub field_owner_name : String
field_owner_name = "instana-agent-operator"

abbrev pub time_beq : Option ℕ → Option ℕ → Bool
time_beq none none = true
time_beq (some a) (some b) = a == b
time_beq none (some b) = false
time_beq (some a) none = false

time_beq_iff : (a b : Option ℕ) → (time_beq a b ≡ true) ↔ (a ≡ b)
time_beq_iff none none = ground arith
time_beq_iff (some a) (some b) = ground arith
time_beq_iff none (some b) = ground arith
time_beq_iff (some a) none = ground arith

abbrev pub entry_beq : ManagedFieldsEntry → ManagedFieldsEntry → Bool
entry_beq a b = a.manager == b.manager && time_beq a.time b.time && a.fields == b.fields

pub entry_beq_iff : (a b : ManagedFieldsEntry) → (entry_beq a b ≡ true) ↔ (a ≡ b)
entry_beq_iff a b =
    ground (arith, eq_iff a.manager b.manager, time_beq_iff a.time b.time, eq_iff a.fields b.fields)

-- reflect.DeepEqual
instance abbrev pub entry_deep_equality : DeepEquality ManagedFieldsEntry
entry_deep_equality = record { deep_equal = entry_beq; deep_equal_iff = entry_beq_iff }

-- the first loop of `wasModifiedByOther`
unfoldable pub last_modified_by_self : List ManagedFieldsEntry → ℕ
last_modified_by_self [] = 0
last_modified_by_self (mfe ∷ entries) =
    let rest = last_modified_by_self entries in
    if mfe.manager == field_owner_name then elim mfe.time [ none ↦ rest | some t ↦ t ] else rest

-- the second loop; `none` says that it follows a nil time and panics
unfoldable pub modified_since : List ManagedFieldsEntry → ℕ → List ManagedFieldsEntry → Option Bool
modified_since old last [] = some false
modified_since old last (mfe ∷ entries) =
    let rest = modified_since old last entries in
    if mfe.manager == field_owner_name then rest else elim mfe.time [
      | none ↦ if not (deep_contains_element old mfe) then some true else none
      | some t ↦ if ltb last t then some true else rest
    ]

-- `wasModifiedByOther`, of the managed fields of the two objects
unfoldable pub was_modified_by_other :
    List ManagedFieldsEntry → List ManagedFieldsEntry → Option Bool
was_modified_by_other new old =
    let last = last_modified_by_self new in
    if last == 0 then some true else modified_since old last new

-- the type switch on the object of an event
pub data Watched : Type 0 where
  instana_agent : Watched
  instana_agent_remote : Watched
  dependent : Watched

pub record WatchedObject : Type 0 where
  pub type_of : Watched
  pub generation : ℕ
  pub managed_fields : List ManagedFieldsEntry

-- predicate.Funcs; an update may panic
pub record Predicate : Type 0 where
  pub create_func : WatchedObject → Bool
  pub update_func : WatchedObject → WatchedObject → Option Bool
  -- the flag is DeleteStateUnknown
  pub delete_func : WatchedObject → Bool → Bool

abbrev update_of_other : WatchedObject → WatchedObject → Option Bool
update_of_other old new = was_modified_by_other new.managed_fields old.managed_fields

abbrev generation_changed : WatchedObject → WatchedObject → Option Bool
generation_changed old new = some (not (old.generation == new.generation))

unfoldable pub filter_predicate : Predicate
filter_predicate = record {
  create_func = λ object. elim object.type_of [ instana_agent ↦ true | _ ↦ false ];
  update_func = λ old new. elim old.type_of [
    | instana_agent ↦ generation_changed old new
    | _ ↦ update_of_other old new
  ];
  delete_func = λ object unknown. elim object.type_of [ instana_agent ↦ not unknown | _ ↦ true ];
}

unfoldable pub filter_predicate_remote : Predicate
filter_predicate_remote = record {
  create_func = λ object. elim object.type_of [ instana_agent_remote ↦ true | _ ↦ false ];
  update_func = λ old new. elim old.type_of [
    | instana_agent_remote ↦ generation_changed old new
    | _ ↦ update_of_other old new
  ];
  delete_func =
      λ object unknown. elim object.type_of [ instana_agent_remote ↦ not unknown | _ ↦ true ];
}
