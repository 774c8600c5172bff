-- ===== src/Tests/Filters.antt =====
-- The event filter.
use instana_agent_operator.Prelude.{
  ℕ, ◌≡◌, ◌≢◌, ◌↔◌, ◌++◌, refl, none, some, List, [], ◌∷◌, All, arith, eq_iff, false,
}
use instana_agent_operator.Kube.{ManagedFieldsEntry}
use instana_agent_operator.Collections.{deep_contains_element}
use instana_agent_operator.Events.{
  field_owner_name, was_modified_by_other, last_modified_by_self, modified_since,
}
use instana_agent_operator.Events.Modified.{
  IsOwnDate, IsSettled, was_modified_by_other-eq-false_iff, was_modified_by_other-panics,
}

abbrev own_entry : ManagedFieldsEntry
own_entry = record { manager = field_owner_name; time = some 5; fields = "" }

abbrev undated_entry : ManagedFieldsEntry
undated_entry = record { manager = "kubectl"; time = none; fields = "" }

abbrev entries : List ManagedFieldsEntry
entries = own_entry ∷ record { manager = "kubelet"; time = some 4; fields = "" } ∷ []

modified_test : was_modified_by_other entries [] ≡ some false
unfolding was_modified_by_other last_modified_by_self modified_since
modified_test = refl

was_modified_by_other-eq-false_iff_example :
    (was_modified_by_other entries [] ≡ some false)
    ↔ ((last : ℕ) × IsOwnDate entries last × (last ≢ 0) × All (IsSettled last) entries)
was_modified_by_other-eq-false_iff_example = was_modified_by_other-eq-false_iff entries []

was_modified_by_other-panics_example :
    was_modified_by_other ((own_entry ∷ []) ++ undated_entry ∷ []) (undated_entry ∷ []) ≡ none
unfolding deep_contains_element last_modified_by_self
was_modified_by_other-panics_example =
    was_modified_by_other-panics (undated_entry ∷ []) (own_entry ∷ []) undated_entry [] (refl, tt)
      (λ e. ground (arith, e, eq_iff "kubectl" "instana-agent-operator")) refl refl
      (λ e. ground (arith, e))
