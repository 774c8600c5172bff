-- ===== src/Events/Modified.antt =====
-- When `wasModifiedByOther` lets an update pass.
use instana_agent_operator.Prelude.{
  ℕ, true, false, Bool-cases, inl, inr, none, some, Option-cases, List, [], ◌∷◌, ◌++◌, ◌==◌, ◌≡◌,
  ◌≢◌, ◌↔◌, ◌⊎◌, ◌≤◌, refl, All, string_comparable, nat_comparable, arith, eq_iff,
}
use instana_agent_operator.Collections.{deep_contains_element}
use instana_agent_operator.Kube.{ManagedFieldsEntry}
use instana_agent_operator.Events.{
  field_owner_name, entry_deep_equality, last_modified_by_self, modified_since,
  was_modified_by_other,
}

-- the entry is the operator's own, or it is not later than `last`
abbrev pub IsSettled : ℕ → ManagedFieldsEntry → Type 0
IsSettled last m = (m.manager ≡ field_owner_name) ⊎ ((t : ℕ) × (m.time ≡ some t) × (t ≤ last))

IsSettled-modified_since :
    (old : List ManagedFieldsEntry) (last : ℕ) (new : List ManagedFieldsEntry)
    → modified_since old last new ≡ some false
    → All (IsSettled last) new
unfolding modified_since
IsSettled-modified_since old last [] h = tt
IsSettled-modified_since old last (m ∷ new) h =
    let own = eq_iff m.manager field_owner_name in
    elim (Bool-cases (m.manager == field_owner_name)) [
      | inl e ↦ (
        inl (ground (arith, own, e)),
        IsSettled-modified_since old last new (ground (arith, h, e)),
      )
      | inr e ↦ elim (Option-cases m.time) [
        | inl missing ↦ ground (arith, h, e, missing)
        | inr (t, found) ↦ (
          inr (t, found, ground (arith, h, e, found)),
          IsSettled-modified_since old last new (ground (arith, h, e, found)),
        )
      ]
    ]

modified_since-IsSettled :
    (old : List ManagedFieldsEntry) (last : ℕ) (new : List ManagedFieldsEntry)
    → All (IsSettled last) new
    → modified_since old last new ≡ some false
unfolding modified_since
modified_since-IsSettled old last [] h = refl
modified_since-IsSettled old last (m ∷ new) (inl own, h) =
    ground (arith, modified_since-IsSettled old last new h, own, eq_iff m.manager field_owner_name)
modified_since-IsSettled old last (m ∷ new) (inr (t, found, le), h) =
    ground (arith, modified_since-IsSettled old last new h, found, le)

-- The date of the first entry that is the operator's own and has a date.
abbrev pub IsOwnDate : List ManagedFieldsEntry → ℕ → Type 0
IsOwnDate [] last = ⊥
IsOwnDate (m ∷ entries) last =
    ((m.manager ≡ field_owner_name) × (m.time ≡ some last))
    ⊎ (((m.manager ≢ field_owner_name) ⊎ (m.time ≡ none)) × IsOwnDate entries last)

last_modified-IsOwnDate :
    (entries : List ManagedFieldsEntry)
    → last_modified_by_self entries ≢ 0
    → IsOwnDate entries (last_modified_by_self entries)
unfolding last_modified_by_self
last_modified-IsOwnDate [] h = h refl
last_modified-IsOwnDate (m ∷ entries) h =
    let owned = eq_iff m.manager field_owner_name in
    elim (Bool-cases (m.manager == field_owner_name)) [
      | inr e ↦ rw e (
          inr (
            inl (λ own. ground (arith, own, owned, e)),
            last_modified-IsOwnDate entries (λ z. h (rw e z)),
          ))
      | inl e ↦ elim (Option-cases m.time) [
        | inl missing ↦
            rw (e, missing)
              (inr (inr refl, last_modified-IsOwnDate entries (λ z. h (rw (e, missing) z))))
        | inr (t, found) ↦ rw (e, found) (inl (owned.0 e, refl))
      ]
    ]

IsOwnDate-last_modified :
    (entries : List ManagedFieldsEntry) (last : ℕ)
    → IsOwnDate entries last
    → last_modified_by_self entries ≡ last
unfolding last_modified_by_self
IsOwnDate-last_modified [] last h = absurd h
IsOwnDate-last_modified (m ∷ entries) last (inl (own, found)) =
    ground (arith, found, own, eq_iff m.manager field_owner_name)
IsOwnDate-last_modified (m ∷ entries) last (inr (inl other, h)) =
    ground (arith, other, eq_iff m.manager field_owner_name, IsOwnDate-last_modified entries last h)
IsOwnDate-last_modified (m ∷ entries) last (inr (inr missing, h)) =
    ground (arith, missing, IsOwnDate-last_modified entries last h)

-- An update is dropped exactly if one of the new object's managed fields is the operator's own and
-- dated, the first such entry has a date that is not the zero time, and every entry of another
-- manager has a date that is not after it.
pub was_modified_by_other-eq-false_iff :
    (new old : List ManagedFieldsEntry)
    → (was_modified_by_other new old ≡ some false)
      ↔ ((last : ℕ) × IsOwnDate new last × (last ≢ 0) × All (IsSettled last) new)
unfolding was_modified_by_other
was_modified_by_other-eq-false_iff new old =
    let now = last_modified_by_self new in
    (
      λ h. elim (Bool-cases (now == 0)) [
        | inl e ↦ ground (arith, e, h)
        | inr e ↦
            let dated : now ≢ 0 = ground (arith, e) in
            (
              now,
              last_modified-IsOwnDate new dated,
              dated,
              IsSettled-modified_since old now new (ground (arith, h, e)),
            )
      ],
      λ (last, own, dated, settled).
          let same = IsOwnDate-last_modified new last own in
          ground (arith, same, dated, modified_since-IsSettled old last new settled),
    )

modified_since-panics :
    (old : List ManagedFieldsEntry) (last : ℕ) (own : List ManagedFieldsEntry)
    (m : ManagedFieldsEntry) (rest : List ManagedFieldsEntry)
    → All (λ e. e.manager ≡ field_owner_name) own
    → m.manager ≢ field_owner_name
    → m.time ≡ none
    → deep_contains_element old m ≡ true
    → modified_since old last (own ++ m ∷ rest) ≡ none
unfolding modified_since
modified_since-panics old last [] m rest owned foreign undated kept =
    ground (arith, foreign, undated, kept, eq_iff m.manager field_owner_name)
modified_since-panics old last (e ∷ own) m rest (mine, owned) foreign undated kept = ground (
  arith,
  mine,
  eq_iff e.manager field_owner_name,
  modified_since-panics old last own m rest owned foreign undated kept,
)

-- If the first entry of another manager has no date and stood in the old object as it is, and the
-- operator has a dated entry, then the comparison follows a nil pointer and panics.
pub was_modified_by_other-panics :
    (old own : List ManagedFieldsEntry) (m : ManagedFieldsEntry) (rest : List ManagedFieldsEntry)
    → All (λ e. e.manager ≡ field_owner_name) own
    → m.manager ≢ field_owner_name
    → m.time ≡ none
    → deep_contains_element old m ≡ true
    → last_modified_by_self (own ++ m ∷ rest) ≢ 0
    → was_modified_by_other (own ++ m ∷ rest) old ≡ none
unfolding was_modified_by_other
was_modified_by_other-panics old own m rest owned foreign undated kept dated =
    let last = last_modified_by_self (own ++ m ∷ rest) in
    ground (arith, dated, modified_since-panics old last own m rest owned foreign undated kept)
