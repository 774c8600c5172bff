-- ===== src/Transform/Owners.antt =====
-- What `AddOwnerReference` leaves among the owners of an object.
use instana_agent_operator.Prelude.{
  ◌≡◌, refl, ap, ◌∙◌, Bool, true, false, not, ◌&&◌, ◌||◌, List, [], ◌∷◌, ◌++◌, ◌==◌,
  string_comparable, arith, eq_iff, any, All, All-append, inl, inr, Bool-cases, if◌then◌else◌,
}
use mathlib.Core.List.{append_assoc, append-nil}
use instana_agent_operator.Collections.{filter}
use instana_agent_operator.Kube.{OwnerReference, Object}
use instana_agent_operator.Transform.{
  Transformations, scan_references, owner_references_of, add_owner_reference,
}

module _ (t : Transformations) where
  abbrev pub same_name : OwnerReference → Bool
  same_name ref = ref.name == t.owner_reference.name

  -- the owner itself
  abbrev pub is_owner : OwnerReference → Bool
  is_owner ref = ref.name == t.owner_reference.name && ref.uid == t.owner_reference.uid

  abbrev stays : OwnerReference → Bool
  stays ref = not (ref.name == t.owner_reference.name) || is_owner ref

  -- the loop filters, and notes whether it met the owner
  scan-filter :
      (existing new_refs : List OwnerReference) (found : Bool)
      → scan_references t existing new_refs found
        ≡ (new_refs ++ filter existing stays, found || any is_owner existing)
  unfolding scan_references filter
  scan-filter [] new_refs found = ground (arith, append-nil new_refs)
  scan-filter (ref ∷ existing) new_refs found =
      let keep = new_refs ++ ref ∷ [] in
      ground (
        arith,
        scan-filter existing keep true,
        scan-filter existing keep found,
        scan-filter existing new_refs found,
        append_assoc new_refs (ref ∷ []) (filter existing stays),
      )

  owners-eq :
      (existing : List OwnerReference)
      → owner_references_of t existing
        ≡ filter existing stays ++ (if any is_owner existing then [] else t.owner_reference ∷ [])
  unfolding owner_references_of
  owners-eq existing =
      ground (arith, scan-filter existing [] false, append-nil (filter existing stays))

  -- An owner reference of the right name has the right uid.
  abbrev pub IsCurrent : OwnerReference → Type 0
  IsCurrent ref = ref.name ≡ t.owner_reference.name → ref.uid ≡ t.owner_reference.uid

  filter-IsCurrent : (existing : List OwnerReference) → All IsCurrent (filter existing stays)
  unfolding filter
  filter-IsCurrent [] = tt
  filter-IsCurrent (ref ∷ existing) = ground (
    arith,
    filter-IsCurrent existing,
    eq_iff ref.name t.owner_reference.name,
    eq_iff ref.uid t.owner_reference.uid,
  )

  any-filter :
      (existing : List OwnerReference)
      → any is_owner (filter existing stays) ≡ any is_owner existing
  unfolding filter
  any-filter [] = refl
  any-filter (ref ∷ existing) = ground (arith, any-filter existing)

  any-append :
      (xs ys : List OwnerReference) → any is_owner (xs ++ ys) ≡ (any is_owner xs || any is_owner ys)
  any-append [] ys = refl
  any-append (x ∷ xs) ys = ground (arith, any-append xs ys)

  filter-append :
      (xs ys : List OwnerReference) (p : OwnerReference → Bool)
      → filter (xs ++ ys) p ≡ filter xs p ++ filter ys p
  unfolding filter
  filter-append [] ys p = refl
  filter-append (x ∷ xs) ys p = elim (Bool-cases (p x)) [
    | inl kept ↦ rw kept (ap (λ r. x ∷ r) (filter-append xs ys p))
    | inr dropped ↦ rw dropped (filter-append xs ys p)
  ]

  -- references to others
  abbrev pub is_other : OwnerReference → Bool
  is_other ref = not (ref.name == t.owner_reference.name)

  filter-others :
      (existing : List OwnerReference)
      → filter (filter existing stays) is_other ≡ filter existing is_other
  unfolding filter
  filter-others [] = refl
  filter-others (ref ∷ existing) = ground (arith, filter-others existing)

  filter-stays :
      (existing : List OwnerReference)
      → filter (filter existing stays) stays ≡ filter existing stays
  unfolding filter
  filter-stays [] = refl
  filter-stays (ref ∷ existing) = ground (arith, filter-stays existing)

  pub record IsOwned (before after : List OwnerReference) : Type 0 where
    pub current : All IsCurrent after
    pub present : any is_owner after ≡ true
    pub others : filter after is_other ≡ filter before is_other

  owner-is_owner : is_owner t.owner_reference ≡ true
  owner-is_owner = ground (
    arith,
    eq_iff t.owner_reference.name t.owner_reference.name,
    eq_iff t.owner_reference.uid t.owner_reference.uid,
  )

  filter-owner :
      (filter (t.owner_reference ∷ []) is_other ≡ [])
      × (filter (t.owner_reference ∷ []) stays ≡ t.owner_reference ∷ [])
  unfolding filter
  filter-owner = ground (arith, owner-is_owner)

  owners-IsOwned : (refs : List OwnerReference) → IsOwned refs (owner_references_of t refs)
  owners-IsOwned refs = elim (Bool-cases (any is_owner refs)) [
    | inl met ↦
        rw (owners-eq, met, append-nil)
          (record {
            current = filter-IsCurrent refs;
            present = any-filter refs ∙ met;
            others = filter-others refs;
          })
    | inr missed ↦
        rw (owners-eq, missed)
          (record {
            current =
                All-append IsCurrent (filter refs stays) _ (filter-IsCurrent refs)
                  ((λ _. refl), tt);
            present = any-append (filter refs stays) _ ∙ ground (arith, owner-is_owner);
            others =
                filter-append (filter refs stays) _ is_other
                ∙ cc (filter-owner.0, filter-others refs, append-nil (filter refs is_other));
          })
  ]

  owners_idem :
      (refs : List OwnerReference)
      → owner_references_of t (owner_references_of t refs) ≡ owner_references_of t refs
  owners_idem refs =
      let ys = owner_references_of t refs in
      owners-eq ys
      ∙ rw ((owners-IsOwned refs).present, append-nil, owners-eq)
          (elim (Bool-cases (any is_owner refs)) [
            | inl met ↦ rw (met, append-nil) (filter-stays refs)
            | inr missed ↦
                rw missed (
                  filter-append (filter refs stays) _ stays
                  ∙ cc (filter-owner.1, filter-stays refs))
          ])

  -- After `AddOwnerReference` the owner is among the references, no reference has its name and
  -- another uid, and the references of other names are the ones from before, in their order.
  pub add_owner_reference-IsOwned :
      (obj : Object) → IsOwned obj.owner_references (add_owner_reference t obj).owner_references
  unfolding add_owner_reference
  add_owner_reference-IsOwned obj = owners-IsOwned obj.owner_references

  -- Adding the owner twice is adding it once.
  pub add_owner_reference_idem :
      (obj : Object) → add_owner_reference t (add_owner_reference t obj) ≡ add_owner_reference t obj
  unfolding add_owner_reference
  add_owner_reference_idem obj =
      ap (λ (refs : List OwnerReference). record obj { owner_references = refs })
        (owners_idem obj.owner_references)
