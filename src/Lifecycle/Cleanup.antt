-- ===== src/Lifecycle/Cleanup.antt =====
-- What `CleanupDependents` deletes, and which entries it drops from the ConfigMap.
use mathlib.Core.Path.{subst}
use instana_agent_operator.Prelude.{
  ℕ, zero, suc, ◌+◌, ◌-◌, ◌*◌, ◌^◌, ltb, String, ◌≡◌, refl, ap, Bool, false, Option, List, [], ◌∷◌,
  Memᴰ, string_comparable, arith, inl, inr, Bool-cases, Mem-cons_cases, All, All-Mem,
}
use instana_agent_operator.Prelude.Dict.{Dict}
use instana_agent_operator.Collections.{deep_diff, map_to}
use instana_agent_operator.Collections.Laws.{Mem-deep_diff_iff}
use instana_agent_operator.Errors.{Error, MultiErrorBuilder}
use instana_agent_operator.Kube.{
  GroupVersionKind, ObjectKey, Object, Unstructured, unstructured_deep_equality,
}
use instana_agent_operator.Kube.Api.{
  Call, apply_call, delete_call, get_call, patch_call, status_call, Cluster, SendsOnly,
  SendsOnly-refl, SendsOnly-trans, SendsOnly-mono, SendsOnly-world, SendsOnly-calls, Server,
  sleep_for,
}
use instana_agent_operator.Kube.Client.Promises.{KeepsPromises, SendsOnly-keeps}
use instana_agent_operator.Kube.Client.Sends.{Concerns}
use instana_agent_operator.Lifecycle.{
  DependentLifecycleManager, as_unstructureds, as_object, data_of, delete_all, cleanup_entries,
  cleanup_attempt, cleanup_dependents, retry, retry_from, get_lifecycle_config_map,
}

-- no content but the identity
abbrev pub IsBare : Unstructured → Type 0
IsBare u = u.other_content ≡ ""

-- the recorded form of an identity
abbrev pub bare_unstructured : GroupVersionKind → ObjectKey → Unstructured
bare_unstructured gvk key = record {
  gvk = gvk;
  name = key.name;
  namespace = key.namespace;
  other_content = "";
}

-- Not a delete of an object with the identity of one of the list.
abbrev pub Spares : List Unstructured → Call → Type 0
Spares current (delete_call gvk key) = ¬ (Memᴰ (bare_unstructured gvk key) current)
Spares current _ = Unit

-- the items of `map_to as_object` come from the list
Mem-map_as_object :
    (us : List Unstructured) (o : Object)
    → Memᴰ o (map_to us as_object)
    → (u : Unstructured) × Memᴰ u us × (o ≡ as_object u)
unfolding map_to
Mem-map_as_object [] o m = elim m [ ]
Mem-map_as_object (u ∷ us) o m = elim (Mem-cons_cases m) [
  | inl same ↦ (u, Memᴰ.head refl, same)
  | inr later ↦ let (v, n, e) = Mem-map_as_object us o later in (v, Memᴰ.tail n, e)
]

Mem-map_to_as_object :
    (us : List Unstructured) (u : Unstructured)
    → Memᴰ u us
    → Memᴰ (as_object u) (map_to us as_object)
unfolding map_to
Mem-map_to_as_object [] u m = elim m [ ]
Mem-map_to_as_object (v ∷ us) u m = elim (Mem-cons_cases m) [
  | inl same ↦ Memᴰ.head (ap as_object same)
  | inr later ↦ Memᴰ.tail (Mem-map_to_as_object us u later)
]

-- A call about an outdated object, which was recorded by its identity, is not a delete of a current one.
Concerns→Spares :
    (old current : List Unstructured) (call : Call)
    → All IsBare old
    → Concerns (map_to (deep_diff old current) as_object) call
    → Spares current call
unfolding as_object
Concerns→Spares old current (delete_call gvk key) bare (o, m, g, k) =
    let (u, n, e) = Mem-map_as_object (deep_diff old current) o m in
    let (recorded, missing) = (Mem-deep_diff_iff old current u).0 n in
    λ there. missing (
      subst (λ v. Memᴰ v current) (ground (arith, g, k, e, All-Mem IsBare old u bare recorded))
        there)
Concerns→Spares old current (get_call gvk key) bare h = tt
Concerns→Spares old current (apply_call dry o) bare h = tt
Concerns→Spares old current (patch_call o) bare h = tt
Concerns→Spares old current (status_call o) bare h = tt

-- any call at all
abbrev pub AnyCall : Call → Type 0
AnyCall call = Unit

-- the delete call for a recorded object
abbrev pub delete_of : Unstructured → Call
delete_of u = delete_call u.gvk (record { namespace = u.namespace; name = u.name })

module _ {W : Type 0} {P : Call → Type 0} (server : Server W) where
  pub retry_from-SendsOnly :
      (fn : Cluster W → Bool × Option Error × Cluster W)
      → ((c : Cluster W) → SendsOnly P c (fn c).2)
      → (left i attempts pause : ℕ) (c : Cluster W)
      → SendsOnly P c (retry_from server left i attempts pause fn c).1
  unfolding retry_from
  retry_from-SendsOnly fn each zero i attempts pause c = SendsOnly-refl c
  retry_from-SendsOnly fn each (suc left) i attempts pause c =
      let c' = (fn c).2 in
      let slept = sleep_for server (pause * 2 ^ i) c' in
      let later = retry_from-SendsOnly fn each left (i + 1) attempts pause in
      elim (Bool-cases (fn c).0) [
        | inl done ↦ rw done (each c)
        | inr again ↦ elim (Bool-cases (ltb i (attempts - 1))) [
          | inl more ↦
              rw (again, more)
                (SendsOnly-trans (each c)
                  (SendsOnly-trans (SendsOnly-world c' slept.world) (later slept)))
          | inr last ↦ rw (again, last) (SendsOnly-trans (each c) (later c'))
        ]
      ]

-- What `delete_all` sends for a list concerns the list.
module _ {W : Type 0} (d : DependentLifecycleManager W) where
  -- the entries of a map hold identities, as `UpdateDependentLifecycleInfo` writes them
  abbrev pub HoldsIdentities : Dict String → Type 0
  HoldsIdentities data' =
      All (λ (entry : String × String). All IsBare (d.json.unmarshal entry.1)) data'

  -- Whenever the ConfigMap is read, its entries hold identities and no further content.
  pub record KeepsIdentities : Type 0 where
    pub holds : (c : Cluster W) → HoldsIdentities (data_of (get_lifecycle_config_map d c).1)

module _ {W : Type 0} (d : DependentLifecycleManager W) (promises : KeepsPromises d.client) where
  delete_all-Concerns :
      (us : List Unstructured) (c : Cluster W)
      → SendsOnly (Concerns (map_to us as_object)) c (delete_all d us c).1
  unfolding delete_all
  delete_all-Concerns us c = promises.spares _ 30000 5000 c

  cleanup_entries-Spares :
      (current : List Unstructured) (entries data' : Dict String) (errs : MultiErrorBuilder)
      (c : Cluster W)
      → HoldsIdentities d entries
      → SendsOnly (Spares current) c (cleanup_entries d current entries data' errs c).2
  unfolding cleanup_entries
  cleanup_entries-Spares current [] data' errs c bare = SendsOnly-refl c
  cleanup_entries-Spares current ((key, json) ∷ entries) data' errs c (bare, later) =
      SendsOnly-trans
        (SendsOnly-mono (λ call h. Concerns→Spares (d.json.unmarshal json) current call bare h)
          (delete_all-Concerns (deep_diff (d.json.unmarshal json) current) c))
        (cleanup_entries-Spares current entries _ _ _ later)

  cleanup_entries-SendsOnly :
      (current : List Unstructured) (entries data' : Dict String) (errs : MultiErrorBuilder)
      (c : Cluster W)
      → SendsOnly AnyCall c (cleanup_entries d current entries data' errs c).2
  unfolding cleanup_entries
  cleanup_entries-SendsOnly current [] data' errs c = SendsOnly-refl c
  cleanup_entries-SendsOnly current ((key, json) ∷ entries) data' errs c =
      SendsOnly-trans
        (SendsOnly-mono (λ call h. tt)
          (delete_all-Concerns (deep_diff (d.json.unmarshal json) current) c))
        (cleanup_entries-SendsOnly current entries _ _ _)

  pub cleanup_attempt-SendsOnly :
      (objects : List Object) (c : Cluster W) → SendsOnly AnyCall c (cleanup_attempt d objects c).2
  unfolding cleanup_attempt
  cleanup_attempt-SendsOnly objects c =
      let (_, cm, c1) = get_lifecycle_config_map d c in
      SendsOnly-trans
        (SendsOnly-calls _ (unfold get_lifecycle_config_map in promises.reads _ _ c) tt)
        (SendsOnly-trans
          (cleanup_entries-SendsOnly (as_unstructureds objects) (data_of cm) (data_of cm) [] c1)
          (SendsOnly-calls _ (promises.applies false _ _) tt))

  cleanup_attempt-Spares :
      KeepsIdentities d
      → (objects : List Object) (c : Cluster W)
      → SendsOnly (Spares (as_unstructureds objects)) c (cleanup_attempt d objects c).2
  unfolding cleanup_attempt
  cleanup_attempt-Spares recorded objects c =
      let (_, cm, c1) = get_lifecycle_config_map d c in
      SendsOnly-trans
        (SendsOnly-calls _ (unfold get_lifecycle_config_map in promises.reads _ _ c) tt)
        (SendsOnly-trans
          (cleanup_entries-Spares (as_unstructureds objects) (data_of cm) (data_of cm) [] c1
            (recorded.holds c))
          (SendsOnly-calls _ (promises.applies false _ _) tt))

  -- what `CleanupDependents` sends, whatever that is
  pub cleanup_dependents-keeps :
      (objects : List Object) (c : Cluster W)
      → SendsOnly AnyCall c (cleanup_dependents d objects c).1
  unfolding cleanup_dependents retry
  cleanup_dependents-keeps objects c =
      retry_from-SendsOnly d.server (cleanup_attempt d objects) (cleanup_attempt-SendsOnly objects)
        5 0 5 100 c

  -- If the entries of the ConfigMap hold identities and no further content whenever it is read,
  -- as the operator writes them, then `CleanupDependents` sends no delete for an object of the
  -- current generation, in any of its attempts.
  pub cleanup_dependents-SendsOnly :
      KeepsIdentities d
      → (objects : List Object) (c : Cluster W)
      → SendsOnly (Spares (as_unstructureds objects)) c (cleanup_dependents d objects c).1
  unfolding cleanup_dependents retry
  cleanup_dependents-SendsOnly recorded objects c =
      retry_from-SendsOnly d.server (cleanup_attempt d objects)
        (cleanup_attempt-Spares recorded objects) 5 0 5 100 c

  delete_all-deletes :
      (us : List Unstructured) (c : Cluster W) (u : Unstructured)
      → Memᴰ u us
      → Memᴰ (delete_of u) (delete_all d us c).1.calls
  unfolding delete_all as_object
  delete_all-deletes us c u m =
      promises.deletes _ 30000 5000 c (as_object u) (omega arith) (Mem-map_to_as_object us u m)

  -- Whatever an entry of the ConfigMap records and the current generation lacks, the loop of
  -- `CleanupDependents` over the entries sends a delete for it, also after failures.
  pub cleanup_entries-deletes :
      (current : List Unstructured) (entries data' : Dict String) (errs : MultiErrorBuilder)
      (c : Cluster W) (key json : String) (u : Unstructured)
      → Memᴰ (key, json) entries
      → Memᴰ u (d.json.unmarshal json)
      → ¬ (Memᴰ u current)
      → Memᴰ (delete_of u) (cleanup_entries d current entries data' errs c).2.calls
  unfolding cleanup_entries
  cleanup_entries-deletes current [] data' errs c key json u m old gone = elim m [ ]
  cleanup_entries-deletes current ((k, j) ∷ entries) data' errs c key json u m old gone =
      elim (Mem-cons_cases m) [
        | inl same ↦ SendsOnly-keeps (cleanup_entries-SendsOnly current entries _ _ _) (
            delete_all-deletes _ c u (
              (Mem-deep_diff_iff (d.json.unmarshal j) current u).1 (
                subst (λ t. Memᴰ u (d.json.unmarshal t)) (ap (λ (p : String × String). p.1) same)
                    old,
                gone,
              )))
        | inr later ↦ cleanup_entries-deletes current entries _ _ _ key json u later old gone
      ]
