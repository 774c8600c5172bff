-- ===== src/Lifecycle/Entries.antt =====
-- Which entries of the ConfigMap the loop of `CleanupDependents` drops.
use instana_agent_operator.Prelude.{
  String, ◌≡◌, ◌≢◌, refl, ap, ◌∙◌, none, some, List, [], ◌∷◌, ◌++◌, ◌⊎◌, ◌==◌, string_comparable,
  arith, eq_iff, inl, inr, Option-cases, Bool-cases,
}
use instana_agent_operator.Prelude.Dict.{Dict, lookup, erase, lookup-erase}
use instana_agent_operator.Collections.{deep_diff}
use instana_agent_operator.Errors.{MultiErrorBuilder, add_single}
use instana_agent_operator.Kube.{Unstructured, unstructured_deep_equality}
use instana_agent_operator.Kube.Api.{Cluster}
use instana_agent_operator.Lifecycle.{
  DependentLifecycleManager, get_current_gen_key, delete_all, cleanup_entries,
}

module _ {W : Type 0} (d : DependentLifecycleManager W) where
  -- the cluster after the deletions for some entries
  abbrev pub after_deletions : List Unstructured → Dict String → Cluster W → Cluster W
  after_deletions current [] c = c
  after_deletions current ((key, json) ∷ entries) c =
      after_deletions current entries (delete_all d (deep_diff (d.json.unmarshal json) current) c).1

  -- An entry that the loop drops: its key is not that of the current generation, and in this very
  -- loop, after the deletions for the entries before it, the deletion of its outdated objects
  -- returned nil.
  pub record IsDropped (current : List Unstructured) (entries : Dict String) (c : Cluster W)
      (key : String) : Type 0 where
    pub json : String
    pub before : Dict String
    pub after : Dict String
    pub listed : entries ≡ before ++ (key, json) ∷ after
    pub not_current : key ≢ get_current_gen_key d
    pub deleted :
        (delete_all d
          (deep_diff (d.json.unmarshal json) current)
          (after_deletions current before c)).0
        ≡ none

  IsDropped-cons :
      {current : List Unstructured} {entries : Dict String} {key : String} (k json : String)
      (c : Cluster W)
      → IsDropped current entries (delete_all d (deep_diff (d.json.unmarshal json) current) c).1 key
      → IsDropped current ((k, json) ∷ entries) c key
  IsDropped-cons k json c x = record {
    json = x.json;
    before = (k, json) ∷ x.before;
    after = x.after;
    listed = ap (λ l. (k, json) ∷ l) x.listed;
    not_current = x.not_current;
    deleted = x.deleted;
  }

  -- After the loop each key has its value from before, or it is gone, and then it is not the key of
  -- the current generation, and the loop's deletion of the outdated objects of its entry returned
  -- nil.
  pub lookup-cleanup_entries :
      (current : List Unstructured) (entries data' : Dict String) (errs : MultiErrorBuilder)
      (c : Cluster W) (key : String)
      → (lookup key (cleanup_entries d current entries data' errs c).0 ≡ lookup key data')
        ⊎ ((lookup key (cleanup_entries d current entries data' errs c).0 ≡ none)
            × IsDropped current entries c key)
  unfolding cleanup_entries
  lookup-cleanup_entries current [] data' errs c key = inl refl
  lookup-cleanup_entries current ((k, json) ∷ entries) data' errs c key =
      let deletion = delete_all d (deep_diff (d.json.unmarshal json) current) c in
      let gen = get_current_gen_key d in
      elim (Option-cases deletion.0) [
        | inr (e, failed) ↦
            rw (failed, cleanup_entries)
              (elim (lookup-cleanup_entries current entries data' (add_single (some e) errs)
                deletion.1 key) [
                  | inl same ↦ inl same
                  | inr (gone, x) ↦ inr (gone, IsDropped-cons k json c x)
                ])
        | inl deleted ↦ elim (Bool-cases (k == gen)) [
          | inl now ↦
              rw (deleted, cleanup_entries)
                (rw now (elim (lookup-cleanup_entries current entries data' errs deletion.1 key) [
                  | inl same ↦ inl same
                  | inr (gone, x) ↦ inr (gone, IsDropped-cons k json c x)
                ]))
          | inr older ↦
              rw (deleted, cleanup_entries)
                (rw older
                  (elim (lookup-cleanup_entries current entries (erase k data') errs deletion.1
                    key) [
                      | inr (gone, x) ↦ inr (gone, IsDropped-cons k json c x)
                      | inl same ↦ elim (Bool-cases (k == key)) [
                        | inr other ↦ inl (same ∙ ground (arith, other, lookup-erase k key data'))
                        | inl hit ↦ inr (
                          same ∙ ground (arith, hit, lookup-erase k key data'),
                          record {
                            json = json;
                            before = [];
                            after = entries;
                            listed = ap (λ s. (s, json) ∷ entries) ((eq_iff k key).0 hit);
                            not_current = λ e. ground (arith, e, hit, eq_iff k key, eq_iff k gen);
                            deleted = deleted;
                          },
                        )
                      ]
                    ]))
        ]
      ]
