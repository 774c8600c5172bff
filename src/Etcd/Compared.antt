-- ===== src/Etcd/Compared.antt =====
-- The comparison of discovered targets with those in a Deployment.
use instana_agent_operator.Prelude.{
  String, ◌≡◌, refl, sym, ap, ◌∙◌, ◌↔◌, false, not, Bool-cases, inl, inr, List, ◌∷◌, All-Mem,
  All-of_Mem, arith, eq_iff, string_comparable,
}
use mathlib.Core.Path.{subst}
use mathlib.Core.List.{Permᴰ}
use instana_agent_operator.Prelude.Text.{join}
use instana_agent_operator.Prelude.Split.{split, comma, IsFree, split-join}
use instana_agent_operator.Prelude.Sort.{sort_by, insert_by, sort_by-cons, Mem-sort_by_iff}
use instana_agent_operator.Prelude.Order.{sort_texts-eq_iff}
use instana_agent_operator.Builders.Workloads.{Container}
use instana_agent_operator.Builders.Helpers.{is_set}
use instana_agent_operator.Etcd.Discovery.{sort_strings}
use instana_agent_operator.Etcd.Context.{
  with_sorted_pieces, current_targets, compare_and_update_etcd_targets,
}

pub sort_strings-IsFree : (l : List String) → IsFree comma l → IsFree comma (sort_strings l)
sort_strings-IsFree l free =
    All-of_Mem _ (sort_strings l)
      (λ s mem. All-Mem _ l s free ((Mem-sort_by_iff (λ (x : String). x) s l).0 mem))

pub split-sorted :
    (t : String) (ts : List String)
    → IsFree comma (t ∷ ts)
    → split (join (sort_strings (t ∷ ts)) ",") comma ≡ sort_strings (t ∷ ts)
split-sorted t ts free =
    let (s, ss, e) = sort_by-cons (λ (x : String). x) t ts in
    rw e (split-join comma s ss (subst (λ l. IsFree comma l) e (sort_strings-IsFree (t ∷ ts) free)))

with_sorted-split : (s : String) → with_sorted_pieces s ≡ join (sort_strings (split s comma)) ","
unfolding with_sorted_pieces split sort_by insert_by join
with_sorted-split s = elim (Bool-cases (is_set s)) [
  | inl e ↦ ground (arith, e)
  | inr e ↦
      let empty : s ≡ "" = ground (arith, e, eq_iff s "") in
      subst (λ x. with_sorted_pieces x ≡ join (sort_strings (split x comma)) ",") (sym empty) refl
]

-- The comparison is one of the two lists once sorted.
pub compare-sorted_iff :
    (existing : List Container) (t u : String) (ts us : List String)
    → IsFree comma (t ∷ ts)
    → IsFree comma (u ∷ us)
    → current_targets existing ≡ join (t ∷ ts) ","
    → (compare_and_update_etcd_targets existing (u ∷ us) ≡ false)
      ↔ (sort_strings (t ∷ ts) ≡ sort_strings (u ∷ us))
unfolding compare_and_update_etcd_targets
compare-sorted_iff existing t u ts us free free' now =
    let cur = sort_strings (t ∷ ts) in
    let new = sort_strings (u ∷ us) in
    let sorted : with_sorted_pieces (current_targets existing) ≡ join cur "," =
      ap with_sorted_pieces now
      ∙ with_sorted-split (join (t ∷ ts) ",")
      ∙ ap (λ l. join (sort_strings l) ",") (split-join comma t ts free) in
    (
      λ same.
          sym (split-sorted t ts free)
          ∙ ap (λ s. split s comma)
              (sym sorted
                ∙ (eq_iff (with_sorted_pieces (current_targets existing)) (join new ",")).0
                    (ground (arith, same)))
          ∙ split-sorted u us free',
      λ same. ap not (
          (eq_iff (with_sorted_pieces (current_targets existing)) (join new ",")).1
            (sorted ∙ ap (λ l. join l ",") same)),
    )

-- If the Deployment's variable has targets joined with commas, neither this list nor the discovered
-- one is empty, and no target in them has a comma, then the Deployment counts as up to date exactly
-- if one list is a permutation of the other.
pub compare-eq-false_iff :
    (existing : List Container) (t u : String) (ts us : List String)
    → IsFree comma (t ∷ ts)
    → IsFree comma (u ∷ us)
    → current_targets existing ≡ join (t ∷ ts) ","
    → (compare_and_update_etcd_targets existing (u ∷ us) ≡ false) ↔ Permᴰ (t ∷ ts) (u ∷ us)
compare-eq-false_iff existing t u ts us free free' now =
    let (sorted, equal) = compare-sorted_iff existing t u ts us free free' now in
    let (same, permuted) = sort_texts-eq_iff (t ∷ ts) (u ∷ us) in
    (λ h. same (sorted h), λ p. equal (permuted p))
