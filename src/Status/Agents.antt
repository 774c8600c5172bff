-- ===== src/Status/Agents.antt =====
-- When the condition AllAgentsAvailable is true.
use instana_agent_operator.Prelude.{
  ◌≡◌, refl, ◌↔◌, true, false, Bool-cases, inl, inr, none, Option-cases, List, [], ◌∷◌, ◌++◌,
  string_comparable, nat_comparable, arith, eq_iff, All, All-append,
}
use instana_agent_operator.Collections.{conditions_all}
use instana_agent_operator.Kube.{ObjectKey}
use instana_agent_operator.Status.Workloads.{DaemonSet, daemonset_is_available}
use instana_agent_operator.Status.Availability.{daemonset_is_available_iff}
use instana_agent_operator.Status.Conditions.{ObservedAgent, Outside, all_agents_available_from}

-- A status for the DaemonSet's own generation, in which no pod is misscheduled and every scheduled
-- pod is available and up to date.
pub IsUpToDate : DaemonSet → Type 0
IsUpToDate ds =
    (ds.status_is_zero ≡ false)
    × (ds.generation ≡ ds.status.observed_generation)
    × (ds.status.number_misscheduled ≡ 0)
    × (ds.status.desired_number_scheduled ≡ ds.status.number_available)
    × (ds.status.desired_number_scheduled ≡ ds.status.updated_number_scheduled)

conditions_all_iff :
    (l : List DaemonSet) → (conditions_all l daemonset_is_available ≡ true) ↔ All IsUpToDate l
unfolding conditions_all IsUpToDate
conditions_all_iff [] = (λ h. tt, λ h. refl)
conditions_all_iff (ds ∷ l) =
    let (there, back) = conditions_all_iff l in
    let (up, down) = daemonset_is_available_iff ds in
    elim (Bool-cases (daemonset_is_available ds)) [
      | inl e ↦ rw e (λ h. (up e, there h), λ h. back h.1)
      | inr e ↦ rw e (λ h. ground (arith, h), λ h. ground (arith, down h.0, e))
    ]

module _ {W : Type 0} (outside : Outside W) where
  -- The DaemonSets are read one after the other; each read succeeds, and what it gives is up to
  -- date.
  unfoldable pub AreUpToDate : List ObjectKey → W → Type 0
  AreUpToDate [] w = Unit
  AreUpToDate (key ∷ keys) w =
      ((outside.get_daemon_set key w).0.err ≡ none)
      × IsUpToDate (outside.get_daemon_set key w).0.res
      × AreUpToDate keys (outside.get_daemon_set key w).1

  All-last :
      (l : List DaemonSet) (ds : DaemonSet)
      → All IsUpToDate (l ++ ds ∷ [])
      → All IsUpToDate l × IsUpToDate ds
  All-last [] ds (h, _) = (tt, h)
  All-last (x ∷ l) ds (p, h) = let (before, last) = All-last l ds h in ((p, before), last)

  pub all_agents_available_from-status_iff :
      (o : ObservedAgent) (keys : List ObjectKey) (daemonsets : List DaemonSet) (w : W)
      → ((all_agents_available_from outside o keys daemonsets w).0.res.status ≡ "True")
        ↔ (All IsUpToDate daemonsets × AreUpToDate keys w)
  unfolding all_agents_available_from AreUpToDate
  all_agents_available_from-status_iff o [] daemonsets w =
      let (there, back) = conditions_all_iff daemonsets in
      elim (Bool-cases (conditions_all daemonsets daemonset_is_available)) [
        | inl e ↦ rw e (λ h. (there e, tt), λ h. refl)
        | inr e ↦
            rw e (λ h. ground (arith, h, eq_iff "False" "True"), λ h. ground (arith, back h.0, e))
      ]
  all_agents_available_from-status_iff o (key ∷ keys) daemonsets w =
      let (res, w') = outside.get_daemon_set key w in
      let (there, back) =
        all_agents_available_from-status_iff o keys (daemonsets ++ res.res ∷ []) w' in
      elim (Option-cases res.err) [
        | inl e ↦ rw e (
          λ h.
              let (all, later) = there h in
              let (before, last) = All-last daemonsets res.res all in (before, (refl, last, later)),
          λ (before, (_, last, later)).
              back (All-append IsUpToDate daemonsets (res.res ∷ []) before (last, tt), later),
        )
        | inr (x, e) ↦ rw e (
          λ h. ground (arith, h, eq_iff "Unknown" "True"),
          λ (before, (ok, _, _)). ground (arith, ok),
        )
      ]
