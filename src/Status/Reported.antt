-- ===== src/Status/Reported.antt =====
-- The conditions in the status that `UpdateAgentStatus` sends.
use instana_agent_operator.Prelude.{
  String, ◌≡◌, ◌≢◌, ◌↔◌, refl, ◌∙◌, true, Bool-cases, inl, inr, Option, none, some, List, [], ◌∷◌,
  ◌++◌, ◌==◌, string_comparable, nat_comparable, arith, eq_iff, if◌then◌else◌,
}
use instana_agent_operator.Errors.{Error, MultiErrorBuilder, add_single}
use instana_agent_operator.Results.{Result, is_success, on_failure}
use instana_agent_operator.Kube.{ObjectKey}
use instana_agent_operator.Status.Workloads.{DaemonSet}
use instana_agent_operator.Status.Conditions.{
  Condition, ObservedAgent, Outside, AgentStatusManager, get_reconcile_succeeded_condition,
  get_all_agents_available_condition, all_agents_available_from,
  get_all_k8s_sensors_available_condition, condition_type_reconcile_succeeded,
  condition_type_all_agents_available, condition_type_all_k8s_sensors_available,
}
use instana_agent_operator.Status.Agents.{AreUpToDate, all_agents_available_from-status_iff}
use instana_agent_operator.Status.{
  Progress, set_condition_and_fire_event, set_k8s_sensors_condition, set_conditions,
  deprecated_fields, new_fields, agent_with_updated_status,
}

-- meta.FindStatusCondition
unfoldable pub find_status_condition : List Condition → String → Option Condition
find_status_condition [] type' = none
find_status_condition (c ∷ cs) type' =
    let rest = find_status_condition cs type' in if c.condition_type == type' then some c else rest

-- What meta.SetStatusCondition is documented to do: the condition of that type is the given one,
-- the others stay.
pub record SetsCondition (set : List Condition → Condition → List Condition) : Type 0 where
  pub find_set :
      (cs : List Condition) (c : Condition)
      → find_status_condition (set cs c) c.condition_type ≡ some c
  pub find_other :
      (cs : List Condition) (c : Condition) (type' : String)
      → type' ≢ c.condition_type
      → find_status_condition (set cs c) type' ≡ find_status_condition cs type'

module _ {W : Type 0} (outside : Outside W)
    (sets : SetsCondition outside.set_status_condition) where
  condition_type-reconcile_succeeded :
      (o : ObservedAgent) (err : Option Error)
      → (get_reconcile_succeeded_condition outside o err).condition_type
        ≡ condition_type_reconcile_succeeded
  unfolding get_reconcile_succeeded_condition
  condition_type-reconcile_succeeded o none = refl
  condition_type-reconcile_succeeded o (some e) = refl

  condition_type-all_agents_available :
      (o : ObservedAgent) (keys : List ObjectKey) (daemonsets : List DaemonSet) (w : W)
      → (all_agents_available_from outside o keys daemonsets w).0.res.condition_type
        ≡ condition_type_all_agents_available
  unfolding all_agents_available_from
  condition_type-all_agents_available o [] daemonsets w = ground arith
  condition_type-all_agents_available o (key ∷ keys) daemonsets w =
      let (res, w') = outside.get_daemon_set key w in
      ground (arith, condition_type-all_agents_available o keys (daemonsets ++ res.res ∷ []) w')

  condition_type-all_k8s_sensors_available :
      (o : ObservedAgent) (a : AgentStatusManager) (w : W)
      → is_success (get_all_k8s_sensors_available_condition outside o a w).0 ≡ true
      → (get_all_k8s_sensors_available_condition outside o a w).0.res.condition_type
        ≡ condition_type_all_k8s_sensors_available
  unfolding get_all_k8s_sensors_available_condition
  condition_type-all_k8s_sensors_available o a w h = ground (arith, h)

  conditions : Progress → List Condition
  conditions p = p.0.conditions

  find-fired :
      (c : Condition) (p : Progress)
      → find_status_condition
          (conditions (set_condition_and_fire_event outside c p))
          c.condition_type
        ≡ some c
  unfolding conditions set_condition_and_fire_event
  find-fired c (s, events) = sets.find_set s.conditions c

  find-fired_other :
      (c : Condition) (p : Progress) (type' : String)
      → type' ≢ c.condition_type
      → find_status_condition (conditions (set_condition_and_fire_event outside c p)) type'
        ≡ find_status_condition (conditions p) type'
  unfolding conditions set_condition_and_fire_event
  find-fired_other c (s, events) type' ne = sets.find_other s.conditions c type' ne

  find-k8s_sensors :
      (res : Result Condition) (p : Progress) (errs : MultiErrorBuilder) (type' : String)
      → (is_success res ≡ true → type' ≢ res.res.condition_type)
      → find_status_condition (conditions (set_k8s_sensors_condition outside res (p, errs)).0) type'
        ≡ find_status_condition (conditions p) type'
  unfolding set_k8s_sensors_condition
  find-k8s_sensors res p errs type' ne = elim (Bool-cases (is_success res)) [
    | inl set ↦ rw set (find-fired_other res.res p type' (ne set))
    | inr failed ↦ rw failed refl
  ]

  -- What the two conditions say of the reconciliation and of the DaemonSets.
  status-reconcile_succeeded :
      (o : ObservedAgent) (err : Option Error)
      → ((get_reconcile_succeeded_condition outside o err).status ≡ "True") ↔ (err ≡ none)
  unfolding get_reconcile_succeeded_condition
  status-reconcile_succeeded o none = (λ h. refl, λ h. refl)
  status-reconcile_succeeded o (some e) =
      (λ h. ground (arith, h, eq_iff "False" "True"), λ h. ground (arith, h))

  failed-reconcile_succeeded :
      (o : ObservedAgent) (err : Option Error)
      → ((get_reconcile_succeeded_condition outside o err).status ≡ "False") ↔ (err ≢ none)
  unfolding get_reconcile_succeeded_condition
  failed-reconcile_succeeded o none =
      (λ h. ground (arith, h, eq_iff "True" "False"), λ h. elim (h refl) [ ])
  failed-reconcile_succeeded o (some e) = (λ h p. ground (arith, p), λ h. refl)

  observed-reconcile_succeeded :
      (o : ObservedAgent) (err : Option Error)
      → (get_reconcile_succeeded_condition outside o err).observed_generation ≡ o.generation
  unfolding get_reconcile_succeeded_condition
  observed-reconcile_succeeded o none = refl
  observed-reconcile_succeeded o (some e) = refl

  observed-all_agents_available :
      (o : ObservedAgent) (keys : List ObjectKey) (daemonsets : List DaemonSet) (w : W)
      → (all_agents_available_from outside o keys daemonsets w).0.res.observed_generation
        ≡ o.generation
  unfolding all_agents_available_from
  observed-all_agents_available o [] daemonsets w = ground arith
  observed-all_agents_available o (key ∷ keys) daemonsets w =
      let (res, w') = outside.get_daemon_set key w in
      ground (arith, observed-all_agents_available o keys (daemonsets ++ res.res ∷ []) w')

  -- The status sent has a condition ReconcileSucceeded, which is "True" exactly if the reconciliation
  -- gave no error and "False" exactly if it gave one, and a condition AllAgentsAvailable, which is
  -- "True" exactly if each DaemonSet of the agent could be read and what was read is up to date. Both
  -- are for the agent's generation. They are there whatever the k8s sensor's check answers, if
  -- SetStatusCondition sets the condition of one type and keeps the others.
  pub agent_with_updated_status-conditions :
      (a : AgentStatusManager) (o : ObservedAgent) (err : Option Error) (w : W)
      → (let sent = (agent_with_updated_status outside a o err w).0.res.status.conditions in
          let w' = (deprecated_fields outside a o err w).2 in
          ((c : Condition) × (find_status_condition sent "ReconcileSucceeded" ≡ some c)
            × (c.observed_generation ≡ o.generation)
            × ((c.status ≡ "True") ↔ (err ≡ none))
            × ((c.status ≡ "False") ↔ (err ≢ none)))
          × ((c : Condition) × (find_status_condition sent "AllAgentsAvailable" ≡ some c)
              × (c.observed_generation ≡ o.generation)
              × ((c.status ≡ "True") ↔ AreUpToDate outside a.agent_daemonsets w')))
  unfolding agent_with_updated_status set_conditions get_all_agents_available_condition conditions
  agent_with_updated_status-conditions a o err w =
      let (s1, errs1, w1) = deprecated_fields outside a o err w in
      let p0 : Progress = (new_fields outside o s1, []) in
      let rs = get_reconcile_succeeded_condition outside o err in
      let p1 = set_condition_and_fire_event outside rs p0 in
      let (agents, w2) = get_all_agents_available_condition outside o a w1 in
      let p2 = set_condition_and_fire_event outside agents.res p1 in
      let errs2 = on_failure agents add_single errs1 in
      let (sensors, w3) = get_all_k8s_sensors_available_condition outside o a w2 in
      let agents_type = condition_type-all_agents_available o a.agent_daemonsets [] w1 in
      let rs_type = condition_type-reconcile_succeeded o err in
      let sensors_type = condition_type-all_k8s_sensors_available o a w2 in
      let (there, back) = all_agents_available_from-status_iff outside o a.agent_daemonsets [] w1 in
      (
        (
          rs,
          find-k8s_sensors sensors p2 errs2 condition_type_reconcile_succeeded (λ h e.
                ground
                  (arith, e, sensors_type h, eq_iff "ReconcileSucceeded" "AllK8sSensorsAvailable"))
              ∙ find-fired_other agents.res p1 condition_type_reconcile_succeeded (λ e.
                ground (arith, e, agents_type, eq_iff "ReconcileSucceeded" "AllAgentsAvailable"))
              ∙ rw⁻¹ rs_type (find-fired rs p0),
          observed-reconcile_succeeded o err,
          status-reconcile_succeeded o err,
          failed-reconcile_succeeded o err,
        ),
        (
          agents.res,
          find-k8s_sensors sensors p2 errs2 condition_type_all_agents_available (λ h e.
                ground
                  (arith, e, sensors_type h, eq_iff "AllAgentsAvailable" "AllK8sSensorsAvailable"))
              ∙ rw⁻¹ agents_type (find-fired agents.res p1),
          observed-all_agents_available o a.agent_daemonsets [] w1,
          (λ h. (there h).1, λ h. back (tt, h)),
        ),
      )
