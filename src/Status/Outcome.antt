-- ===== src/Status/Outcome.antt =====
-- What `UpdateAgentStatus` returns.
use instana_agent_operator.Prelude.{
  ◌≡◌, ◌≢◌, refl, Bool, true, false, inl, inr, Option, none, some, Option-cases, List, [], ◌∷◌,
  Memᴰ, Mem-append_right, Mem-append_left, string_comparable, nat_comparable, arith, if◌then◌else◌,
}
use instana_agent_operator.Errors.{Error, text, MultiErrorBuilder, add, add_single, build}
use instana_agent_operator.Errors.Laws.{build-Wraps}
use instana_agent_operator.Results.{Result, on_failure}
use instana_agent_operator.Status.Conditions.{
  Condition, ObservedAgent, Outside, AgentStatusManager, get_all_k8s_sensors_available_condition,
}
use instana_agent_operator.Status.{
  Progress, set_k8s_sensors_condition, set_conditions, agent_with_updated_status,
  update_agent_status, patch_errors,
}

-- An error among those added is not lost.
build-ne-none : (errs : MultiErrorBuilder) (e : Error) → Memᴰ (some e) errs → build errs ≢ none
build-ne-none errs e mem h = ground (arith, h, (build-Wraps errs mem).1)

-- A failure's error is added.
Mem-on_failure {ℓ} :
    {A : Type ℓ} (res : Result A) (e : Error) (errs : MultiErrorBuilder)
    → res.err ≡ some e
    → Memᴰ (some e) (on_failure res add_single errs)
unfolding on_failure add_single add
Mem-on_failure res e errs h = rw h (Mem-append_right errs (some e ∷ []) (Memᴰ.head refl))

Mem-add_single :
    (x : Error) (errs : MultiErrorBuilder) (e : Error)
    → Memᴰ (some e) errs
    → Memᴰ (some e) (add_single (some x) errs)
unfolding add_single add
Mem-add_single x errs e mem = Mem-append_left errs (some x ∷ []) mem

Mem-if {ℓ} :
    {A : Type ℓ} (b : Bool) (a : A) (xs ys : List A)
    → Memᴰ a xs
    → Memᴰ a ys
    → Memᴰ a (if b then xs else ys)
Mem-if true a xs ys h k = h
Mem-if false a xs ys h k = k

module _ {W : Type 0} (outside : Outside W) where
  Mem-patch_errors :
      (err : Option Error) (e : Error) (errs : MultiErrorBuilder)
      → Memᴰ (some e) errs
      → Memᴰ (some e) (patch_errors outside err errs)
  Mem-patch_errors none e errs mem = mem
  Mem-patch_errors (some x) e errs mem =
      Mem-if (outside.is_not_found x) (some e) errs (add_single (some x) errs) mem
        (Mem-add_single x errs e mem)

  sensors_disabled :
      (o : ObservedAgent) (a : AgentStatusManager) (w : W)
      → o.k8s_sensor_enabled ≡ some false
      → (get_all_k8s_sensors_available_condition outside o a w).0.err
        ≡ some (text "k8sensor is disabled")
  unfolding get_all_k8s_sensors_available_condition
  sensors_disabled o a w off = ground (arith, off)

  set_k8s_sensors_condition-errs :
      (res : Result Condition) (p : Progress) (errs : MultiErrorBuilder)
      → (set_k8s_sensors_condition outside res (p, errs)).1 ≡ on_failure res add_single errs
  unfolding set_k8s_sensors_condition
  set_k8s_sensors_condition-errs res p errs = ground arith

  Mem-sensors_disabled :
      (o : ObservedAgent) (a : AgentStatusManager) (w : W) (p : Progress) (errs : MultiErrorBuilder)
      → o.k8s_sensor_enabled ≡ some false
      → Memᴰ
          (some (text "k8sensor is disabled"))
          (set_k8s_sensors_condition outside
            (get_all_k8s_sensors_available_condition outside o a w).0
            (p, errs)).1
  Mem-sensors_disabled o a w p errs off =
      let res = (get_all_k8s_sensors_available_condition outside o a w).0 in
      rw (set_k8s_sensors_condition-errs res p errs)
        (Mem-on_failure res (text "k8sensor is disabled") errs (sensors_disabled o a w off))

  agent_with_updated_status-disabled :
      (a : AgentStatusManager) (o : ObservedAgent) (err : Option Error) (w : W)
      → o.k8s_sensor_enabled ≡ some false
      → (agent_with_updated_status outside a o err w).0.err ≢ none
  unfolding agent_with_updated_status set_conditions
  agent_with_updated_status-disabled a o err w off =
      build-ne-none _ (text "k8sensor is disabled") (Mem-sensors_disabled o a _ _ _ off)

  -- If the k8s sensor is disabled, UpdateAgentStatus returns an error, whatever the reads, the patch
  -- and the reconciliation gave.
  pub update_agent_status-disabled :
      (a : AgentStatusManager) (o : ObservedAgent) (err : Option Error) (w : W)
      → a.agent_old ≡ some o
      → o.k8s_sensor_enabled ≡ some false
      → (update_agent_status outside a err w).0 ≢ none
  unfolding update_agent_status
  update_agent_status-disabled a o err w old off =
      elim (Option-cases (agent_with_updated_status outside a o err w).0.err) [
        | inl missing ↦ elim (agent_with_updated_status-disabled a o err w off missing) [ ]
        | inr (e, found) ↦
            rw old
              (build-ne-none _ e (Mem-patch_errors _ e _ (Mem-on_failure _ e [] (rw⁻¹ old found))))
      ]
