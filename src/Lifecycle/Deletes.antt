-- ===== src/Lifecycle/Deletes.antt =====
-- `CleanupDependents` as a whole asks for the deletion of everything outdated that was recorded.
use instana_agent_operator.Prelude.{
  ℕ, suc, ◌+◌, ◌-◌, ◌*◌, ◌^◌, String, Bool, Option, [], Memᴰ, Mem-append_left, List, inl, inr, ltb,
  Bool-cases,
}
use instana_agent_operator.Errors.{Error}
use instana_agent_operator.Kube.{Object, Unstructured}
use instana_agent_operator.Kube.Api.{
  Call, Server, Cluster, sleep_for, SendsOnly, SendsOnly-refl, SendsOnly-trans, SendsOnly-world,
}
use instana_agent_operator.Kube.Client.Promises.{KeepsPromises, SendsOnly-keeps}
use instana_agent_operator.Lifecycle.{
  DependentLifecycleManager, as_unstructureds, data_of, cleanup_attempt, cleanup_dependents, retry,
  retry_from, get_lifecycle_config_map,
}
use instana_agent_operator.Lifecycle.Cleanup.{
  retry_from-SendsOnly, cleanup_attempt-SendsOnly, cleanup_entries-deletes, delete_of,
}

-- what the first attempt sent stays sent
retry_from-first :
    {W : Type 0} {P : Call → Type 0} (server : Server W)
    (fn : Cluster W → Bool × Option Error × Cluster W)
    → ((c : Cluster W) → SendsOnly P c (fn c).2)
    → (left i attempts pause : ℕ) (c : Cluster W)
    → SendsOnly P (fn c).2 (retry_from server (suc left) i attempts pause fn c).1
unfolding retry_from
retry_from-first server fn each left i attempts pause c =
    let c' = (fn c).2 in
    let slept = sleep_for server (pause * 2 ^ i) c' in
    let later = retry_from-SendsOnly server fn each left (i + 1) attempts pause in
    elim (Bool-cases (fn c).0) [
      | inl done ↦ rw done (SendsOnly-refl c')
      | inr again ↦ elim (Bool-cases (ltb i (attempts - 1))) [
        | inl more ↦
            rw (again, more) (SendsOnly-trans (SendsOnly-world c' slept.world) (later slept))
        | inr last ↦ rw (again, last) (later c')
      ]
    ]

module _ {W : Type 0} (d : DependentLifecycleManager W) (promises : KeepsPromises d.client) where
  cleanup_attempt-deletes :
      (objects : List Object) (c : Cluster W) (key json : String) (u : Unstructured)
      → Memᴰ (key, json) (data_of (get_lifecycle_config_map d c).1)
      → Memᴰ u (d.json.unmarshal json)
      → ¬ (Memᴰ u (as_unstructureds objects))
      → Memᴰ (delete_of u) (cleanup_attempt d objects c).2.calls
  unfolding cleanup_attempt
  cleanup_attempt-deletes objects c key json u listed old gone =
      let (_, cm, c1) = get_lifecycle_config_map d c in
      rw promises.applies (
        Mem-append_left _ _ (
          cleanup_entries-deletes d promises (as_unstructureds objects) (data_of cm) (data_of cm) []
            c1 key json u listed old gone))

  -- For every object that some entry of the ConfigMap records and the current generation lacks,
  -- `CleanupDependents` sends a delete.
  pub cleanup_dependents-deletes :
      (objects : List Object) (c : Cluster W) (key json : String) (u : Unstructured)
      → Memᴰ (key, json) (data_of (get_lifecycle_config_map d c).1)
      → Memᴰ u (d.json.unmarshal json)
      → ¬ (Memᴰ u (as_unstructureds objects))
      → Memᴰ (delete_of u) (cleanup_dependents d objects c).1.calls
  unfolding cleanup_dependents retry
  cleanup_dependents-deletes objects c key json u listed old gone =
      SendsOnly-keeps
        (retry_from-first d.server (cleanup_attempt d objects)
          (cleanup_attempt-SendsOnly d promises objects) 4 0 5 100 c)
        (cleanup_attempt-deletes objects c key json u listed old gone)
