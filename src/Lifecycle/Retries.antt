-- ===== src/Lifecycle/Retries.antt =====
-- What the retry loop returns.
use instana_agent_operator.Prelude.{
  ℕ, zero, suc, ◌+◌, ◌-◌, ◌*◌, ◌^◌, ◌≡◌, refl, sym, ap, ◌∙◌, not, Bool, true, false, Option, none,
  some, List, arith, inl, inr, ltb, Bool-cases, if◌then◌else◌,
}
use instana_agent_operator.Errors.{Error}
use instana_agent_operator.Kube.{Object}
use instana_agent_operator.Kube.Api.{Server, Cluster, nil_or, sleep_for}
use instana_agent_operator.Lifecycle.{
  DependentLifecycleManager, retry_from, retry, is_conflict_error, update_attempt,
  get_or_initialize_lifecycle_cm, updated_config_map, update_dependent_lifecycle_info,
  cleanup_attempt, cleanup_dependents,
}

module _ {W : Type 0} (server : Server W) (fn : Cluster W → Bool × Option Error × Cluster W) where
  -- an error that the loop returns is the error of an attempt that was done
  retry_from-done :
      (left i attempts pause : ℕ) (c : Cluster W) (e : Error)
      → (retry_from server left i attempts pause fn c).0 ≡ some e
      → (at : Cluster W) × ((fn at).0 ≡ true) × ((fn at).1 ≡ some e)
  unfolding retry_from
  retry_from-done zero i attempts pause c e h = absurd (cc)
  retry_from-done (suc left) i attempts pause c e h =
      let c' = (fn c).2 in
      let rested = if ltb i (attempts - 1) then sleep_for server (pause * 2 ^ i) c' else c' in
      elim (Bool-cases (fn c).0) [
        | inl done ↦ (c, done, ground arith)
        | inr again ↦ retry_from-done left (i + 1) attempts pause rested e (ground arith)
      ]

  -- with no attempt done, the loop returns nil
  retry_from-exhausted :
      ((c : Cluster W) → (fn c).0 ≡ false)
      → (left i attempts pause : ℕ) (c : Cluster W)
      → (retry_from server left i attempts pause fn c).0 ≡ none
  unfolding retry_from
  retry_from-exhausted never zero i attempts pause c = refl
  retry_from-exhausted never (suc left) i attempts pause c =
      let c' = (fn c).2 in
      let rested = if ltb i (attempts - 1) then sleep_for server (pause * 2 ^ i) c' else c' in
      rw (never c) (retry_from-exhausted never left (i + 1) attempts pause rested)

module _ {W : Type 0} (d : DependentLifecycleManager W) where
  -- An error that `UpdateDependentLifecycleInfo` returns is never a conflict.
  pub update-ne-conflict :
      (objects : List Object) (c : Cluster W) (e : Error)
      → (update_dependent_lifecycle_info d objects c).0 ≡ some e
      → d.server.is_conflict e ≡ false
  unfolding update_dependent_lifecycle_info retry
  update-ne-conflict objects c e h =
      let (at, done, err) = retry_from-done d.server (update_attempt d objects) 5 0 5 100 c e h in
      unfold update_attempt in ground (arith, done, err)

  cleanup_attempt-done :
      (objects : List Object) (c : Cluster W)
      → (cleanup_attempt d objects c).0
        ≡ not (is_conflict_error d.server (cleanup_attempt d objects c).1)
  unfolding cleanup_attempt
  cleanup_attempt-done objects c = refl

  -- An error that `CleanupDependents` returns is not one that the manager takes for a conflict.
  pub cleanup-ne-conflict :
      (objects : List Object) (c : Cluster W) (e : Error)
      → (cleanup_dependents d objects c).0 ≡ some e
      → is_conflict_error d.server (some e) ≡ false
  unfolding cleanup_dependents retry
  cleanup-ne-conflict objects c e h =
      let (at, done, err) = retry_from-done d.server (cleanup_attempt d objects) 5 0 5 100 c e h in
      let kept : not (is_conflict_error d.server (some e)) ≡ true =
        ap (λ (x : Option Error). not (is_conflict_error d.server x)) (sym err)
        ∙ sym (cleanup_attempt-done objects at)
        ∙ done in
      ground (arith, kept)

  -- If the server answers every apply with a conflict, `UpdateDependentLifecycleInfo` gives up
  -- after its attempts and returns nil, though nothing was written.
  pub update-nil_of_conflicts :
      (objects : List Object) (c : Cluster W)
      → ((o : Object) (at : Cluster W)
          → nil_or d.server.is_conflict (d.client.apply false o at).0.err ≡ true)
      → (update_dependent_lifecycle_info d objects c).0 ≡ none
  unfolding update_dependent_lifecycle_info retry update_attempt
  update-nil_of_conflicts objects c conflicts =
      retry_from-exhausted d.server (update_attempt d objects)
        (λ at.
          let (cm, c') = get_or_initialize_lifecycle_cm d at in
          ground (arith, conflicts (updated_config_map d objects cm) c'))
        5 0 5 100 c
