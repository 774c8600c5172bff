-- ===== src/Tests/Deletions.antt =====
-- The deletion of an agent.
use instana_agent_operator.Prelude.{
  ℕ, String, ◌≡◌, ◌≢◌, refl, Bool, true, false, not, none, some, List, [], ◌∷◌, ◌==◌, Memᴰ,
  string_comparable, arith, eq_iff, if◌then◌else◌,
}
use instana_agent_operator.Prelude.{All}
use instana_agent_operator.Kube.Api.{Cluster}
use instana_agent_operator.Lifecycle.{data_of, get_lifecycle_config_map}
use instana_agent_operator.Lifecycle.Cleanup.{delete_of}
use instana_agent_operator.Operator.{delete_all}
use instana_agent_operator.Tests.Fixture.{manager, start, client_of-KeepsPromises}
use instana_agent_operator.Tests.Lifecycles.{manager_runs}
use instana_agent_operator.Reconcile.{
  CustomResource, dependents_deleted, patched, Outside, finalizer_v3, handle_deletion, cleanup,
  cleanup_helm_chart, cleanup_dependents, after_step, update_agent,
}
use instana_agent_operator.Reconcile.Finalizers.{handle_deletion-deletes_first}

abbrev drop : String → List String → List String
drop f [] = []
drop f (g ∷ fs) = let rest = drop f fs in if g == f then rest else g ∷ rest

abbrev holds : String → List String → Bool
holds f [] = false
holds f (g ∷ fs) = let rest = holds f fs in if g == f then true else rest

abbrev remove : String → List String → Bool × List String
remove f fs = (holds f fs, drop f fs)

Mem-kept_head :
    (b : Bool) (g h : String) (fs : List String)
    → b ≡ false
    → g ≡ h
    → Memᴰ g (if b then fs else h ∷ fs)
Mem-kept_head true g h fs kept p = ground (arith, kept)
Mem-kept_head false g h fs kept p = Memᴰ.head p

Mem-kept_tail :
    (b : Bool) (g h : String) (fs : List String) → Memᴰ g fs → Memᴰ g (if b then fs else h ∷ fs)
Mem-kept_tail true g h fs m = m
Mem-kept_tail false g h fs m = Memᴰ.tail m

drop-keeps : (f g : String) (fs : List String) → f ≢ g → Memᴰ g fs → Memᴰ g (drop f fs)
drop-keeps f g [] ne m = elim m [ ]
drop-keeps f g (h ∷ fs) ne (Memᴰ.head p) =
    Mem-kept_head (h == f) g h (drop f fs) (ground (arith, ne, p, eq_iff h f)) p
drop-keeps f g (h ∷ fs) ne (Memᴰ.tail m) =
    Mem-kept_tail (h == f) g h (drop f fs) (drop-keeps f g fs ne m)

-- every call succeeds
abbrev outside : Outside (Cluster ℕ)
outside = record {
  helm_delete = λ c. (none, c);
  patch = λ fs c. (none, c);
  is_not_found = λ e. false;
  cleanup_node_labels = λ c. c;
  add_finalizer = λ f fs. (not (holds f fs), f ∷ fs);
  remove_finalizer = remove;
}

abbrev deleted_agent : CustomResource
deleted_agent = record { finalizers = finalizer_v3 ∷ []; deletion_timestamp = some 7 }

-- what a run of the handler computes with
handler_runs : Unit {0}
unfolding manager_runs delete_all handle_deletion cleanup cleanup_helm_chart cleanup_dependents
    after_step update_agent
handler_runs = tt

deletion_test :
    (handle_deletion manager outside deleted_agent start).1
    ≡ dependents_deleted none ∷ patched [] none ∷ []
unfolding handler_runs
deletion_test = refl

patch_sent : Memᴰ (patched [] none) (handle_deletion manager outside deleted_agent start).1
unfolding handler_runs
patch_sent = Memᴰ.tail (Memᴰ.head refl)

handle_deletion-deletes_first_example :
    ((handle_deletion manager outside deleted_agent start).1
      ≡ dependents_deleted none ∷ patched [] none ∷ [])
    × ((delete_all manager start).0 ≡ none)
    × All
        (λ (entry : String × String).
          All
            (λ u. Memᴰ (delete_of u) (delete_all manager start).1.calls)
            (manager.json.unmarshal entry.1))
        (data_of (get_lifecycle_config_map manager start).1)
handle_deletion-deletes_first_example =
    handle_deletion-deletes_first manager outside (client_of-KeepsPromises none) deleted_agent start
      [] none (record { keeps = drop-keeps }) (Memᴰ.head refl) patch_sent (λ m. elim m [ ])
