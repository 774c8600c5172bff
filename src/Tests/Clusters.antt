-- ===== src/Tests/Clusters.antt =====
-- The client on the small server.
use instana_agent_operator.Prelude.{ℕ, ◌≡◌, refl, Option, none, some, [], ◌∷◌, arith}
use instana_agent_operator.Errors.{Error, build}
use instana_agent_operator.Collections.{conditions_all}
use instana_agent_operator.Kube.Api.{Cluster}
use instana_agent_operator.Kube.Client.{
  do_not_exist, exists, objects_exist, delete_all, verify_deletion, with_timeout, ignore_not_found,
  delete_all_in_time_limit_fuel, new_instana_agent_client,
}
use instana_agent_operator.Kube.Client.Terminates.{delete_all_in_time_limit_total}
use instana_agent_operator.Kube.Client.Gone.{AllGone, delete_all_in_time_limit-AllGone}
use instana_agent_operator.Kube.Client.Promises.{KeepsPromises, client-KeepsPromises}
use instana_agent_operator.Tests.Fixture.{
  server, server-KeepsTime, background, start, current_object,
}

abbrev goal_state : Cluster ℕ
goal_state =
    let sent =
      delete_all_in_time_limit_fuel server background (current_object ∷ []) 30000 5000 start in
    elim sent [ none ↦ start | some (err, c) ↦ c ]

deletion_succeeds :
    delete_all_in_time_limit_fuel server background (current_object ∷ []) 30000 5000 start
    ≡ some (none, goal_state)
unfolding delete_all_in_time_limit_fuel delete_all verify_deletion with_timeout objects_exist exists
    ignore_not_found conditions_all do_not_exist build
deletion_succeeds = refl

delete_all_in_time_limit_total_example :
    (r : Option Error × Cluster ℕ) × (delete_all_in_time_limit_fuel server background
        (current_object ∷ [])
        30000
        5000
        start
      ≡ some r)
delete_all_in_time_limit_total_example =
    delete_all_in_time_limit_total server (server-KeepsTime none) background (current_object ∷ [])
      30000 5000 start (omega arith)

delete_all_in_time_limit-AllGone_example :
    (before : Cluster ℕ) × AllGone server (current_object ∷ []) before
    × ((objects_exist server (current_object ∷ []) before).1 ≡ goal_state)
delete_all_in_time_limit-AllGone_example =
    delete_all_in_time_limit-AllGone server background (current_object ∷ []) 30000 5000 start
      goal_state deletion_succeeds

client-KeepsPromises_example : KeepsPromises (new_instana_agent_client server background)
client-KeepsPromises_example = client-KeepsPromises server (server-KeepsTime none) background
