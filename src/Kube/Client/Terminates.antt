-- ===== src/Kube/Client/Terminates.antt =====
-- `DeleteAllInTimeLimit` returns: each round of reads brings the clock nearer to the deadline.
use instana_agent_operator.Prelude.{
  ℕ, zero, suc, ◌+◌, ◌-◌, ◌≤◌, ◌<◌, ◌≡◌, Option, none, some, List, [], ◌∷◌, arith, inl, inr,
  Bool-cases, Option-cases,
}
use instana_agent_operator.Collections.{conditions_all}
use instana_agent_operator.Errors.{Error, MultiErrorBuilder}
use instana_agent_operator.Kube.{GroupVersionKind, ObjectKey, Object, key_from_object}
use instana_agent_operator.Kube.Api.{Server, Cluster, sleep_for, send_delete}
use instana_agent_operator.Kube.Client.{
  Context, do_not_exist, exists, objects_exist, verify_deletion, delete_each, delete_all,
  with_timeout, delete_all_in_time_limit_fuel,
}

-- What is assumed of time: no call turns the clock back, and a sleep takes its time.
pub record KeepsTime {W : Type 0} (server : Server W) : Type 0 where
  pub delete_later :
      (gvk : GroupVersionKind) (key : ObjectKey) (w : W)
      → server.now w ≤ server.now (server.delete gvk key w).1
  pub get_later :
      (gvk : GroupVersionKind) (key : ObjectKey) (w : W)
      → server.now w ≤ server.now (server.get gvk key w).2
  pub sleep_later : (d : ℕ) (w : W) → server.now w + d ≤ server.now (server.sleep d w)

module _ {W : Type 0} (server : Server W) where
  module _ (time : KeepsTime server) where
    objects_exist-later :
        (objects : List Object) (c : Cluster W)
        → server.now c.world ≤ server.now (objects_exist server objects c).1.world
    unfolding objects_exist exists
    objects_exist-later [] c = omega arith
    objects_exist-later (o ∷ objects) c = omega (
      arith,
      time.get_later o.gvk (key_from_object o) c.world,
      objects_exist-later objects (exists server o.gvk (key_from_object o) c).1,
    )

    delete_each-later :
        (objects : List Object) (errs : MultiErrorBuilder) (c : Cluster W)
        → server.now c.world ≤ server.now (delete_each server objects errs c).1.world
    unfolding delete_each
    delete_each-later [] errs c = omega arith
    delete_each-later (o ∷ objects) errs c = omega (
      arith,
      time.delete_later o.gvk (key_from_object o) c.world,
      delete_each-later objects _ (send_delete server o.gvk (key_from_object o) c).1,
    )

  -- a context with a timeout is not done only before its deadline
  before_deadline :
      (ctx : Context W) (timeout : ℕ) (start w : W)
      → with_timeout server ctx timeout start w ≡ none
      → server.now w < server.now start + timeout
  unfolding with_timeout
  before_deadline ctx timeout start w h = ground arith

  module _ (time : KeepsTime server) where
    verify_deletion_total :
        (ctx : Context W) (start : W) (timeout fuel : ℕ) (objects : List Object) (wait_time : ℕ)
        (c : Cluster W)
        → 0 < wait_time
        → server.now start + timeout - server.now c.world < fuel
        → (r : Option Error × Cluster W) × (verify_deletion server
              (with_timeout server ctx timeout start)
              fuel
              objects
              wait_time
              c
            ≡ some r)
    unfolding verify_deletion
    verify_deletion_total ctx start timeout zero objects wait_time c positive enough =
        elim enough [ ]
    verify_deletion_total ctx start timeout (suc fuel) objects wait_time c positive enough =
        elim (Option-cases (with_timeout server ctx timeout start c.world)) [
          | inr (e, over) ↦ ((some e, c), rw (over, verify_deletion))
          | inl open' ↦
              let c' = (objects_exist server objects c).1 in
              let next = sleep_for server wait_time c' in
              elim (Bool-cases (conditions_all (objects_exist server objects c).0 do_not_exist)) [
                | inl gone ↦ ((none, c'), rw (open', verify_deletion) (rw gone))
                | inr left ↦
                    let (r, done) =
                      verify_deletion_total ctx start timeout fuel objects wait_time next positive (
                        omega (
                          arith,
                          objects_exist-later time objects c,
                          time.sleep_later wait_time c'.world,
                          before_deadline ctx timeout start c.world open',
                        )) in
                    (r, rw (open', verify_deletion) (rw left done))
              ]
        ]

    -- With a wait of at least one tick, on a server whose clock advances by the waits and never goes
    -- back, `deleteAllInTimeLimit` returns.
    pub delete_all_in_time_limit_total :
        (ctx : Context W) (objects : List Object) (timeout wait_time : ℕ) (c : Cluster W)
        → 0 < wait_time
        → (r : Option Error × Cluster W) × (delete_all_in_time_limit_fuel server ctx objects timeout
              wait_time c
            ≡ some r)
    unfolding delete_all_in_time_limit_fuel delete_all
    delete_all_in_time_limit_total ctx objects timeout wait_time c positive =
        let c' = (delete_all server objects c).1 in
        elim (Option-cases (delete_all server objects c).0) [
          | inr (e, failed) ↦ ((some e, c'), rw (failed, delete_all_in_time_limit_fuel))
          | inl sent ↦
              let (r, done) =
                verify_deletion_total ctx c.world timeout (suc timeout) objects wait_time c'
                  positive (omega (arith, delete_each-later time objects [] c)) in
              (r, rw (sent, delete_all_in_time_limit_fuel) done)
        ]
