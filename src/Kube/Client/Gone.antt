-- ===== src/Kube/Client/Gone.antt =====
-- `Exists`, and what the success of `DeleteAllInTimeLimit` says of the objects.
use instana_agent_operator.Prelude.{
  ℕ, zero, suc, ◌≡◌, ◌↔◌, true, none, some, List, [], ◌∷◌, arith, inl, inr, Bool-cases,
  Option-cases,
}
use instana_agent_operator.Collections.{conditions_all}
use instana_agent_operator.Kube.{GroupVersionKind, ObjectKey, Object, key_from_object}
use instana_agent_operator.Kube.Api.{Server, Cluster, nil_or, sleep_for, send_get}
use instana_agent_operator.Kube.Client.{
  Context, do_not_exist, ignore_not_found, exists, objects_exist, verify_deletion, delete_all,
  with_timeout, delete_all_in_time_limit_fuel,
}

module _ {W : Type 0} (server : Server W) where
  -- `Exists` answers a definite no exactly if the server answers the read with a not-found error.
  pub do_not_exist-exists_iff :
      (gvk : GroupVersionKind) (key : ObjectKey) (c : Cluster W)
      → (do_not_exist (exists server gvk key c).0 ≡ true)
        ↔ (nil_or server.is_not_found (server.get gvk key c.world).0 ≡ true)
  unfolding exists do_not_exist ignore_not_found
  do_not_exist-exists_iff gvk key c = ground arith

  -- The server answered a not-found error to the read of each object, one after another.
  abbrev pub AllGone : List Object → Cluster W → Type 0
  AllGone [] c = Unit
  AllGone (o ∷ objects) c =
      (nil_or server.is_not_found (server.get o.gvk (key_from_object o) c.world).0 ≡ true)
      × AllGone objects (send_get server o.gvk (key_from_object o) c).2

  objects_exist-AllGone :
      (objects : List Object) (c : Cluster W)
      → conditions_all (objects_exist server objects c).0 do_not_exist ≡ true
      → AllGone objects c
  unfolding objects_exist conditions_all exists
  objects_exist-AllGone [] c h = tt
  objects_exist-AllGone (o ∷ objects) c h =
      let step = exists server o.gvk (key_from_object o) c in
      elim (Bool-cases (do_not_exist step.0)) [
        | inl gone ↦ (
          (do_not_exist-exists_iff o.gvk (key_from_object o) c).0 gone,
          objects_exist-AllGone objects step.1 (rw gone at h),
        )
        | inr there ↦ absurd (ground (arith, h))
      ]

  verify_deletion-AllGone :
      (ctx : Context W) (fuel : ℕ) (objects : List Object) (wait_time : ℕ) (c c' : Cluster W)
      → verify_deletion server ctx fuel objects wait_time c ≡ some (none, c')
      → (before : Cluster W) × AllGone objects before
        × ((objects_exist server objects before).1 ≡ c')
  unfolding verify_deletion
  verify_deletion-AllGone ctx zero objects wait_time c c' h = absurd (cc)
  verify_deletion-AllGone ctx (suc fuel) objects wait_time c c' h =
      let round = objects_exist server objects c in
      elim (Option-cases (ctx c.world)) [
        | inr (e, over) ↦ absurd (ground arith)
        | inl open' ↦ elim (Bool-cases (conditions_all round.0 do_not_exist)) [
          | inl gone ↦ (c, objects_exist-AllGone objects c gone, ground arith)
          | inr left ↦
              verify_deletion-AllGone ctx fuel objects wait_time
                (sleep_for server wait_time round.1) c' (ground arith)
        ]
      ]

  -- `deleteAllInTimeLimit` returns nil only after a round of reads in which the server answered
  -- for every object that it is not found.
  pub delete_all_in_time_limit-AllGone :
      (ctx : Context W) (objects : List Object) (timeout wait_time : ℕ) (c c' : Cluster W)
      → delete_all_in_time_limit_fuel server ctx objects timeout wait_time c ≡ some (none, c')
      → (before : Cluster W) × AllGone objects before
        × ((objects_exist server objects before).1 ≡ c')
  unfolding delete_all_in_time_limit_fuel
  delete_all_in_time_limit-AllGone ctx objects timeout wait_time c c' h =
      let sent = delete_all server objects c in
      elim (Option-cases sent.0) [
        | inr (e, failed) ↦ absurd (ground arith)
        | inl ok ↦
            verify_deletion-AllGone (with_timeout server ctx timeout c.world) (suc timeout) objects
              wait_time sent.1 c' (ground arith)
      ]
