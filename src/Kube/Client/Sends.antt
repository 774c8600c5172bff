-- ===== src/Kube/Client/Sends.antt =====
-- `DeleteAllInTimeLimit` sends deletes and reads of the objects that it was given, and no more.
use instana_agent_operator.Prelude.{
  ℕ, zero, suc, ◌≡◌, refl, Option, some, List, [], ◌∷◌, Memᴰ, arith, inl, inr, Bool-cases,
  Option-cases,
}
use instana_agent_operator.Collections.{conditions_all}
use instana_agent_operator.Errors.{Error, MultiErrorBuilder}
use instana_agent_operator.Kube.{Object, key_from_object}
use instana_agent_operator.Kube.Api.{
  Call, apply_call, delete_call, get_call, patch_call, status_call, Server, Cluster, sleep_for,
  SendsOnly, SendsOnly-refl, SendsOnly-world, SendsOnly-trans, SendsOnly-one,
}
use instana_agent_operator.Kube.Client.{
  Context, do_not_exist, exists, objects_exist, verify_deletion, delete_each, delete_all,
  with_timeout, delete_all_in_time_limit_fuel,
}

-- A delete or a read of an object of the list.
abbrev pub Concerns : List Object → Call → Type 0
Concerns objects (delete_call gvk key) =
    (o : Object) × Memᴰ o objects × (gvk ≡ o.gvk) × (key ≡ key_from_object o)
Concerns objects (get_call gvk key) =
    (o : Object) × Memᴰ o objects × (gvk ≡ o.gvk) × (key ≡ key_from_object o)
Concerns objects (apply_call _ _) = ⊥
Concerns objects (patch_call _) = ⊥
Concerns objects (status_call _) = ⊥

module _ {W : Type 0} (server : Server W) where
  objects_exist-SendsOnly :
      (all objects : List Object) (c : Cluster W)
      → ((o : Object) → Memᴰ o objects → Memᴰ o all)
      → SendsOnly (Concerns all) c (objects_exist server objects c).1
  unfolding objects_exist exists
  objects_exist-SendsOnly all [] c sub = SendsOnly-refl c
  objects_exist-SendsOnly all (o ∷ objects) c sub =
      SendsOnly-trans (SendsOnly-one c _ _ (o, sub o (Memᴰ.head refl), refl, refl))
        (objects_exist-SendsOnly all objects _ (λ p m. sub p (Memᴰ.tail m)))

  pub delete_each-SendsOnly :
      (all objects : List Object) (errs : MultiErrorBuilder) (c : Cluster W)
      → ((o : Object) → Memᴰ o objects → Memᴰ o all)
      → SendsOnly (Concerns all) c (delete_each server objects errs c).1
  unfolding delete_each
  delete_each-SendsOnly all [] errs c sub = SendsOnly-refl c
  delete_each-SendsOnly all (o ∷ objects) errs c sub =
      SendsOnly-trans (SendsOnly-one c _ _ (o, sub o (Memᴰ.head refl), refl, refl))
        (delete_each-SendsOnly all objects _ _ (λ p m. sub p (Memᴰ.tail m)))

  pub verify_deletion-SendsOnly :
      (ctx : Context W) (fuel : ℕ) (objects : List Object) (wait_time : ℕ) (c c' : Cluster W)
      (err : Option Error)
      → verify_deletion server ctx fuel objects wait_time c ≡ some (err, c')
      → SendsOnly (Concerns objects) c c'
  unfolding verify_deletion
  verify_deletion-SendsOnly ctx zero objects wait_time c c' err h = absurd (cc)
  verify_deletion-SendsOnly ctx (suc fuel) objects wait_time c c' err h =
      let round = objects_exist server objects c in
      let reads = objects_exist-SendsOnly objects objects c (λ o m. m) in
      elim (Option-cases (ctx c.world)) [
        | inr (e, over) ↦ let same : c ≡ c' = ground arith in rw (← same) (SendsOnly-refl c)
        | inl open' ↦ elim (Bool-cases (conditions_all round.0 do_not_exist)) [
          | inl gone ↦ let same : round.1 ≡ c' = ground arith in rw (← same) reads
          | inr left ↦ SendsOnly-trans reads (
              SendsOnly-trans (SendsOnly-world round.1 (server.sleep wait_time round.1.world)) (
                verify_deletion-SendsOnly ctx fuel objects wait_time
                  (sleep_for server wait_time round.1) c' err (ground arith)))
        ]
      ]

  -- `deleteAllInTimeLimit` deletes and reads only the objects that it was given.
  pub delete_all_in_time_limit-SendsOnly :
      (ctx : Context W) (objects : List Object) (timeout wait_time : ℕ) (c c' : Cluster W)
      (err : Option Error)
      → delete_all_in_time_limit_fuel server ctx objects timeout wait_time c ≡ some (err, c')
      → SendsOnly (Concerns objects) c c'
  unfolding delete_all_in_time_limit_fuel delete_all
  delete_all_in_time_limit-SendsOnly ctx objects timeout wait_time c c' err h =
      let sent = delete_each server objects [] c in
      let deletes = delete_each-SendsOnly objects objects [] c (λ o m. m) in
      elim (Option-cases (delete_all server objects c).0) [
        | inr (e, failed) ↦ let same : sent.1 ≡ c' = ground arith in rw (← same) deletes
        | inl ok ↦ SendsOnly-trans deletes (
            verify_deletion-SendsOnly (with_timeout server ctx timeout c.world) (suc timeout)
              objects wait_time sent.1 c' err (ground arith))
      ]
