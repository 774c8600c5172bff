-- ===== src/Kube/Client/Promises.antt =====
-- What the components above the client rely on, and that `instanaAgentClient` keeps it.
use instana_agent_operator.Prelude.{
  ℕ, suc, ◌<◌, ◌≡◌, refl, ap, Bool, Option, some, List, [], ◌∷◌, ◌++◌, Memᴰ, arith, inl, inr,
  Option-cases, Mem-append_left, Mem-append_right, Mem-cons_cases,
}
use instana_agent_operator.Errors.{Error, MultiErrorBuilder}
use instana_agent_operator.Kube.{GroupVersionKind, ObjectKey, Object, key_from_object}
use instana_agent_operator.Kube.Api.{
  Call, apply_call, delete_call, get_call, Server, Cluster, send_delete, SendsOnly, SendsOnly-refl,
}
use instana_agent_operator.Kube.Client.{
  InstanaAgentClient, Context, delete_each, delete_all, with_timeout, delete_all_in_time_limit_fuel,
  new_instana_agent_client,
}
use instana_agent_operator.Kube.Client.Terminates.{KeepsTime, delete_all_in_time_limit_total}
use instana_agent_operator.Kube.Client.Sends.{
  Concerns, delete_each-SendsOnly, verify_deletion-SendsOnly, delete_all_in_time_limit-SendsOnly,
}

-- The calls of `a` are still there in `b`.
pub SendsOnly-keeps :
    {W : Type 0} {P : Call → Type 0} {a b : Cluster W} {call : Call}
    → SendsOnly P a b
    → Memᴰ call a.calls
    → Memᴰ call b.calls
SendsOnly-keeps {call} h m = rw h.extends (Mem-append_left _ h.sent m)

pub record KeepsPromises {W : Type 0} (client : InstanaAgentClient W) : Type 0 where
  -- `Apply` sends the object without its managed fields, once
  pub applies :
      (dry : Bool) (o : Object) (c : Cluster W)
      → (client.apply dry o c).1.calls
        ≡ c.calls ++ apply_call dry (record o { managed_fields = [] }) ∷ []
  pub reads :
      (gvk : GroupVersionKind) (key : ObjectKey) (c : Cluster W)
      → (client.get gvk key c).2.calls ≡ c.calls ++ get_call gvk key ∷ []
  -- `DeleteAllInTimeLimit` deletes and reads the objects that it is given and no others
  pub spares :
      (objects : List Object) (timeout wait_time : ℕ) (c : Cluster W)
      → SendsOnly
          (Concerns objects)
          c
          (client.delete_all_in_time_limit objects timeout wait_time c).1
  -- and it sends a delete for each of them
  pub deletes :
      (objects : List Object) (timeout wait_time : ℕ) (c : Cluster W) (o : Object)
      → 0 < wait_time
      → Memᴰ o objects
      → Memᴰ
          (delete_call o.gvk (key_from_object o))
          (client.delete_all_in_time_limit objects timeout wait_time c).1.calls

module _ {W : Type 0} (server : Server W) where
  delete_each-deletes :
      (objects : List Object) (errs : MultiErrorBuilder) (c : Cluster W) (o : Object)
      → Memᴰ o objects
      → Memᴰ (delete_call o.gvk (key_from_object o)) (delete_each server objects errs c).1.calls
  unfolding delete_each
  delete_each-deletes [] errs c o m = elim m [ ]
  delete_each-deletes (p ∷ objects) errs c o m =
      let c' = (send_delete server p.gvk (key_from_object p) c).1 in
      elim (Mem-cons_cases m) [
        | inl same ↦
            SendsOnly-keeps (delete_each-SendsOnly server objects objects _ c' (λ q n. n)) (
              Mem-append_right c.calls _
                (Memᴰ.head (ap (λ (x : Object). delete_call x.gvk (key_from_object x)) same)))
        | inr later ↦ delete_each-deletes objects _ c' o later
      ]

  delete_all_in_time_limit-deletes :
      (ctx : Context W) (objects : List Object) (timeout wait_time : ℕ) (c c' : Cluster W)
      (err : Option Error) (o : Object)
      → delete_all_in_time_limit_fuel server ctx objects timeout wait_time c ≡ some (err, c')
      → Memᴰ o objects
      → Memᴰ (delete_call o.gvk (key_from_object o)) c'.calls
  unfolding delete_all_in_time_limit_fuel delete_all
  delete_all_in_time_limit-deletes ctx objects timeout wait_time c c' err o h m =
      let sent = delete_each server objects [] c in
      let there = delete_each-deletes objects [] c o m in
      elim (Option-cases (delete_all server objects c).0) [
        | inr (e, failed) ↦ let same : sent.1 ≡ c' = ground arith in rw (← same) there
        | inl ok ↦
            SendsOnly-keeps
              (verify_deletion-SendsOnly server (with_timeout server ctx timeout c.world)
                (suc timeout) objects wait_time sent.1 c' err (ground arith))
              there
      ]

  module _ (time : KeepsTime server) (ctx : Context W) where
    client-spares :
        (objects : List Object) (timeout wait_time : ℕ) (c : Cluster W)
        → SendsOnly
            (Concerns objects)
            c
            ((new_instana_agent_client server ctx).delete_all_in_time_limit objects timeout
              wait_time c).1
    unfolding new_instana_agent_client
    client-spares objects timeout wait_time c =
        elim (Option-cases (delete_all_in_time_limit_fuel server ctx objects timeout wait_time c)) [
          | inl out ↦ rw out (SendsOnly-refl c)
          | inr ((err, c'), done) ↦ rw done (
              delete_all_in_time_limit-SendsOnly server ctx objects timeout wait_time c c' err done)
        ]

    client-deletes :
        (objects : List Object) (timeout wait_time : ℕ) (c : Cluster W) (o : Object)
        → 0 < wait_time
        → Memᴰ o objects
        → Memᴰ
            (delete_call o.gvk (key_from_object o))
            ((new_instana_agent_client server ctx).delete_all_in_time_limit objects timeout
              wait_time c).1.calls
    unfolding new_instana_agent_client
    client-deletes objects timeout wait_time c o positive m =
        let ((err, c'), done) =
          delete_all_in_time_limit_total server time ctx objects timeout wait_time c positive in
        rw done (delete_all_in_time_limit-deletes ctx objects timeout wait_time c c' err o done m)

    -- The client keeps what the components above it rely on: `Apply` and `Get` send one call each,
    -- and `DeleteAllInTimeLimit` sends a delete for each of its objects and nothing for others.
    pub client-KeepsPromises : KeepsPromises (new_instana_agent_client server ctx)
    unfolding new_instana_agent_client
    client-KeepsPromises = record {
      applies = λ dry o c. refl;
      reads = λ gvk key c. refl;
      spares = client-spares;
      deletes = client-deletes;
    }
