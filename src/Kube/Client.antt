-- ===== src/Kube/Client.antt =====
-- pkg/k8s/client/client.go and helpers.go: `instanaAgentClient`.
pub mod Terminates
pub mod Gone
pub mod Sends
pub mod Promises
use instana_agent_operator.Prelude.{
  ℕ, zero, suc, ◌+◌, ◌≡◌, Bool, true, false, not, ◌&&◌, Option, none, some, List, [], ◌∷◌, ◌++◌,
  leb, if◌then◌else◌,
}
use instana_agent_operator.Collections.{conditions_all}
use instana_agent_operator.Optional.{bool_zero}
use instana_agent_operator.Errors.{Error, ext, text, MultiErrorBuilder, add, build}
use instana_agent_operator.Results.{
  Result, result_of, of_success, is_success, to_optional, recover, result_map,
}
use instana_agent_operator.Kube.{GroupVersionKind, ObjectKey, Object, key_from_object, bare_object}
use instana_agent_operator.Kube.Api.{
  Server, Cluster, nil_or, send_apply, send_delete, send_get, sleep_for,
}

-- The Go interface of the same name, as far as the components that are modelled use it.
pub record InstanaAgentClient (W : Type 0) : Type 0 where
  -- `Apply`, with or without `DryRunAll`
  pub apply : Bool → Object → Cluster W → Result Object × Cluster W
  pub exists : GroupVersionKind → ObjectKey → Cluster W → Result Bool × Cluster W
  pub get : GroupVersionKind → ObjectKey → Cluster W → Option Error × Object × Cluster W
  pub delete_all_in_time_limit : List Object → ℕ → ℕ → Cluster W → Result (List Object) × Cluster W

-- ctx.Err() at a state of the world
abbrev pub Context : Type 0 → Type 0
Context W = W → Option Error

abbrev pub deadline_exceeded : Error
deadline_exceeded = ext "context deadline exceeded"

-- helpers.go
abbrev was_retrieved : Object → Result Bool
was_retrieved o = of_success true

unfoldable pub do_not_exist : Result Bool → Bool
unfolding to_optional
do_not_exist res = is_success res && not (to_optional res).val

module _ {W : Type 0} (server : Server W) where
  -- client.IgnoreNotFound
  unfoldable pub ignore_not_found : Option Error → Option Error
  ignore_not_found err = if nil_or server.is_not_found err then none else err

  if_not_found : Option Error → Result Bool
  unfolding ignore_not_found
  if_not_found err = result_of false (ignore_not_found err)

  -- `Apply`: the managed fields are cleared on the object that the caller holds
  unfoldable pub apply : Bool → Object → Cluster W → Result Object × Cluster W
  apply dry obj c =
      let (err, obj', c') = send_apply server dry (record obj { managed_fields = [] }) c in
      (result_of obj' err, c')

  unfoldable pub get_as_result :
      GroupVersionKind → ObjectKey → Cluster W → Result Object × Cluster W
  get_as_result gvk key c =
      let (err, obj, c') = send_get server gvk key c in (result_of obj err, c')

  unfoldable pub exists : GroupVersionKind → ObjectKey → Cluster W → Result Bool × Cluster W
  unfolding get_as_result result_map recover if_not_found
  exists gvk key c =
      let (res, c') = get_as_result gvk key c in
      (recover (result_map res was_retrieved) if_not_found, c')

  -- the loop of `objectsExist`; the log call of `OnFailure` is left out
  unfoldable pub objects_exist : List Object → Cluster W → List (Result Bool) × Cluster W
  objects_exist [] c = ([], c)
  objects_exist (obj ∷ objects) c =
      let (res, c') = exists obj.gvk (key_from_object obj) c in
      let (rest, c'') = objects_exist objects c' in (res ∷ rest, c'')

  -- `verifyDeletion` and `verifyDeletionStep` call each other until nothing is left or the context
  -- is done. `none` says that the fuel ran out.
  unfoldable pub verify_deletion :
      Context W → ℕ → List Object → ℕ → Cluster W → Option (Option Error × Cluster W)
  verify_deletion ctx zero objects wait_time c = none
  verify_deletion ctx (suc fuel) objects wait_time c = elim (ctx c.world) [
    | some err ↦ some (some err, c)
    | none ↦
        let (results, c') = objects_exist objects c in
        let again = verify_deletion ctx fuel objects wait_time (sleep_for server wait_time c') in
        if conditions_all results do_not_exist then some (none, c') else again
  ]

  -- the loop of `deleteAll`, over the errors gathered so far
  pub delete_each : List Object → MultiErrorBuilder → Cluster W → MultiErrorBuilder × Cluster W
  delete_each [] errs c = (errs, c)
  delete_each (obj ∷ objects) errs c =
      let (err, c') = send_delete server obj.gvk (key_from_object obj) c in
      delete_each objects (add (ignore_not_found err ∷ []) errs) c'

  unfoldable pub delete_all : List Object → Cluster W → Option Error × Cluster W
  unfolding delete_each add
  delete_all objects c = let (errs, c') = delete_each objects [] c in (build errs, c')

  -- context.WithTimeout
  unfoldable pub with_timeout : Context W → ℕ → W → Context W
  with_timeout ctx timeout start w = elim (ctx w) [
    | some err ↦ some err
    | none ↦
        if leb (server.now start + timeout) (server.now w) then some deadline_exceeded else none
  ]

  -- the fuel: with a positive wait there are at most `timeout` rounds before the deadline
  unfoldable pub delete_all_in_time_limit_fuel :
      Context W → List Object → ℕ → ℕ → Cluster W → Option (Option Error × Cluster W)
  delete_all_in_time_limit_fuel ctx objects timeout wait_time c =
      let limited = with_timeout ctx timeout c.world in
      let (err, c') = delete_all objects c in
      elim err [
        | none ↦ verify_deletion limited (suc timeout) objects wait_time c'
        | some e ↦ some (some e, c')
      ]

  -- the result of `DeleteAllInTimeLimit`; the last case is the one in which the fuel would run out
  abbrev pub settled :
      List Object → Cluster W → Option (Option Error × Cluster W) → Result (List Object) × Cluster W
  settled objects c (some (err, c')) = (result_of objects err, c')
  settled objects c none = (result_of objects (some (text "out of fuel")), c)

  unfoldable pub delete_all_in_time_limit :
      Context W → List Object → ℕ → ℕ → Cluster W → Result (List Object) × Cluster W
  delete_all_in_time_limit ctx objects timeout wait_time c =
      settled objects c (delete_all_in_time_limit_fuel ctx objects timeout wait_time c)

  -- NewInstanaAgentClient, within a context
  unfoldable pub new_instana_agent_client : Context W → InstanaAgentClient W
  unfolding delete_all_in_time_limit apply
  new_instana_agent_client ctx = record {
    apply = apply;
    exists = exists;
    get = send_get server;
    delete_all_in_time_limit = delete_all_in_time_limit ctx;
  }
