-- ===== src/Reconcile/Applied.antt =====
-- That `applyResources` does not follow a nil pointer, and which DaemonSets it has applied.
use mathlib.Core.Path.{subst}
use instana_agent_operator.Prelude.{
  String, ◌≡◌, ◌≢◌, refl, sym, ap, ◌∙◌, Bool, true, false, Option, none, some, List, ◌++◌, Memᴰ,
  arith, inl, inr, Mem-append_left, Option-cases, All-Mem,
}
use instana_agent_operator.Optional.{optional_of}
use instana_agent_operator.Kube.{Object}
use instana_agent_operator.Kube.Api.{apply_call, Cluster}
use instana_agent_operator.Kube.Client.Promises.{KeepsPromises}
use instana_agent_operator.Lifecycle.{DependentLifecycleManager}
use instana_agent_operator.Transform.{ObjectBuilder}
use instana_agent_operator.Operator.{apply_all}
use instana_agent_operator.Operator.Applies.{
  as_sent, transformed, Mem-build_objects, apply_all-applies,
}
use instana_agent_operator.Agent.{InstanaAgent, Zone, default}
use instana_agent_operator.Builders.Secrets.{K8SensorBackend}
use instana_agent_operator.Builders.Sensor.{DeploymentBuilder, DeploymentContext}
use instana_agent_operator.Builders.DaemonSets.{
  DaemonSetBuilder, build_daemon_set, gives_no_daemon_set,
}
use instana_agent_operator.Builders.DaemonSets.Returns.{
  build_deployment-returns, build_daemon_set-returns,
}
use instana_agent_operator.Builders.Workloads.{daemon_set_object, deployment_object}
use instana_agent_operator.Etcd.Discovery.{TypedReads, discover_etcd_endpoints}
use instana_agent_operator.Etcd.Context.{create_deployment_context}
use instana_agent_operator.Results.{Result}
use instana_agent_operator.Reconcile.{CtrlResult, ReconcileReturn, reconcile_continue}
use instana_agent_operator.Reconcile.Persist.{
  daemon_set_gvk, ds_name, daemon_set_builder, get_daemon_set_builders,
}
use instana_agent_operator.Reconcile.Apply.{
  namespaced_builder, object_of, as_daemon_set_builder, as_deployment_builder, all_builders,
  get_k8s_sensor_deployments, in_order, apply_builders, apply_resources,
}
use instana_agent_operator.Reconcile.Made.{
  IsZoneOf, all_builders-total, Mem-all_builders, All-get_daemon_set_builders,
  Mem-get_daemon_set_builders, built_daemon_set, transformed-identity,
}

namespaced-returns :
    (component : String) (built : Option (Option Object))
    → built ≢ none
    → namespaced_builder component built ≢ none
namespaced-returns component none h e = h refl
namespaced-returns component (some built) h e = ground (arith, e)

object_of-returns {ℓ} :
    {A : Type ℓ} (f : A → Object) (built : Option (Option A))
    → built ≢ none
    → object_of f built ≢ none
object_of-returns f none h e = h refl
object_of-returns f (some none) h e = ground (arith, e)
object_of-returns f (some (some a)) h e = ground (arith, e)

in_order-total :
    (x y : Option (List ObjectBuilder)) (xs ys others : List ObjectBuilder)
    → x ≡ some xs
    → y ≡ some ys
    → in_order x others y ≡ some (xs ++ others ++ ys)
in_order-total x y xs ys others p q = rw (p, q) refl

module _ (sha256_hex : String → String) (matches_poll_rate : String → Bool) where
  sensors-total :
      (sensors : List DeploymentBuilder)
      → (bs : List ObjectBuilder) × (all_builders
            (as_deployment_builder sha256_hex matches_poll_rate)
            sensors
          ≡ some bs)
  sensors-total sensors =
      all_builders-total (as_deployment_builder sha256_hex matches_poll_rate) sensors (λ b m.
        namespaced-returns "k8sensor" _ (
          object_of-returns deployment_object _
            (build_deployment-returns b sha256_hex matches_poll_rate)))

  module _ {W : Type 0} (d : DependentLifecycleManager W) (reads : TypedReads W) (a : InstanaAgent)
      (open_shift flag : Bool) where
    -- the DaemonSets' builders of a resource that `Default` has completed
    abbrev made : Cluster W → List DaemonSetBuilder × ReconcileReturn × Cluster W
    made c = get_daemon_set_builders d reads (default a) open_shift flag c

    daemon_sets-total :
        (c : Cluster W)
        → (bs : List ObjectBuilder) × (all_builders as_daemon_set_builder (made c).0 ≡ some bs)
    daemon_sets-total c =
        let returns =
          All-get_daemon_set_builders (default a) open_shift (λ b. (build_daemon_set b).0 ≢ none)
            (λ z f. build_daemon_set-returns a f open_shift z) d reads flag c in
        all_builders-total as_daemon_set_builder (made c).0 (λ b m.
          namespaced-returns "instana-agent" _ (
            object_of-returns daemon_set_object _
              (All-Mem (λ b'. (build_daemon_set b').0 ≢ none) _ b returns m)))

    -- the context for the sensor, with the cluster after it
    abbrev context : Cluster W → Option DeploymentContext × Cluster W
    context c =
        create_deployment_context d reads (default a) open_shift
          (discover_etcd_endpoints d reads (default a)) c

    module _ (keys_secret : Option Object) (backends : List K8SensorBackend)
        (others : List ObjectBuilder) (c : Cluster W) where
      abbrev resources : Option ReconcileReturn × Cluster W
      resources =
          apply_resources sha256_hex matches_poll_rate d reads (default a) open_shift flag
            keys_secret backends others c

      resources-stopped :
          (r : Result CtrlResult)
          → (made (context c).1).1 ≡ some r
          → resources ≡ (some (some r), (made (context c).1).2)
      unfolding apply_resources
      resources-stopped r h = ground (arith, h)

      resources-reached :
          (bs : Option (List ObjectBuilder))
          → (made (context c).1).1 ≡ none
          → in_order (all_builders as_daemon_set_builder (made (context c).1).0) others (
              all_builders (as_deployment_builder sha256_hex matches_poll_rate) (
                get_k8s_sensor_deployments
                  (default a)
                  open_shift
                  backends
                  keys_secret
                  (context c).0))
            ≡ bs
          → resources
            ≡ apply_builders sha256_hex matches_poll_rate d reads bs (made (context c).1).2
      unfolding apply_resources
      resources-reached bs h same = ground (arith, h, same)

      -- the list that `ApplyAll` is given, with the DaemonSets' builders at its front
      resources-applied :
          (made (context c).1).1 ≡ none
          → (bs : List ObjectBuilder) × (resources
              ≡ apply_builders sha256_hex matches_poll_rate d reads
                  (some bs)
                  (made (context c).1).2)
            × ((b : DaemonSetBuilder) (built : ObjectBuilder)
                → Memᴰ b (made (context c).1).0
                → as_daemon_set_builder b ≡ some built
                → Memᴰ built bs)
      resources-applied h =
          let sensors =
            get_k8s_sensor_deployments (default a) open_shift backends keys_secret (context c).0 in
          let (ds, all_ds) = daemon_sets-total (context c).1 in
          let (ss, all_ss) = sensors-total sensors in
          (
            ds ++ others ++ ss,
            resources-reached _ h (in_order-total _ _ ds ss others all_ds all_ss),
            λ b built m e. Mem-append_left (ds ++ others) ss (
                Mem-append_left ds others (
                  Mem-all_builders as_daemon_set_builder (made (context c).1).0 ds b built all_ds m
                    e)),
          )

      -- For a resource that `Default` has completed, `applyResources` returns: no builder of a
      -- DaemonSet or of a Deployment of the sensor follows a nil pointer.
      pub apply_resources-returns : resources.0 ≢ none
      unfolding apply_builders
      apply_resources-returns h = elim (Option-cases (made (context c).1).1) [
        | inr (r, e) ↦ ground (arith, h, ap (λ x. x.0) (resources-stopped r e))
        | inl e ↦ let (bs, same, _) = resources-applied e in ground (arith, h, ap (λ x. x.0) same)
      ]

      resources-continues : resources.0 ≡ some reconcile_continue → (made (context c).1).1 ≡ none
      resources-continues h = elim (Option-cases (made (context c).1).1) [
        | inr (r, e) ↦ ground (arith, h, ap (λ x. x.0) (resources-stopped r e))
        | inl e ↦ e
      ]

      applied_nil :
          (bs : List ObjectBuilder) (c' : Cluster W)
          → (apply_builders sha256_hex matches_poll_rate d reads (some bs) c').0
            ≡ some reconcile_continue
          → ((apply_all d bs c').0 ≡ none)
            × ((apply_builders sha256_hex matches_poll_rate d reads (some bs) c').1
                ≡ (apply_all d bs c').1)
      unfolding apply_builders
      applied_nil bs c' h = elim (Option-cases (apply_all d bs c').0) [
        | inl e ↦ (e, refl)
        | inr (err, e) ↦ ground (arith, h, e)
      ]

      -- If `applyResources` continues for a resource that `Default` has completed, then for each
      -- zone, or for the agent without zones, for which `Build` gives a DaemonSet, it has sent an
      -- apply, not a dry run, of a DaemonSet with the name that belongs to the zone, in the
      -- namespace of the agent.
      pub apply_resources-applies_zones :
          KeepsPromises d.client
          → (zone : Option Zone) → IsZoneOf (default a) zone
          → gives_no_daemon_set (daemon_set_builder (default a) open_shift zone flag) ≡ false
          → resources.0 ≡ some reconcile_continue
          → (o : Object) × Memᴰ (apply_call false o) resources.1.calls
            × (o.gvk ≡ daemon_set_gvk)
            × (o.name ≡ ds_name (default a) zone)
            × (o.namespace ≡ (default a).namespace)
      apply_resources-applies_zones promises zone is_zone gives h =
          let continues = resources-continues h in
          let c' = (made (context c).1).2 in
          let (f, mem) =
            Mem-get_daemon_set_builders (default a) open_shift d reads flag (context c).1 zone
              continues is_zone in
          let (bs, reached, placed) = resources-applied continues in
          let (ds, built, named, spaced) = built_daemon_set a open_shift zone f gives in
          let builder : ObjectBuilder = record {
            build = optional_of (some (daemon_set_object ds));
            component_name = "instana-agent";
            is_namespaced = true;
          } in
          let sent = transformed d builder (daemon_set_object ds) in
          let (ok, same) = applied_nil bs c' (sym (ap (λ x. x.0) reached) ∙ h) in
          let (is_kind, is_name, is_space) =
            transformed-identity d builder (daemon_set_object ds) in
          (
            as_sent sent,
            subst (λ x. Memᴰ (apply_call false (as_sent sent)) x.calls)
                (sym (ap (λ x. x.1) reached ∙ same))
                (apply_all-applies d promises bs c' sent ok (
                  Mem-build_objects d bs builder (daemon_set_object ds)
                    (placed (daemon_set_builder (default a) open_shift zone f) builder mem (
                      ap (λ x. namespaced_builder "instana-agent" (object_of daemon_set_object x))
                        built))
                    refl refl)),
            is_kind,
            is_name ∙ named,
            is_space ∙ spaced,
          )
