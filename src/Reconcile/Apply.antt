-- ===== src/Reconcile/Apply.antt =====
-- controllers/apply.go: `getK8sSensorDeployments` and `applyResources`. The seventeen builders that
-- stand between the DaemonSets and the Deployments of the sensor are a parameter. What the
-- builders tell the status manager is left out, and so is the agent mode that a DaemonSet's builder
-- writes to the pod labels of the resource, which the next one writes again.
use instana_agent_operator.Prelude.{String, Bool, true, Option, none, some, List, [], ◌∷◌, ◌++◌}
use instana_agent_operator.Optional.{Optional, pointer_zero, optional_of, empty_optional}
use instana_agent_operator.Kube.{Object}
use instana_agent_operator.Kube.Api.{Cluster}
use instana_agent_operator.Lifecycle.{DependentLifecycleManager}
use instana_agent_operator.Transform.{ObjectBuilder}
use instana_agent_operator.Operator.{apply_all}
use instana_agent_operator.Agent.{InstanaAgent}
use instana_agent_operator.Builders.Secrets.{K8SensorBackend}
use instana_agent_operator.Builders.Sensor.{DeploymentBuilder, DeploymentContext, build_deployment}
use instana_agent_operator.Builders.DaemonSets.{DaemonSetBuilder, build_daemon_set}
use instana_agent_operator.Builders.Workloads.{daemon_set_object, deployment_object}
use instana_agent_operator.Etcd.Discovery.{TypedReads, discover_etcd_endpoints}
use instana_agent_operator.Etcd.Context.{create_deployment_context}
use instana_agent_operator.Reconcile.{ReconcileReturn, reconcile_continue, reconcile_failure}
use instana_agent_operator.Reconcile.Persist.{get_daemon_set_builders}

-- The result of `Build` as an optional object.
abbrev pub optional_object : Option Object → Optional (Option Object)
optional_object none = empty_optional
optional_object (some o) = optional_of (some o)

-- A builder of a namespaced object with what its `Build` gives; `none` if that does not return.
abbrev pub namespaced_builder : String → Option (Option Object) → Option ObjectBuilder
namespaced_builder component none = none
namespaced_builder component (some built) =
    some
      (record { build = optional_object built; component_name = component; is_namespaced = true })

abbrev pub object_of {ℓ} : {A : Type ℓ} → (A → Object) → Option (Option A) → Option (Option Object)
object_of f none = none
object_of f (some none) = some none
object_of f (some (some a)) = some (some (f a))

-- `daemonSetBuilder` as an `ObjectBuilder`
abbrev pub as_daemon_set_builder : DaemonSetBuilder → Option ObjectBuilder
as_daemon_set_builder b =
    namespaced_builder "instana-agent" (object_of daemon_set_object (build_daemon_set b).0)

-- all of the builders, unless the `Build` of one does not return
unfoldable pub all_builders {ℓ} :
    {A : Type ℓ} → (A → Option ObjectBuilder) → List A → Option (List ObjectBuilder)
all_builders f [] = some []
all_builders f (x ∷ xs) =
    let rest = all_builders f xs in
    elim (f x) [ none ↦ none | some b ↦ elim rest [ none ↦ none | some bs ↦ some (b ∷ bs) ] ]

-- `getK8sSensorDeployments`
unfoldable pub get_k8s_sensor_deployments :
    InstanaAgent
    → Bool
    → List K8SensorBackend
    → Option Object
    → Option DeploymentContext
    → List DeploymentBuilder
get_k8s_sensor_deployments agent open_shift [] keys_secret context = []
get_k8s_sensor_deployments agent open_shift (backend ∷ backends) keys_secret context =
    record {
      instana_agent = agent;
      backend = backend;
      keys_secret = keys_secret;
      deployment_context = context;
      is_open_shift = open_shift;
    }
    ∷ get_k8s_sensor_deployments agent open_shift backends keys_secret context

-- the three groups of builders in the order in which they are applied
abbrev pub in_order :
    Option (List ObjectBuilder)
    → List ObjectBuilder
    → Option (List ObjectBuilder)
    → Option (List ObjectBuilder)
in_order none others sensors = none
in_order (some daemon_sets) others none = none
in_order (some daemon_sets) others (some sensors) = some (daemon_sets ++ others ++ sensors)

module _ (sha256_hex : String → String) (matches_poll_rate : String → Bool) where
  -- `deploymentBuilder` as an `ObjectBuilder`
  abbrev pub as_deployment_builder : DeploymentBuilder → Option ObjectBuilder
  as_deployment_builder b =
      namespaced_builder "k8sensor"
        (object_of deployment_object (build_deployment b sha256_hex matches_poll_rate).0)

  module _ {W : Type 0} (d : DependentLifecycleManager W) (reads : TypedReads W) where
    -- `ApplyAll` for the builders; `none` if it does not return
    unfoldable pub apply_builders :
        Option (List ObjectBuilder) → Cluster W → Option ReconcileReturn × Cluster W
    apply_builders none c = (none, c)
    apply_builders (some builders) c =
        let (err, c') = apply_all d builders c in
        (some (elim err [ none ↦ reconcile_continue | some e ↦ reconcile_failure e ]), c')

    -- `applyResources`: `none` says that a builder follows a nil pointer.
    unfoldable pub apply_resources :
        InstanaAgent
        → Bool
        → Bool
        → Option Object
        → List K8SensorBackend
        → List ObjectBuilder
        → Cluster W
        → Option ReconcileReturn × Cluster W
    unfolding all_builders get_k8s_sensor_deployments apply_builders
    apply_resources agent open_shift flag keys_secret backends others c =
        let (context, c1) =
          create_deployment_context d reads agent open_shift (discover_etcd_endpoints d reads agent)
            c in
        let (daemon_sets, res, c2) = get_daemon_set_builders d reads agent open_shift flag c1 in
        let sensors = get_k8s_sensor_deployments agent open_shift backends keys_secret context in
        elim res [
          | some r ↦ (some (some r), c2)
          | none ↦
              apply_builders
                (in_order (all_builders as_daemon_set_builder daemon_sets) others
                  (all_builders as_deployment_builder sensors))
                c2
        ]
