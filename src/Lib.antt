-- ===== src/Lib.antt =====
-- Verification of the Instana agent operator, a Kubernetes operator in Go.
--
-- The operator watches InstanaAgent resources. For each it builds the objects that make up an
-- agent, applies them to the cluster, records in a ConfigMap which objects it has applied for which
-- generation of the resource, deletes those that the current generation lacks, and reports the
-- outcome in the status of the resource. The modules follow the packages of the repository:
--
--   Prelude       tests, lists, Go's maps (Prelude.Dict) and strings (Prelude.Text),
--                 sorting (Prelude.Sort, Prelude.Order) and strings.Split (Prelude.Split)
--   Collections   pkg/collections/list: filter, map, membership, the two diffs; Collections.Maps is
--                 pkg/map_defaulter and the copier of pkg/collections/map
--   Optional      pkg/optional and pkg/pointer
--   Errors        Go's errors as trees, pkg/multierror and pkg/recovery
--   Results       pkg/result
--   Kube          the objects; Kube.Api is the API server, a parameter, with the record of the calls
--                 that were sent to it; Kube.Client is pkg/k8s/client
--   Transform     pkg/k8s/object/transformations/transformations.go and the builder transformer of
--                 pkg/k8s/object/builders/common/builder
--   Lifecycle     pkg/k8s/operator/lifecycle: dependent_lifecycle_manager.go and helpers.go
--   Operator      pkg/k8s/operator/operator_utils/operator_utils.go
--   Agent         api/v1: the InstanaAgent resource and its Default
--   Builders      pkg/k8s/object/builders/common: env, volume, ports, helpers and backends; the data of
--                 agent/secrets/keys-secret; getK8SensorBackends of controllers/util.go.
--                 Builders.Configs and Builders.Containers are agent/secrets/config.go and
--                 container.go;
--                 Builders.Labels is pkg/k8s/object/transformations/pod_selector.go, Builders.Sensor
--                 the Deployment of k8s-sensor/deployment/deployment.go and Builders.DaemonSets the
--                 DaemonSet of agent/daemonset/daemonset.go
--   Status        pkg/k8s/operator/status: agent_status_manager.go and helpers.go
--   Events        controllers/event_filter.go
--   Etcd          controllers/etcd_discoverer.go and etcd_discovery.go: the service of etcd and its
--                 targets (Etcd.Discovery); controllers/apply.go: the copied certificates
--                 (Etcd.Copies) and CreateDeploymentContext (Etcd.Context)
--   Reconcile     controllers: the finalizers of the agent and its deletion, of agent.go, finalizer.go,
--                 cleanup.go and reconcile_result.go; Reconcile.Persist is isOpenShift and
--                 shouldSetPersistHostUniqueIDEnvVar of util.go, and getDaemonSetBuilders of apply.go;
--                 Reconcile.Apply is applyResources of apply.go, with the seventeen builders of other
--                 objects as a list
--   Tests         tests, and each theorem at an input that meets its hypotheses
--
-- Functions keep the names of the source in snake case. A function that calls the API server takes
-- a Cluster, the state of the world beside the calls sent so far, and returns it changed. A nil
-- error is `none`, a nil pointer too; where the code may follow a nil pointer, the model answers
-- with a value for the panic. Machine integers are generations, ports and counts, which the code
-- compares and prints but does not compute with, so they are natural numbers.
--
-- The deletion with a time limit waits in a loop. Its fuel is the limit plus one round, which is
-- enough when the wait is positive and the server's clock advances by the wait. The retries of
-- the lifecycle manager run five times. A number is printed on fuel of its value plus one.
--
-- Code outside the repository is a parameter: the API server and typed reads from it, the codecs of
-- JSON and YAML, url.URL, semver, SHA-256, regular expressions, the handling of conditions by
-- k8s.io/apimachinery. Hypotheses on it are the records KeepsTime, SetsCondition, RemovesOnly and,
-- for the answers to applies, KeepsIdentity. An object that is not typed is its identity and the
-- rest of its contents as a text, which reflect.DeepEqual compares too; KeepsIdentities is the
-- hypothesis that the ConfigMap records identities and no further content, as the operator writes
-- it; a recorded object with other contents differs from the current one, and is deleted.
--
-- Not modelled: the rest of the controllers' reconcile loops (controllers), the small builders of
-- services, accounts and ConfigMaps, those of RBAC objects, the variants for remote agents, the Helm
-- uninstall, the entry point, logging, mocks and end-to-end tests.
pub mod Prelude
pub mod Collections
pub mod Optional
pub mod Errors
pub mod Results
pub mod Kube
pub mod Transform
pub mod Lifecycle
pub mod Operator
pub mod Reconcile
pub mod Etcd
pub mod Events
pub mod Status
pub mod Builders
pub mod Agent
mod Tests
