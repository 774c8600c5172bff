-- ===== src/Etcd/Copies.antt =====
-- controllers/apply.go: on OpenShift the certificates of etcd are copied from the namespace
-- openshift-etcd to that of the agent, and the copies are deleted when the originals cannot be used.
use instana_agent_operator.Prelude.{
  String, Bool, true, false, Option, none, some, [], ◌∷◌, ◌==◌, string_comparable, if◌then◌else◌,
}
use instana_agent_operator.Prelude.Dict.{Dict, lookup}
use instana_agent_operator.Prelude.Text.{◌<>◌}
use instana_agent_operator.Errors.{Error, text}
use instana_agent_operator.Results.{is_success}
use instana_agent_operator.Kube.{ObjectKey, Object, OwnerReference}
use instana_agent_operator.Kube.Api.{Cluster, send_delete}
use instana_agent_operator.Transform.{AgentMeta}
use instana_agent_operator.Lifecycle.{DependentLifecycleManager}
use instana_agent_operator.Builders.EtcdNames.{
  etcd_namespace, etcd_metrics_ca_bundle_name, etcd_metric_client_secret_name,
}
use instana_agent_operator.Builders.Sensor.{DeploymentContext}
use instana_agent_operator.Etcd.Discovery.{core_gvk}

-- The error for data that is nil, lacks the key, or has nothing under it.
unfoldable pub data_error : String → String → Option (Dict String) → Option Error
data_error name key none = some (text (name <> " has no data"))
data_error name key (some m) = elim (lookup key m) [
  | none ↦ some (text (name <> " missing " <> key <> " key"))
  | some value ↦ if value == "" then some (text (name <> " " <> key <> " is empty")) else none
]

-- the errors of the ConfigMap and of the Secret
unfoldable pub validate_open_shift_etcd_resources :
    Object → Object → Option Error → Option Error → Option Error × Option Error
unfolding data_error
validate_open_shift_etcd_resources config_map secret (some e) cert_err = (some e, cert_err)
validate_open_shift_etcd_resources config_map secret none cert_err =
    elim (data_error "etcd-metrics-ca-bundle" "ca-bundle.crt" config_map.payload) [
      | some e ↦ (some e, cert_err)
      | none ↦ elim cert_err [
        | some e ↦ (none, some e)
        | none ↦ elim (data_error "etcd-metric-client" "tls.crt" secret.payload) [
          | some e ↦ (none, some e)
          | none ↦ (none, data_error "etcd-metric-client" "tls.key" secret.payload)
        ]
      ]
    ]

-- metav1.NewControllerRef
abbrev pub controller_ref : AgentMeta → OwnerReference
controller_ref agent = record {
  api_version = "instana.io/v1";
  kind = "InstanaAgent";
  name = agent.name;
  uid = agent.uid;
  controller = some true;
  block_owner_deletion = some true;
}

-- `buildETCDResourceObjectMeta`, in a copy of a source object
unfoldable pub copied_resource : String → String → AgentMeta → Object → Object
copied_resource kind name agent source = record {
  gvk = core_gvk kind;
  name = name;
  namespace = agent.namespace;
  resource_version = "";
  labels = some (
      ("app.kubernetes.io/name", "instana-agent")
      ∷ ("app.kubernetes.io/component", "k8sensor")
      ∷ ("app.kubernetes.io/managed-by", "instana-agent-operator")
      ∷ ("instana.io/copied-from", etcd_namespace)
      ∷ []);
  annotations = some (
      ("instana.io/source-namespace", etcd_namespace)
      ∷ ("instana.io/source-name", name)
      ∷ ("instana.io/source-resource-version", source.resource_version)
      ∷ ("instana.io/instana-agent-name", agent.name)
      ∷ []);
  owner_references = controller_ref agent ∷ [];
  managed_fields = [];
  payload = source.payload;
  secret_type = source.secret_type;
}

abbrev pub copied_config_map : AgentMeta → Object → Object
copied_config_map agent source =
    copied_resource "ConfigMap" etcd_metrics_ca_bundle_name agent
      (record source { secret_type = "" })

abbrev pub copied_secret : AgentMeta → Object → Object
copied_secret agent source = copied_resource "Secret" etcd_metric_client_secret_name agent source

abbrev pub in_etcd_namespace : String → ObjectKey
in_etcd_namespace name = record { namespace = etcd_namespace; name = name }

abbrev pub context_with : Bool → DeploymentContext
context_with exist = record {
  discovered_etcd_targets = [];
  etcd_ca_secret_name = "";
  open_shift_etcd_resources_exist = exist;
}

module _ {W : Type 0} (d : DependentLifecycleManager W) where
  -- the Secret is applied only after the ConfigMap was
  unfoldable pub copy_etcd_resources_to_namespace : Object → Object → Cluster W → Bool × Cluster W
  copy_etcd_resources_to_namespace config_map secret c =
      let (first, c1) = d.client.apply false (copied_config_map d.agent config_map) c in
      let (second, c2) = d.client.apply false (copied_secret d.agent secret) c1 in
      if is_success first then (is_success second, c2) else (false, c1)

  abbrev pub in_agent_namespace : String → ObjectKey
  in_agent_namespace name = record { namespace = d.agent.namespace; name = name }

  -- the errors of the deletions are only logged
  unfoldable pub cleanup_copied_etcd_resources : Cluster W → Cluster W
  cleanup_copied_etcd_resources c =
      let (_, c1) =
        send_delete d.server (core_gvk "ConfigMap") (in_agent_namespace etcd_metrics_ca_bundle_name)
          c in
      let (_, c2) =
        send_delete d.server (core_gvk "Secret") (in_agent_namespace etcd_metric_client_secret_name)
          c1 in
      c2

  -- what the two reads give, with the cluster after them
  abbrev pub read_sources :
      Cluster W → (Option Error × Object) × (Option Error × Object) × Cluster W
  read_sources c =
      let (ca_err, config_map, c1) =
        d.client.get (core_gvk "ConfigMap") (in_etcd_namespace etcd_metrics_ca_bundle_name) c in
      let (cert_err, secret, c2) =
        d.client.get (core_gvk "Secret") (in_etcd_namespace etcd_metric_client_secret_name) c1 in
      ((ca_err, config_map), (cert_err, secret), c2)

  -- the copies, or their deletion, once the sources were validated
  unfoldable pub copy_or_clean_up :
      Option Error × Option Error → Object → Object → Cluster W → DeploymentContext × Cluster W
  unfolding copy_etcd_resources_to_namespace cleanup_copied_etcd_resources
  copy_or_clean_up (none, none) config_map secret c =
      let (copied, c') = copy_etcd_resources_to_namespace config_map secret c in
      (context_with copied, c')
  copy_or_clean_up (none, some e) config_map secret c =
      (context_with false, cleanup_copied_etcd_resources c)
  copy_or_clean_up (some e, cert_err) config_map secret c =
      (context_with false, cleanup_copied_etcd_resources c)

  unfoldable pub setup_open_shift_etcd_monitoring : Cluster W → DeploymentContext × Cluster W
  unfolding copy_or_clean_up validate_open_shift_etcd_resources
  setup_open_shift_etcd_monitoring c =
      let ((ca_err, config_map), (cert_err, secret), c2) = read_sources c in
      copy_or_clean_up (validate_open_shift_etcd_resources config_map secret ca_err cert_err)
        config_map secret c2
