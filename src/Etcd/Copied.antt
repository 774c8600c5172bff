-- ===== src/Etcd/Copied.antt =====
-- When the certificates of etcd count as copied.
use instana_agent_operator.Prelude.{
  String, ◌≡◌, ◌≢◌, refl, ap, ◌↔◌, true, false, Option, none, some, Option-cases, inl, inr, arith,
  eq_iff, Bool-cases, ◌==◌, string_comparable, Memᴰ, Mem-append_left, Mem-append_right, [], ◌∷◌,
  ◌++◌, ◌⊎◌,
}
use instana_agent_operator.Prelude.Dict.{Dict, lookup}
use instana_agent_operator.Errors.{Error}
use instana_agent_operator.Results.{is_success}
use instana_agent_operator.Kube.{Object}
use instana_agent_operator.Kube.Api.{Cluster, delete_call}
use instana_agent_operator.Lifecycle.{DependentLifecycleManager}
use instana_agent_operator.Etcd.Copies.{
  data_error, validate_open_shift_etcd_resources, copy_etcd_resources_to_namespace,
  copy_or_clean_up, read_sources, setup_open_shift_etcd_monitoring, copied_config_map,
  copied_secret, cleanup_copied_etcd_resources, in_agent_namespace,
}
use instana_agent_operator.Builders.EtcdNames.{
  etcd_metrics_ca_bundle_name, etcd_metric_client_secret_name,
}
use instana_agent_operator.Etcd.Discovery.{core_gvk}

-- The data has something under the key.
abbrev pub HasData : String → Option (Dict String) → Type 0
HasData key data' =
    (m : Dict String) × (value : String) × (data' ≡ some m)
    × (lookup key m ≡ some value)
    × (value ≢ "")

data_error-eq-none_iff :
    (name key : String) (data' : Option (Dict String))
    → (data_error name key data' ≡ none) ↔ HasData key data'
unfolding data_error
data_error-eq-none_iff name key none =
    (λ h. ground (arith, h), λ (m, v, e, _, _). ground (arith, e))
data_error-eq-none_iff name key (some m) = elim (Option-cases (lookup key m)) [
  | inl e ↦ (λ h. ground (arith, h, e), λ (m', v, same, found, _). ground (arith, e, same, found))
  | inr (v, e) ↦ elim (Bool-cases (v == "")) [
    | inl empty ↦ (
      λ h. ground (arith, h, e, empty),
      λ (m', v', same, found, set). ground (arith, e, same, found, set, empty, eq_iff v ""),
    )
    | inr full ↦ (
      λ h. (m, v, refl, e, λ p. ground (arith, p, full, eq_iff v "")),
      λ h. ground (arith, e, full),
    )
  ]
]

-- Both sources were read and have the keys that are mounted.
abbrev pub AreUsable : Option Error × Object → Option Error × Object → Type 0
AreUsable (ca_err, config_map) (cert_err, secret) =
    (ca_err ≡ none)
    × (cert_err ≡ none)
    × HasData "ca-bundle.crt" config_map.payload
    × HasData "tls.crt" secret.payload
    × HasData "tls.key" secret.payload

validate_iff :
    (config_map secret : Object) (ca_err cert_err : Option Error)
    → (validate_open_shift_etcd_resources config_map secret ca_err cert_err ≡ (none, none))
      ↔ AreUsable (ca_err, config_map) (cert_err, secret)
unfolding validate_open_shift_etcd_resources
validate_iff config_map secret ca_err cert_err =
    let a = data_error-eq-none_iff "etcd-metrics-ca-bundle" "ca-bundle.crt" config_map.payload in
    let b = data_error-eq-none_iff "etcd-metric-client" "tls.crt" secret.payload in
    let c = data_error-eq-none_iff "etcd-metric-client" "tls.key" secret.payload in
    (
      λ h. (
        ground (arith, h),
        ground (arith, h),
        a.0 (ground (arith, h)),
        b.0 (ground (arith, h)),
        c.0 (ground (arith, h)),
      ),
      λ (ca, cert, x, y, z). ground (arith, ca, cert, a.1 x, b.1 y, c.1 z),
    )

-- Either both sources are usable, or one of the errors is set.
validate-cases :
    (config_map secret : Object) (ca_err cert_err : Option Error)
    → (validate_open_shift_etcd_resources config_map secret ca_err cert_err ≡ (none, none))
      ⊎ ¬ (validate_open_shift_etcd_resources config_map secret ca_err cert_err ≡ (none, none))
validate-cases config_map secret ca_err cert_err =
    let errs = validate_open_shift_etcd_resources config_map secret ca_err cert_err in
    elim (Option-cases errs.0) [
      | inr (e, eq) ↦ inr (λ h. ground (arith, eq, ap (λ x. x.0) h))
      | inl eq ↦ elim (Option-cases errs.1) [
        | inr (e, eq') ↦ inr (λ h. ground (arith, eq', ap (λ x. x.1) h))
        | inl eq' ↦ inl (ground (arith, eq, eq'))
      ]
    ]

module _ {W : Type 0} (d : DependentLifecycleManager W) where
  copied-flag :
      (config_map secret : Object) (c : Cluster W)
      → let (first, c1) = d.client.apply false (copied_config_map d.agent config_map) c in
        let (second, _) = d.client.apply false (copied_secret d.agent secret) c1 in
        ((copy_or_clean_up d (none, none) config_map secret c).0.open_shift_etcd_resources_exist
          ≡ true)
        ↔ ((is_success first ≡ true) × (is_success second ≡ true))
  unfolding copy_or_clean_up copy_etcd_resources_to_namespace
  copied-flag config_map secret c =
      (λ h. (ground (arith, h), ground (arith, h)), λ (p, q). ground (arith, p, q))

  unset-flag :
      (errs : Option Error × Option Error) (config_map secret : Object) (c : Cluster W)
      → ¬ (errs ≡ (none, none))
      → (copy_or_clean_up d errs config_map secret c) ≡ (
        record {
          discovered_etcd_targets = [];
          etcd_ca_secret_name = "";
          open_shift_etcd_resources_exist = false;
        },
        cleanup_copied_etcd_resources d c,
      )
  unfolding copy_or_clean_up
  unset-flag (none, none) config_map secret c h = elim (h refl) [ ]
  unset-flag (none, some e) config_map secret c h = refl
  unset-flag (some e, cert_err) config_map secret c h = refl

  -- The context says that the resources exist exactly if both sources were read, have the keys that
  -- are mounted, and both copies were applied without an error.
  pub setup-exist_iff :
      (c : Cluster W)
      → let (ca, cert, c2) = read_sources d c in
        let (first, c3) = d.client.apply false (copied_config_map d.agent ca.1) c2 in
        let (second, _) = d.client.apply false (copied_secret d.agent cert.1) c3 in
        ((setup_open_shift_etcd_monitoring d c).0.open_shift_etcd_resources_exist ≡ true)
        ↔ (AreUsable ca cert × (is_success first ≡ true) × (is_success second ≡ true))
  unfolding setup_open_shift_etcd_monitoring
  setup-exist_iff c =
      let (ca, cert, c2) = read_sources d c in
      let valid = validate_iff ca.1 cert.1 ca.0 cert.0 in
      elim (validate-cases ca.1 cert.1 ca.0 cert.0) [
        | inl ok ↦ rw ok (
          λ h. let (p, q) = (copied-flag ca.1 cert.1 c2).0 h in (valid.0 ok, p, q),
          λ (usable, p, q). (copied-flag ca.1 cert.1 c2).1 (p, q),
        )
        | inr bad ↦
            rw (unset-flag _ ca.1 cert.1 c2 bad)
              (λ h. ground (arith, h), λ (usable, p, q). elim (bad (valid.1 usable)) [ ])
      ]

  cleanup-calls :
      (c : Cluster W)
      → (cleanup_copied_etcd_resources d c).calls
        ≡ (c.calls
            ++ delete_call (core_gvk "ConfigMap") (in_agent_namespace d etcd_metrics_ca_bundle_name)
              ∷ [])
          ++ delete_call (core_gvk "Secret") (in_agent_namespace d etcd_metric_client_secret_name)
            ∷ []
  unfolding cleanup_copied_etcd_resources
  cleanup-calls c = refl

  -- If a source cannot be used, a delete is sent for each of the two copies.
  pub setup-cleans_up :
      (c : Cluster W)
      → ¬ (AreUsable (read_sources d c).0 (read_sources d c).1)
      → Memᴰ
          (delete_call (core_gvk "ConfigMap") (in_agent_namespace d etcd_metrics_ca_bundle_name))
          (setup_open_shift_etcd_monitoring d c).1.calls
        × Memᴰ
            (delete_call (core_gvk "Secret") (in_agent_namespace d etcd_metric_client_secret_name))
            (setup_open_shift_etcd_monitoring d c).1.calls
  unfolding setup_open_shift_etcd_monitoring
  setup-cleans_up c unusable =
      let (ca, cert, c2) = read_sources d c in
      let valid = validate_iff ca.1 cert.1 ca.0 cert.0 in
      rw (unset-flag _ ca.1 cert.1 c2 (λ ok. unusable (valid.0 ok)), cleanup-calls c2)
        (
          Mem-append_left _ _ (Mem-append_right c2.calls _ (Memᴰ.head refl)),
          Mem-append_right _ _ (Memᴰ.head refl),
        )
