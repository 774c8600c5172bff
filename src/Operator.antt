-- ===== src/Operator.antt =====
-- pkg/k8s/operator/operator_utils/operator_utils.go
pub mod Laws
pub mod Applies
use instana_agent_operator.Prelude.{Bool, true, false, Option, none, some, List, [], ◌∷◌, String}
use instana_agent_operator.Collections.{map_to}
use instana_agent_operator.Optional.{Optional, all_non_empty, pointer_zero}
use instana_agent_operator.Errors.{Error, MultiErrorBuilder, add_single, build}
use instana_agent_operator.Results.{Result, result_of, on_failure}
use instana_agent_operator.Kube.{GroupVersionKind, ObjectKey, Object}
use instana_agent_operator.Kube.Api.{Cluster}
use instana_agent_operator.Lifecycle.{
  DependentLifecycleManager, update_dependent_lifecycle_info, cleanup_dependents,
}
use instana_agent_operator.Transform.{ObjectBuilder, apply_builder}

-- the objects behind the interface values that `AllNonEmpty` returned
abbrev pub present : List (Option Object) → List Object
present [] = []
present (none ∷ os) = present os
present (some o ∷ os) = o ∷ present os

abbrev crd_gvk : GroupVersionKind
crd_gvk = record {
  group = "apiextensions.k8s.io";
  version = "v1";
  kind = "CustomResourceDefinition";
}

module _ {W : Type 0} (d : DependentLifecycleManager W) where
  unfoldable pub build_objects : List ObjectBuilder → List Object
  unfolding all_non_empty map_to
  build_objects builders =
      present (all_non_empty (map_to builders (apply_builder d.transformations)))

  -- The loop of `applyAll`: the errors so far, and the objects as the server's answers leave them.
  pub apply_each :
      Bool
      → List Object
      → MultiErrorBuilder
      → Cluster W
      → MultiErrorBuilder × List Object × Cluster W
  unfolding on_failure
  apply_each dry [] errs c = (errs, [], c)
  apply_each dry (obj ∷ objects) errs c =
      let (res, c') = d.client.apply dry obj c in
      let (errs', applied, c'') = apply_each dry objects (on_failure res add_single errs) c' in
      (errs', res.res ∷ applied, c'')

  -- `applyAll`, with or without `DryRunAll`
  unfoldable pub apply_objects :
      Bool → List Object → Cluster W → Option Error × List Object × Cluster W
  unfolding apply_each
  apply_objects dry objects c =
      let (errs, applied, c') = apply_each dry objects [] c in (build errs, applied, c')

  -- `ApplyAll`. The objects are built again after the dry run, which has written to the first ones.
  unfoldable pub apply_all : List ObjectBuilder → Cluster W → Option Error × Cluster W
  apply_all builders c =
      let objects = build_objects builders in
      let (dry_err, _, c1) = apply_objects true objects c in
      elim dry_err [
        | some e ↦ (some e, c1)
        | none ↦
            let (update_err, c2) = update_dependent_lifecycle_info d objects c1 in
            elim update_err [
              | some e ↦ (some e, c2)
              | none ↦
                  let (apply_err, applied, c3) = apply_objects false objects c2 in
                  elim apply_err [ some e ↦ (some e, c3) | none ↦ cleanup_dependents d applied c3 ]
            ]
      ]

  -- `DeleteAll`
  unfoldable pub delete_all : Cluster W → Option Error × Cluster W
  delete_all c = cleanup_dependents d [] c

  -- `ClusterIsOpenShift`, with the value of spec.openshift
  unfoldable pub cluster_is_open_shift : Option Bool → Cluster W → Result Bool × Cluster W
  cluster_is_open_shift none c =
      d.client.exists crd_gvk
        (record { namespace = ""; name = "clusteroperators.config.openshift.io" }) c
  cluster_is_open_shift (some b) c = (result_of b none, c)
