-- ===== src/Builders/Sensor/Selector.antt =====
-- When the k8s sensor's Deployment selects the pods of its own template.
use instana_agent_operator.Prelude.{
  String, ◌≡◌, refl, sym, ap, ◌∙◌, ◌↔◌, Bool, false, Bool-cases, inl, inr, some, List, arith,
  eq_iff, some-injective, ◌==◌, string_comparable, if◌then◌else◌,
}
use mathlib.Core.Path.{subst}
use instana_agent_operator.Prelude.Dict.{Dict, lookup, insert, lookup-insert}
use instana_agent_operator.Collections.Maps.{
  map_or_make, set_if_empty, value_at, IsIncluded, copy_map,
}
use instana_agent_operator.Optional.{string_zero, get_or_default}
use instana_agent_operator.Builders.{CoreEnvVar}
use instana_agent_operator.Transform.{
  name_label, instance_label, component_label, part_of_label, managed_by_label,
}
use instana_agent_operator.Builders.Labels.{
  get_pod_selector_labels, get_pod_labels, labels_for_mode, label_agent_mode,
}
use instana_agent_operator.Builders.Labels.Selects.{get_pod_labels-IsIncluded}
use instana_agent_operator.Builders.Sensor.{
  DeploymentBuilder, add_app_label, deployment_with, get_pod_template_labels, labels_generator,
}

-- the value of the label app after `addAppLabel`
unfoldable pub app_or_default : Dict String → String
app_or_default labels = let app = value_at "app" labels in if app == "" then "k8sensor" else app

lookup-add_app_label :
    (labels : Dict String)
    → lookup "app" (add_app_label (some labels)) ≡ some (app_or_default labels)
unfolding add_app_label set_if_empty get_or_default app_or_default
lookup-add_app_label labels = lookup-insert "app" "app" (app_or_default labels) labels

lookup-other :
    (key : String) (labels : Dict String)
    → ("app" == key) ≡ false
    → lookup key (add_app_label (some labels)) ≡ lookup key labels
unfolding add_app_label set_if_empty get_or_default app_or_default
lookup-other key labels h =
    lookup-insert "app" key (app_or_default labels) labels
    ∙ ap (λ b. if b then some (app_or_default labels) else lookup key labels) h

selector-app :
    (d : DeploymentBuilder)
    → app_or_default (get_pod_selector_labels (labels_generator d)) ≡ "k8sensor"
unfolding app_or_default get_pod_selector_labels lookup insert
selector-app d = refl

-- If one map of labels is in another before `addAppLabel`, it is in it afterwards exactly if they
-- get the same label app.
added-IsIncluded_iff :
    (m n : Dict String)
    → IsIncluded m n
    → IsIncluded (add_app_label (some m)) (add_app_label (some n))
      ↔ (app_or_default m ≡ app_or_default n)
added-IsIncluded_iff m n h = (
  λ included.
      some-injective
        (sym (included "app" (app_or_default m) (lookup-add_app_label m)) ∙ lookup-add_app_label n),
  λ same key v found. elim (Bool-cases ("app" == key)) [
    | inl e ↦
        subst (λ k. lookup k (add_app_label (some n)) ≡ some v) ((eq_iff "app" key).0 e)
          (lookup-add_app_label n
            ∙ ap some (sym same)
            ∙ sym (lookup-add_app_label m)
            ∙ subst (λ k. lookup k (add_app_label (some m)) ≡ some v) (sym ((eq_iff "app" key).0 e))
                found)
    | inr e ↦ lookup-other key n e ∙ h key v (sym (lookup-other key m e) ∙ found)
  ],
)

-- the labels of the template before `addAppLabel`
abbrev pub own_labels : DeploymentBuilder → Dict String
own_labels d = (get_pod_template_labels d).0

own-IsIncluded :
    (d : DeploymentBuilder)
    → IsIncluded (get_pod_selector_labels (labels_generator d)) (own_labels d)
unfolding labels_for_mode
own-IsIncluded d = get_pod_labels-IsIncluded (labels_generator d) (
    some (insert label_agent_mode "KUBERNETES" (map_or_make d.instana_agent.spec.agent.pod.labels)))

lookup-skip :
    (key value : String) (m : Dict String)
    → (key == "app") ≡ false
    → lookup "app" (insert key value m) ≡ lookup "app" m
lookup-skip key value m h =
    lookup-insert key "app" value m ∙ ap (λ b. if b then some value else lookup "app" m) h

own-app :
    (d : DeploymentBuilder)
    → lookup "app" (own_labels d) ≡ lookup "app" (map_or_make d.instana_agent.spec.agent.pod.labels)
unfolding labels_for_mode get_pod_labels copy_map
own-app d =
    lookup-skip managed_by_label _ _ refl
    ∙ lookup-skip part_of_label _ _ refl
    ∙ lookup-skip component_label _ _ refl
    ∙ lookup-skip instance_label _ _ refl
    ∙ lookup-skip name_label _ _ refl
    ∙ lookup-skip label_agent_mode _ _ refl

app_of-lookup :
    (m n : Dict String) → lookup "app" m ≡ lookup "app" n → app_or_default m ≡ app_or_default n
unfolding app_or_default
app_of-lookup m n h = ground (arith, h)

-- The Deployment of the k8s sensor selects the pods of its own template exactly if the label app
-- that the user asks for is missing, empty or k8sensor.
pub deployment-selects_iff :
    (d : DeploymentBuilder) (sha256_hex : String → String) (matches_poll_rate : String → Bool)
    (envs : List CoreEnvVar)
    → let built = deployment_with d sha256_hex matches_poll_rate envs in
      IsIncluded built.selector built.template.labels
      ↔ (app_or_default (map_or_make d.instana_agent.spec.agent.pod.labels) ≡ "k8sensor")
unfolding deployment_with
deployment-selects_iff d sha256_hex matches_poll_rate envs =
    let selector = get_pod_selector_labels (labels_generator d) in
    let iff = added-IsIncluded_iff selector (own_labels d) (own-IsIncluded d) in
    let app =
      app_of-lookup (own_labels d) (map_or_make d.instana_agent.spec.agent.pod.labels)
        (own-app d) in
    (
      λ included. sym app ∙ sym (iff.0 included) ∙ selector-app d,
      λ same. iff.1 (selector-app d ∙ sym same ∙ sym app),
    )
