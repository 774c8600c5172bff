-- ===== src/Reconcile/Made.antt =====
-- Which builders `getDaemonSetBuilders` makes, the list of builders when each `Build` returns, and
-- the DaemonSet that one builds.
use mathlib.Core.Path.{subst}
use instana_agent_operator.Prelude.{
  ◌≡◌, ◌≢◌, refl, sym, ap, ◌∙◌, Bool, Option, none, some, List, [], ◌∷◌, Memᴰ, arith, inl, inr,
  Mem-cons_cases, Option-cases, All, map, some-injective, false,
}
use instana_agent_operator.Operator.Applies.{transformed}
use instana_agent_operator.Builders.DaemonSets.Returns.{build_daemon_set-gives}
use instana_agent_operator.Builders.Workloads.{DaemonSet}
use instana_agent_operator.Kube.{Object}
use instana_agent_operator.Kube.Api.{Cluster}
use instana_agent_operator.Lifecycle.{DependentLifecycleManager}
use instana_agent_operator.Transform.{ObjectBuilder, add_common_labels, add_owner_reference}
use instana_agent_operator.Agent.{InstanaAgent, Zone, default}
use instana_agent_operator.Builders.DaemonSets.{
  DaemonSetBuilder, build_daemon_set, daemon_set_with, daemon_set_name, gives_no_daemon_set,
}
use instana_agent_operator.Etcd.Discovery.{TypedReads}
use instana_agent_operator.Reconcile.{ReconcileReturn}
use instana_agent_operator.Reconcile.Persist.{
  daemon_set_builder, builders_of, builders_made, builders_for_zones, zone_settings,
  get_daemon_set_builders, ds_name,
}
use instana_agent_operator.Reconcile.Kept.{settings-zones}
use instana_agent_operator.Reconcile.Apply.{all_builders}

module _ {ℓ} {A : Type ℓ} (f : A → Option ObjectBuilder) where
  pub all_builders-total :
      (xs : List A)
      → ((x : A) → Memᴰ x xs → f x ≢ none)
      → (bs : List ObjectBuilder) × (all_builders f xs ≡ some bs)
  unfolding all_builders
  all_builders-total [] total = ([], refl)
  all_builders-total (x ∷ xs) total = elim (Option-cases (f x)) [
    | inl e ↦ elim (total x (Memᴰ.head refl) e) [ ]
    | inr (b, e) ↦
        let (bs, rest) = all_builders-total xs (λ y m. total y (Memᴰ.tail m)) in
        (b ∷ bs, ground (arith, e, rest))
  ]

  pub Mem-all_builders :
      (xs : List A) (bs : List ObjectBuilder) (x : A) (b : ObjectBuilder)
      → all_builders f xs ≡ some bs
      → Memᴰ x xs
      → f x ≡ some b
      → Memᴰ b bs
  unfolding all_builders
  Mem-all_builders [] bs x b all mem e = elim mem [ ]
  Mem-all_builders (y ∷ ys) bs x b all mem e = elim (Option-cases (f y)) [
    | inl none_y ↦ ground (arith, all, none_y)
    | inr (c, some_y) ↦ elim (Option-cases (all_builders f ys)) [
      | inl none_ys ↦ ground (arith, all, some_y, none_ys)
      | inr (cs, some_ys) ↦
          let split : c ∷ cs ≡ bs = ground (arith, all, some_y, some_ys) in
          elim (Mem-cons_cases mem) [
            | inl same ↦
                subst (Memᴰ b) split (Memᴰ.head (some-injective (sym e ∙ ap f same ∙ some_y)))
            | inr later ↦
                subst (Memᴰ b) split (Memᴰ.tail (Mem-all_builders ys cs x b some_ys later e))
          ]
    ]
  ]

-- The builder of the agent or of one of its zones.
abbrev pub IsZoneOf : InstanaAgent → Option Zone → Type 0
IsZoneOf a none = a.spec.zones ≡ []
IsZoneOf a (some z) = Memᴰ z a.spec.zones

module _ (agent : InstanaAgent) (open_shift : Bool) where
  Mem-builders_of :
      (settings : List (Zone × Bool)) (z : Zone)
      → Memᴰ z (map (λ (s : Zone × Bool). s.0) settings)
      → (f : Bool) × Memᴰ
          (daemon_set_builder agent open_shift (some z) f)
          (builders_of agent open_shift settings)
  Mem-builders_of [] z mem = elim mem [ ]
  Mem-builders_of ((y, g) ∷ settings) z mem = elim (Mem-cons_cases mem) [
    | inl same ↦ (g, Memᴰ.head (ap (λ x. daemon_set_builder agent open_shift (some x) g) same))
    | inr later ↦ let (f, m) = Mem-builders_of settings z later in (f, Memᴰ.tail m)
  ]

  module _ (P : DaemonSetBuilder → Type 0)
      (holds : (z : Option Zone) (f : Bool) → P (daemon_set_builder agent open_shift z f)) where
    All-builders_of :
        (settings : List (Zone × Bool)) → All P (builders_of agent open_shift settings)
    All-builders_of [] = tt
    All-builders_of ((z, f) ∷ settings) = (holds (some z) f, All-builders_of settings)

    module _ {W : Type 0} (d : DependentLifecycleManager W) (reads : TypedReads W) where
      All-builders_made :
          (collected : List (Zone × Bool) × ReconcileReturn × Cluster W)
          → All P (builders_made d reads agent open_shift collected).0
      unfolding builders_made
      All-builders_made (settings, some r, c) = tt
      All-builders_made (settings, none, c) = All-builders_of settings

      All-for_zones :
          (flag : Bool) (zones : List Zone) (c : Cluster W)
          → All P (builders_for_zones d reads agent open_shift flag zones c).0
      unfolding builders_for_zones
      All-for_zones flag [] c = (holds none flag, tt)
      All-for_zones flag (z ∷ zones) c =
          All-builders_made (zone_settings d reads agent (z ∷ zones) c)

      pub All-get_daemon_set_builders :
          (flag : Bool) (c : Cluster W)
          → All P (get_daemon_set_builders d reads agent open_shift flag c).0
      unfolding get_daemon_set_builders
      All-get_daemon_set_builders flag c = All-for_zones flag agent.spec.zones c

  module _ {W : Type 0} (d : DependentLifecycleManager W) (reads : TypedReads W) where
    made-Mem :
        (collected : List (Zone × Bool) × ReconcileReturn × Cluster W)
        → (builders_made d reads agent open_shift collected).1 ≡ none
        → (collected.1 ≡ none)
          × ((builders_made d reads agent open_shift collected).0
              ≡ builders_of agent open_shift collected.0)
    unfolding builders_made
    made-Mem (settings, some r, c) h = ground (arith, h)
    made-Mem (settings, none, c) h = (refl, refl)

    Mem-for_zones :
        (flag : Bool) (zones : List Zone) (c : Cluster W) (z : Zone)
        → (builders_for_zones d reads agent open_shift flag zones c).1 ≡ none
        → Memᴰ z zones
        → (f : Bool) × Memᴰ
            (daemon_set_builder agent open_shift (some z) f)
            (builders_for_zones d reads agent open_shift flag zones c).0
    unfolding builders_for_zones
    Mem-for_zones flag [] c z h mem = elim mem [ ]
    Mem-for_zones flag (y ∷ zones) c z h mem =
        let collected = zone_settings d reads agent (y ∷ zones) c in
        let (continues, same) = made-Mem collected h in
        let (f, m) =
          Mem-builders_of collected.0 z
            (subst (Memᴰ z) (sym (settings-zones d reads agent (y ∷ zones) c continues)) mem) in
        (f, subst (Memᴰ (daemon_set_builder agent open_shift (some z) f)) (sym same) m)

    pub Mem-get_daemon_set_builders :
        (flag : Bool) (c : Cluster W) (zone : Option Zone)
        → (get_daemon_set_builders d reads agent open_shift flag c).1 ≡ none
        → IsZoneOf agent zone
        → (f : Bool) × Memᴰ
            (daemon_set_builder agent open_shift zone f)
            (get_daemon_set_builders d reads agent open_shift flag c).0
    unfolding get_daemon_set_builders builders_for_zones
    Mem-get_daemon_set_builders flag c none h is_zone = (flag, rw is_zone (Memᴰ.head refl))
    Mem-get_daemon_set_builders flag c (some z) h is_zone =
        Mem-for_zones flag agent.spec.zones c z h is_zone

name-ds_name :
    (agent : InstanaAgent) (open_shift : Bool) (zone : Option Zone) (f : Bool)
    → daemon_set_name (daemon_set_builder agent open_shift zone f) ≡ ds_name agent zone
name-ds_name agent open_shift none f = refl
name-ds_name agent open_shift (some z) f = refl

pub built_daemon_set :
    (a : InstanaAgent) (open_shift : Bool) (zone : Option Zone) (f : Bool)
    → gives_no_daemon_set (daemon_set_builder (default a) open_shift zone f) ≡ false
    → (ds : DaemonSet) × ((build_daemon_set (daemon_set_builder (default a) open_shift zone f)).0
        ≡ some (some ds))
      × (ds.name ≡ ds_name (default a) zone)
      × (ds.namespace ≡ (default a).namespace)
unfolding daemon_set_with
built_daemon_set a open_shift zone f gives =
    let (envs, ports, same) = build_daemon_set-gives a f open_shift zone gives in
    (
      daemon_set_with (daemon_set_builder (default a) open_shift zone f) envs ports,
      same,
      name-ds_name (default a) open_shift zone f,
      refl,
    )

-- labels and owners leave the identity of an object alone
pub transformed-identity :
    {W : Type 0} (d : DependentLifecycleManager W) (b : ObjectBuilder) (o : Object)
    → ((transformed d b o).gvk ≡ o.gvk)
      × ((transformed d b o).name ≡ o.name)
      × ((transformed d b o).namespace ≡ o.namespace)
unfolding add_common_labels add_owner_reference
transformed-identity d b o = (refl, refl, refl)
