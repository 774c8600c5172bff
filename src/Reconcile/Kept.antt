-- ===== src/Reconcile/Kept.antt =====
-- That the choice made for a DaemonSet at its first deployment is kept, and that there is a builder
-- for each zone.
use instana_agent_operator.Prelude.{
  String, ◌≡◌, refl, sym, ap, ◌∙◌, Bool, true, false, Bool-cases, inl, inr, Option, Option-cases,
  none, some, List, [], ◌∷◌, map, Memᴰ, Mem-cons_cases, arith, eq_iff, ◌==◌, string_comparable,
}
use mathlib.Core.Path.{subst}
use instana_agent_operator.Prelude.Dict.{lookup}
use instana_agent_operator.Kube.Api.{Cluster}
use instana_agent_operator.Lifecycle.{DependentLifecycleManager}
use instana_agent_operator.Agent.{InstanaAgent, Zone}
use instana_agent_operator.Builders.{CoreEnvVar}
use instana_agent_operator.Builders.Workloads.{Container}
use instana_agent_operator.Builders.Env.{build_env}
use instana_agent_operator.Builders.Env.Vars.{plain_env_var}
use instana_agent_operator.Builders.Env.Total.{build_env-some, all-NotOpenTelemetry}
use instana_agent_operator.Builders.Env.Lacks.{Lacks, build_env-Lacks, Avoids-all}
use instana_agent_operator.Builders.DaemonSets.{
  DaemonSetBuilder, persist_name, base_env_vars, agent_env_vars,
}
use instana_agent_operator.Builders.DaemonSets.Environment.{
  effective, last_named, Mem-agent_env_vars_iff,
}
use instana_agent_operator.Etcd.Discovery.{TypedReads}
use instana_agent_operator.Reconcile.{ReconcileReturn, reconcile_continue}
use instana_agent_operator.Reconcile.Persist.{
  daemon_set_gvk, ds_name, names_persist, persist_in, should_set_persist_host_unique_id_env_var,
  daemon_set_builder, builders_of, builders_made, builders_for_zones, zone_settings,
  get_daemon_set_builders,
}

names-Mem :
    (envs : List CoreEnvVar)
    → names_persist envs ≡ true
    → (e : CoreEnvVar) × Memᴰ e envs × (e.name ≡ persist_name)
names-Mem [] h = ground (arith, h)
names-Mem (e ∷ es) h = elim (Bool-cases (e.name == persist_name)) [
  | inl same ↦ (e, Memᴰ.head refl, (eq_iff e.name persist_name).0 same)
  | inr differs ↦
      let (f, m, named) = names-Mem es (ground (arith, h, differs)) in (f, Memᴰ.tail m, named)
]

Mem-names :
    (envs : List CoreEnvVar) (e : CoreEnvVar)
    → Memᴰ e envs
    → e.name ≡ persist_name
    → names_persist envs ≡ true
Mem-names [] e mem named = elim mem [ ]
Mem-names (f ∷ fs) e mem named = elim (Mem-cons_cases mem) [
  | inl p ↦ ground (arith, ap (λ (x : CoreEnvVar). x.name) p, named, eq_iff f.name persist_name)
  | inr m ↦ ground (arith, Mem-names fs e m named)
]

last_named-Lacks :
    (name : String) (es : List CoreEnvVar) → Lacks name es → last_named name es ≡ none
unfolding last_named
last_named-Lacks name [] h = refl
last_named-Lacks name (e ∷ es) (other, h) = elim (Bool-cases (e.name == name)) [
  | inl same ↦ elim (other ((eq_iff e.name name).0 same)) [ ]
  | inr differs ↦ ground (arith, differs, last_named-Lacks name es h)
]

-- The user sets the variable neither in agent.env nor in pod.env.
abbrev pub LeavesPersist : InstanaAgent → Type 0
LeavesPersist a =
    (lookup persist_name a.spec.agent.env ≡ none)
    × (last_named persist_name a.spec.agent.pod.env ≡ none)

effective-set :
    (d : DaemonSetBuilder) (base : List CoreEnvVar)
    → LeavesPersist d.instana_agent
    → d.should_set_persist_host_unique_id_env_var ≡ true
    → effective d base persist_name ≡ some (plain_env_var persist_name "true")
unfolding last_named
effective-set d base (_, user) h = rw (user, h) refl

effective-unset :
    (d : DaemonSetBuilder) (base : List CoreEnvVar)
    → LeavesPersist d.instana_agent
    → build_env d.instana_agent d.zone base_env_vars ≡ some base
    → d.should_set_persist_host_unique_id_env_var ≡ false
    → effective d base persist_name ≡ none
unfolding last_named
effective-unset d base (free, user) made h =
    rw (user, h)
      (last_named-Lacks persist_name base (
        build_env-Lacks d.instana_agent d.zone persist_name base_env_vars base free
          (Avoids-all d.instana_agent d.zone persist_name base_env_vars refl) made))

names-agent_env_vars :
    (d : DaemonSetBuilder) (base envs : List CoreEnvVar)
    → LeavesPersist d.instana_agent
    → build_env d.instana_agent d.zone base_env_vars ≡ some base
    → agent_env_vars d ≡ some envs
    → names_persist envs ≡ d.should_set_persist_host_unique_id_env_var
names-agent_env_vars d base envs leaves made h =
    elim (Bool-cases d.should_set_persist_host_unique_id_env_var) [
      | inl on ↦
          Mem-names envs (plain_env_var persist_name "true")
            ((Mem-agent_env_vars_iff d base envs (plain_env_var persist_name "true") made h).1
              (effective-set d base leaves on))
            refl
          ∙ sym on
      | inr off ↦ elim (Bool-cases (names_persist envs)) [
        | inr lacks ↦ lacks ∙ sym off
        | inl has ↦
            let (e, mem, named) = names-Mem envs has in
            let some_e = (Mem-agent_env_vars_iff d base envs e made h).0 mem in
            ground (
              arith,
              sym some_e ∙ ap (effective d base) named ∙ effective-unset d base leaves made off,
            )
      ]
    ]

module _ {W : Type 0} (d : DependentLifecycleManager W) (reads : TypedReads W) where
  persist-sole :
      (container : Container)
      → container.name ≡ "instana-agent"
      → persist_in (container ∷ []) ≡ some (names_persist container.env)
  unfolding persist_in
  persist-sole container h = ground (arith, h, eq_iff container.name "instana-agent")

  should_set-found :
      (agent : InstanaAgent) (zone : Option Zone) (c : Cluster W) (flag : Bool)
      → let read =
          d.client.get daemon_set_gvk
            (record { namespace = agent.namespace; name = ds_name agent zone })
            c in
        read.0 ≡ none
        → persist_in (reads.containers_of read.1) ≡ some flag
        → should_set_persist_host_unique_id_env_var d reads agent zone c
          ≡ (flag, reconcile_continue, read.2)
  unfolding should_set_persist_host_unique_id_env_var
  should_set-found agent z c flag read found = ground (arith, read, found)

  -- If the user does not set the variable for the identity of the host, and the DaemonSet that is
  -- read has the container that was built with some choice about the variable, the same choice is
  -- made again, and the reconciliation continues.
  pub should_set-kept :
      (agent : InstanaAgent) (zone : Option Zone) (open_shift flag : Bool) (envs : List CoreEnvVar)
      (container : Container) (c : Cluster W)
      → let read =
          d.client.get daemon_set_gvk
            (record { namespace = agent.namespace; name = ds_name agent zone })
            c in
        LeavesPersist agent
        → agent_env_vars (daemon_set_builder agent open_shift zone flag) ≡ some envs
        → read.0 ≡ none
        → reads.containers_of read.1 ≡ container ∷ []
        → container.name ≡ "instana-agent"
        → container.env ≡ envs
        → should_set_persist_host_unique_id_env_var d reads agent zone c
          ≡ (flag, reconcile_continue, read.2)
  should_set-kept agent zone open_shift flag envs container c leaves made read sole named env =
      let builder = daemon_set_builder agent open_shift zone flag in
      let (base, some_base) =
        build_env-some agent zone base_env_vars (all-NotOpenTelemetry base_env_vars refl) in
      should_set-found agent zone c flag read (
        ap persist_in sole
        ∙ persist-sole container named
        ∙ ap (λ l. some (names_persist l)) env
        ∙ ap some (names-agent_env_vars builder base envs leaves some_base made))

  pub settings-zones :
      (agent : InstanaAgent) (zones : List Zone) (c : Cluster W)
      → (zone_settings d reads agent zones c).1 ≡ none
      → map (λ (s : Zone × Bool). s.0) (zone_settings d reads agent zones c).0 ≡ zones
  unfolding zone_settings
  settings-zones agent [] c h = refl
  settings-zones agent (zone ∷ zones) c h =
      let c' = (should_set_persist_host_unique_id_env_var d reads agent (some zone) c).2 in
      elim (Option-cases
        (should_set_persist_host_unique_id_env_var d reads agent (some zone) c).1) [
          | inr (r, e) ↦ ground (arith, h, e)
          | inl e ↦ elim (Option-cases (zone_settings d reads agent zones c').1) [
            | inr (r, e') ↦ ground (arith, h, e, e')
            | inl e' ↦ ground (arith, e, e', settings-zones agent zones c' e')
          ]
        ]

builders-zones :
    (agent : InstanaAgent) (open_shift : Bool) (settings : List (Zone × Bool))
    → map (λ (b : DaemonSetBuilder). b.zone) (builders_of agent open_shift settings)
      ≡ map some (map (λ (s : Zone × Bool). s.0) settings)
builders-zones agent open_shift [] = refl
builders-zones agent open_shift ((zone, flag) ∷ settings) =
    ap (λ l. some zone ∷ l) (builders-zones agent open_shift settings)

module _ {W : Type 0} (d : DependentLifecycleManager W) (reads : TypedReads W) where
  made-zones :
      (agent : InstanaAgent) (open_shift : Bool)
      (collected : List (Zone × Bool) × ReconcileReturn × Cluster W)
      → (builders_made d reads agent open_shift collected).1 ≡ none
      → (collected.1 ≡ none)
        × (map
              (λ (b : DaemonSetBuilder). b.zone)
              (builders_made d reads agent open_shift collected).0
            ≡ map some (map (λ (s : Zone × Bool). s.0) collected.0))
  unfolding builders_made
  made-zones agent open_shift (settings, some r, c) h = ground (arith, h)
  made-zones agent open_shift (settings, none, c) h =
      (refl, builders-zones agent open_shift settings)

  zones-builders :
      (agent : InstanaAgent) (open_shift flag : Bool) (c : Cluster W) (first : Zone)
      (others : List Zone)
      → (builders_for_zones d reads agent open_shift flag (first ∷ others) c).1 ≡ none
      → map
          (λ (b : DaemonSetBuilder). b.zone)
          (builders_for_zones d reads agent open_shift flag (first ∷ others) c).0
        ≡ map some (first ∷ others)
  unfolding builders_for_zones
  zones-builders agent open_shift flag c first others continues =
      let (collected, same) =
        made-zones agent open_shift (zone_settings d reads agent (first ∷ others) c) continues in
      same ∙ ap (map some) (settings-zones d reads agent (first ∷ others) c collected)

  -- If a resource has zones and the checks of its DaemonSets do not end the reconciliation, there is
  -- one builder for each zone, in order.
  pub get_daemon_set_builders-zones :
      (agent : InstanaAgent) (open_shift flag : Bool) (c : Cluster W) (first : Zone)
      (others : List Zone)
      → agent.spec.zones ≡ first ∷ others
      → (get_daemon_set_builders d reads agent open_shift flag c).1 ≡ none
      → map
          (λ (b : DaemonSetBuilder). b.zone)
          (get_daemon_set_builders d reads agent open_shift flag c).0
        ≡ map some (first ∷ others)
  unfolding get_daemon_set_builders
  get_daemon_set_builders-zones agent open_shift flag c first others h continues =
      subst
        (λ zs.
          map (λ (b : DaemonSetBuilder). b.zone)
            (builders_for_zones d reads agent open_shift flag zs c).0
          ≡ map some (first ∷ others))
        (sym h)
        (zones-builders agent open_shift flag c first others (
          subst (λ zs. (builders_for_zones d reads agent open_shift flag zs c).1 ≡ none) h
            continues))
