-- ===== src/Etcd/Forgets.antt =====
-- Two reconciliations of an agent on a cluster that is not OpenShift.
use instana_agent_operator.Prelude.{
  String, ◌≡◌, ◌≢◌, refl, sym, ap, ◌∙◌, Bool, true, false, Bool-cases, inl, inr, Option, none, some,
  List, [], ◌∷◌, All-of_Mem, Memᴰ, Mem-cons_cases, arith, eq_iff, ◌==◌, string_comparable,
  if◌then◌else◌,
}
use mathlib.Core.Path.{subst}
use instana_agent_operator.Prelude.Text.{join, ◌<>◌}
use instana_agent_operator.Prelude.Split.{split, comma, IsFree, split-join}
use instana_agent_operator.Prelude.Sort.{sort_by-cons, sort_by_idem}
use instana_agent_operator.Kube.Api.{Cluster}
use instana_agent_operator.Lifecycle.{DependentLifecycleManager}
use instana_agent_operator.Agent.{InstanaAgent}
use instana_agent_operator.Builders.{CoreEnvVar}
use instana_agent_operator.Builders.EtcdNames.{
  env_etcd_targets, env_etcd_ca_file, container_k8_sensor, etcd_ca_mount_path,
}
use instana_agent_operator.Builders.Helpers.{is_set, k8s_sensor_resources_name}
use instana_agent_operator.Builders.Env.Vars.{plain_env_var}
use instana_agent_operator.Builders.Workloads.{Container}
use instana_agent_operator.Builders.Sensor.{
  DeploymentBuilder, DeploymentContext, discovered_env_vars, etcd_env_vars, get_env_vars,
}
use instana_agent_operator.Builders.Env.Lacks.{Lacks}
use instana_agent_operator.Builders.Sensor.Targets.{
  NamesNoTargets, named-targets, etcd-Mem, discovered-parts,
}
use instana_agent_operator.Etcd.Discovery.{
  TypedReads, DiscoveredEtcdTargets, Discovered, sort_strings,
}
use instana_agent_operator.Etcd.Context.{
  targets_in, current_targets, vanilla_context, deployment_gvk, context_for_targets,
  context_of_discovered, create_deployment_context, compare_and_update_etcd_targets,
}
use instana_agent_operator.Etcd.Compared.{compare-sorted_iff, sort_strings-IsFree}

-- The value of the variable with the targets, if all variables of its name have this value.
targets_in_unique :
    (value : String) (es : List CoreEnvVar) (e : CoreEnvVar)
    → Memᴰ e es
    → e.name ≡ env_etcd_targets
    → ((f : CoreEnvVar) → Memᴰ f es → f.name ≡ env_etcd_targets → f.value ≡ value)
    → targets_in es ≡ value
unfolding targets_in
targets_in_unique value [] e mem named h = elim mem [ ]
targets_in_unique value (f ∷ fs) e mem named h = elim (Bool-cases (f.name == env_etcd_targets)) [
  | inl same ↦ ground (arith, same, h f (Memᴰ.head refl) ((eq_iff f.name env_etcd_targets).0 same))
  | inr differs ↦ elim (Mem-cons_cases mem) [
    | inl p ↦
        ground
          (arith, differs, named, ap (λ (x : CoreEnvVar). x.name) p, eq_iff f.name env_etcd_targets)
    | inr later ↦
        ground (arith, differs, targets_in_unique value fs e later named (λ g m. h g (Memᴰ.tail m)))
  ]
]

-- the variables for discovered targets
discovered-Mem :
    (context : DeploymentContext) (t : String) (ts : List String)
    → context.discovered_etcd_targets ≡ t ∷ ts
    → Memᴰ
        (plain_env_var env_etcd_targets (join (t ∷ ts) ","))
        (discovered_env_vars [] (some context))
discovered-Mem context t ts h = rw (discovered-parts context t ts h) (Memᴰ.head refl)

optional-named :
    (b : Bool) (value : String) (e f : CoreEnvVar)
    → e.value ≡ value
    → f.name ≢ env_etcd_targets
    → (g : CoreEnvVar) → Memᴰ g (e ∷ (if b then f ∷ [] else []))
    → g.name ≡ env_etcd_targets
    → g.value ≡ value
optional-named b value e f same other g (Memᴰ.head p) named =
    ap (λ (x : CoreEnvVar). x.value) p ∙ same
optional-named true value e f same other g (Memᴰ.tail (Memᴰ.head p)) named =
    elim (other (ap (λ (x : CoreEnvVar). x.name) (sym p) ∙ named)) [ ]
optional-named true value e f same other g (Memᴰ.tail (Memᴰ.tail m)) named = elim m [ ]
optional-named false value e f same other g (Memᴰ.tail m) named = elim m [ ]

discovered-value :
    (context : DeploymentContext) (t : String) (ts : List String) (e : CoreEnvVar)
    → context.discovered_etcd_targets ≡ t ∷ ts
    → Memᴰ e (discovered_env_vars [] (some context))
    → e.name ≡ env_etcd_targets
    → e.value ≡ join (t ∷ ts) ","
discovered-value context t ts e h mem named =
    optional-named (is_set context.etcd_ca_secret_name) (join (t ∷ ts) ",")
      (plain_env_var env_etcd_targets (join (t ∷ ts) ","))
      (plain_env_var env_etcd_ca_file (etcd_ca_mount_path <> "/ca.crt")) refl
      (λ p. ground (arith, p, eq_iff env_etcd_ca_file env_etcd_targets)) e
      (subst (λ l. Memᴰ e l) (discovered-parts context t ts h) mem) named

-- a builder for a cluster that is not OpenShift, with the given context
abbrev pub in_context : Option DeploymentContext → DeploymentBuilder → DeploymentBuilder
in_context context b = record b { deployment_context = context; is_open_shift = false }

vanilla_env_vars :
    (context : Option DeploymentContext) (b : DeploymentBuilder)
    → b.instana_agent.spec.k8s_sensor.etcd.targets ≡ []
    → etcd_env_vars (in_context context b) ≡ discovered_env_vars [] context
unfolding etcd_env_vars
vanilla_env_vars context b own = ap (λ l. discovered_env_vars l context) own

module _ {W : Type 0} (d : DependentLifecycleManager W) (reads : TypedReads W) where
  context_for-up_to_date :
      (agent : InstanaAgent) (t : DiscoveredEtcdTargets) (c : Cluster W)
      → (d.client.get deployment_gvk
          (record { namespace = agent.namespace; name = k8s_sensor_resources_name agent })
          c).0
        ≡ none
      → compare_and_update_etcd_targets
          (reads.containers_of
            (d.client.get deployment_gvk
              (record { namespace = agent.namespace; name = k8s_sensor_resources_name agent })
              c).1)
          t.targets
        ≡ false
      → (context_for_targets d reads agent t c).0 ≡ none
  unfolding context_for_targets
  context_for-up_to_date agent t c read same = ground (arith, read, same)

  context_of-some :
      (agent : InstanaAgent) (t : String) (ts : List String) (ca_found : Bool) (c : Cluster W)
      → context_of_discovered d reads agent
          (none, some (record { targets = t ∷ ts; ca_found = ca_found }), c)
        ≡ context_for_targets d reads agent (record { targets = t ∷ ts; ca_found = ca_found }) c
  unfolding context_of_discovered
  context_of-some agent t ts ca_found c = refl

  create-vanilla :
      (agent : InstanaAgent) (discover : Cluster W → Discovered d reads) (c : Cluster W)
      → create_deployment_context d reads agent false discover c
        ≡ context_of_discovered d reads agent (discover c)
  unfolding create_deployment_context
  create-vanilla agent discover c = refl

-- the environment for the targets has them, and nothing else has their name
env-targets :
    (b : DeploymentBuilder) (context : DeploymentContext) (t : String) (ts : List String)
    (es : List CoreEnvVar)
    → NamesNoTargets b.instana_agent
    → context.discovered_etcd_targets ≡ t ∷ ts
    → get_env_vars (in_context (some context) b) ≡ some es
    → Memᴰ (plain_env_var env_etcd_targets (join (t ∷ ts) ",")) es
      × (targets_in es ≡ join (t ∷ ts) ",")
env-targets b context t ts es names h made =
    let in_b = in_context (some context) b in
    let mem =
      etcd-Mem in_b es (plain_env_var env_etcd_targets (join (t ∷ ts) ",")) made
        (rw (vanilla_env_vars (some context) b names.0) (discovered-Mem context t ts h)) in
    (
      mem,
      targets_in_unique (join (t ∷ ts) ",") es _ mem refl (λ f m named.
          discovered-value context t ts f h
            (subst (λ l. Memᴰ f l) (vanilla_env_vars (some context) b names.0)
              (named-targets in_b es f names made m named))
            named),
    )

Lacks-targets :
    (b : DeploymentBuilder) (es : List CoreEnvVar)
    → NamesNoTargets b.instana_agent
    → get_env_vars (in_context none b) ≡ some es
    → Lacks env_etcd_targets es
unfolding discovered_env_vars
Lacks-targets b es names made = All-of_Mem _ es (λ e mem named.
    let left =
      subst (λ l. Memᴰ e l) (vanilla_env_vars none b names.0)
        (named-targets (in_context none b) es e names made mem named) in
    elim left [ ])

current-sole :
    (container : Container)
    → container.name ≡ container_k8_sensor
    → current_targets (container ∷ []) ≡ targets_in container.env
unfolding current_targets
current-sole container h = ground (arith, h, eq_iff container.name container_k8_sensor)

-- Let targets of etcd be discovered that have no commas in them, for a resource that names none,
-- and let the Deployment that is read be the one that was built for them. Then the environment of
-- that Deployment has the targets, the next context is nil though the same targets are discovered,
-- and the environment that is built in it has no variable for targets.
pub create_deployment_context-forgets :
    {W : Type 0} (d : DependentLifecycleManager W) (reads : TypedReads W) (b : DeploymentBuilder)
    (discover : Cluster W → Discovered d reads) (c c' : Cluster W) (u : String) (us : List String)
    (ca_found : Bool) (es : List CoreEnvVar) (container : Container)
    → let agent = b.instana_agent in
      let found : DiscoveredEtcdTargets = record { targets = u ∷ us; ca_found = ca_found } in
      let read =
        d.client.get deployment_gvk
          (record { namespace = agent.namespace; name = k8s_sensor_resources_name agent })
          c' in
      let (next, _) = create_deployment_context d reads agent false discover c in
      NamesNoTargets agent
      → IsFree comma (u ∷ us)
      → get_env_vars (in_context (some (vanilla_context found)) b) ≡ some es
      → discover c ≡ (none, some found, c')
      → read.0 ≡ none
      → reads.containers_of read.1 ≡ container ∷ []
      → container.name ≡ container_k8_sensor
      → container.env ≡ es
      → Memᴰ (plain_env_var env_etcd_targets (join (sort_strings (u ∷ us)) ",")) es
        × (next ≡ none)
        × ((later : List CoreEnvVar)
            → get_env_vars (in_context next b) ≡ some later
            → Lacks env_etcd_targets later)
create_deployment_context-forgets d reads b discover c c' u us ca_found es container names free made
      found read sole named env =
    let t : DiscoveredEtcdTargets = record { targets = u ∷ us; ca_found = ca_found } in
    let agent = b.instana_agent in
    let (s, ss, sorted) = sort_by-cons (λ (x : String). x) u us in
    let (mem, value) = env-targets b (vanilla_context t) s ss es names sorted made in
    let now = ap current_targets sole ∙ current-sole container named ∙ ap targets_in env ∙ value in
    let free' = subst (λ l. IsFree comma l) sorted (sort_strings-IsFree (u ∷ us) free) in
    let same =
      (compare-sorted_iff _ s u ss us free' free now).1
        (ap sort_strings (sym sorted) ∙ sort_by_idem (λ (x : String). x) (u ∷ us)) in
    let next =
      ap (λ (x : Option DeploymentContext × Cluster _). x.0)
        (create-vanilla d reads agent discover c
          ∙ ap (context_of_discovered d reads agent) found
          ∙ context_of-some d reads agent u us ca_found c')
      ∙ context_for-up_to_date d reads agent t c' read same in
    (
      subst (λ l. Memᴰ (plain_env_var env_etcd_targets (join l ",")) es) (sym sorted) mem,
      next,
      λ later made'.
          Lacks-targets b later names (sym (ap (λ x. get_env_vars (in_context x b)) next) ∙ made'),
    )

-- Targets without commas that a context brings into the environment, for a resource that names none,
-- are what splitting the variable's value at the commas gives back.
pub targets_in-split :
    (b : DeploymentBuilder) (context : DeploymentContext) (t : String) (ts : List String)
    (es : List CoreEnvVar)
    → NamesNoTargets b.instana_agent
    → context.discovered_etcd_targets ≡ t ∷ ts
    → IsFree comma (t ∷ ts)
    → get_env_vars (in_context (some context) b) ≡ some es
    → split (targets_in es) comma ≡ context.discovered_etcd_targets
targets_in-split b context t ts es names h free made =
    ap (λ s. split s comma) (env-targets b context t ts es names h made).1
    ∙ split-join comma t ts free
    ∙ sym h
