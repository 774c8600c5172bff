-- ===== src/Builders/Sensor/Targets.antt =====
-- Where the variable with the targets of etcd comes from in the k8s sensor's environment.
use instana_agent_operator.Prelude.{
  String, ◌≡◌, refl, sym, ◌∙◌, inl, inr, false, Bool-cases, Option-cases, some-injective, none,
  some, List, [], ◌∷◌, ◌++◌, Memᴰ, Mem-append_right, Mem-append_cases, All, arith, if◌then◌else◌,
  ◌==◌, string_comparable,
}
use mathlib.Core.Path.{subst}
use instana_agent_operator.Prelude.Dict.{lookup}
use instana_agent_operator.Prelude.Text.{◌<>◌, join}
use instana_agent_operator.Prelude.Sort.{Mem-sort_by_iff}
use instana_agent_operator.Agent.{InstanaAgent}
use instana_agent_operator.Builders.{CoreEnvVar}
use instana_agent_operator.Builders.EtcdNames.{
  env_etcd_targets, env_etcd_ca_file, etcd_ca_mount_path,
}
use instana_agent_operator.Builders.Helpers.{is_set}
use instana_agent_operator.Builders.Env.{build_env, build_env_var, value_of, use_secret_mounts}
use instana_agent_operator.Builders.Env.Vars.{
  EnvVar, skipped, plain_env_var, etcd_targets_env, https_proxy_env,
}
use instana_agent_operator.Builders.Env.Names.{Avoids, name_of}
use instana_agent_operator.Builders.Env.Lacks.{Lacks, Lacks-Mem, differ, build_env-Lacks}
use instana_agent_operator.Builders.Sensor.{
  DeploymentBuilder, DeploymentContext, get_env_vars, backend_env_vars, backend_env_var,
  get_agent_key_env_var, etcd_env_vars, env_vars_to_include, include_etcd_ca_file_env,
  discovered_env_vars,
}
use instana_agent_operator.Builders.Sensor.Env.{get_env_vars-parts}

-- the resource names no targets, neither in its section on etcd nor in the agent's environment
abbrev pub NamesNoTargets : InstanaAgent → Type 0
NamesNoTargets a =
    (a.spec.k8s_sensor.etcd.targets ≡ []) × (lookup env_etcd_targets a.spec.agent.env ≡ none)

skipped-targets :
    (a : InstanaAgent)
    → a.spec.k8s_sensor.etcd.targets ≡ []
    → build_env_var a none etcd_targets_env ≡ skipped
unfolding build_env_var value_of
skipped-targets a h = ground (arith, h)

other :
    (a : InstanaAgent) (v : EnvVar)
    → (name_of v == env_etcd_targets) ≡ false
    → Avoids a none env_etcd_targets v
other a v h = inl (differ (name_of v) env_etcd_targets h)

included-Avoids :
    (d : DeploymentBuilder)
    → d.instana_agent.spec.k8s_sensor.etcd.targets ≡ []
    → All (Avoids d.instana_agent none env_etcd_targets) (env_vars_to_include d)
included-Avoids d h = elim (Bool-cases (include_etcd_ca_file_env d)) [
  | inl e ↦ rw e (
    other _ _ refl,
    (
      other _ _ refl,
      (
        other _ _ refl,
        (
          other _ _ refl,
          (
            other _ _ refl,
            (
              other _ _ refl,
              (
                other _ _ refl,
                (
                  other _ _ refl,
                  (
                    other _ _ refl,
                    (
                      other _ _ refl,
                      (
                        inr (skipped-targets d.instana_agent h),
                        (other _ _ refl, (other _ _ refl, (other _ _ refl, (other _ _ refl, tt)))),
                      ),
                    ),
                  ),
                ),
              ),
            ),
          ),
        ),
      ),
    ),
  )
  | inr e ↦ rw e (
    other _ _ refl,
    (
      other _ _ refl,
      (
        other _ _ refl,
        (
          other _ _ refl,
          (
            other _ _ refl,
            (
              other _ _ refl,
              (
                other _ _ refl,
                (
                  other _ _ refl,
                  (
                    other _ _ refl,
                    (
                      other _ _ refl,
                      (
                        inr (skipped-targets d.instana_agent h),
                        (other _ _ refl, (other _ _ refl, (other _ _ refl, tt))),
                      ),
                    ),
                  ),
                ),
              ),
            ),
          ),
        ),
      ),
    ),
  )
]

backend-Lacks :
    (d : DeploymentBuilder) (es : List CoreEnvVar)
    → lookup env_etcd_targets d.instana_agent.spec.agent.env ≡ none
    → backend_env_vars d ≡ some es
    → Lacks env_etcd_targets es
unfolding backend_env_vars
backend-Lacks d es free h = elim (Bool-cases (use_secret_mounts d.instana_agent)) [
  | inl m ↦
      subst (λ l. Lacks env_etcd_targets l) {x = backend_env_var d ∷ []} (ground (arith, h, m))
        (differ "BACKEND" env_etcd_targets refl, tt)
  | inr m ↦ elim (Option-cases (build_env d.instana_agent none (https_proxy_env ∷ []))) [
    | inl e ↦ ground (arith, h, m, e)
    | inr (proxy, e) ↦
        subst (λ l. Lacks env_etcd_targets l)
          {x = backend_env_var d ∷ get_agent_key_env_var d ∷ proxy} (ground (arith, h, m, e))
          (
            differ "BACKEND" env_etcd_targets refl,
            (
              differ "AGENT_KEY" env_etcd_targets refl,
              build_env-Lacks d.instana_agent none env_etcd_targets (https_proxy_env ∷ []) proxy
                  free (inl (differ "HTTPS_PROXY" env_etcd_targets refl), tt) e,
            ),
          )
  ]
]

-- Whatever variable has the name is one of those for etcd.
pub named-targets :
    (d : DeploymentBuilder) (es : List CoreEnvVar) (e : CoreEnvVar)
    → NamesNoTargets d.instana_agent
    → get_env_vars d ≡ some es
    → Memᴰ e es
    → e.name ≡ env_etcd_targets
    → Memᴰ e (etcd_env_vars d)
named-targets d es e (own, free) h mem named =
    let (backend, common, b, c, all_parts) = get_env_vars-parts d in
    let unsorted = backend ++ common ++ etcd_env_vars d in
    let m =
      (Mem-sort_by_iff (λ (x : CoreEnvVar). x.name) e unsorted).0
        (subst (λ l. Memᴰ e l) (some-injective (sym h ∙ all_parts)) mem) in
    elim (Mem-append_cases (backend ++ common) (etcd_env_vars d) m) [
      | inr found ↦ found
      | inl l ↦ elim (Mem-append_cases backend common l) [
        | inl x ↦
            elim (Lacks-Mem env_etcd_targets backend e (backend-Lacks d backend free b) x named) [ ]
        | inr y ↦
            elim (Lacks-Mem env_etcd_targets common e
              (build_env-Lacks d.instana_agent none env_etcd_targets (env_vars_to_include d) common
                free (included-Avoids d own) c)
              y named) [ ]
      ]
    ]

pub etcd-Mem :
    (d : DeploymentBuilder) (es : List CoreEnvVar) (e : CoreEnvVar)
    → get_env_vars d ≡ some es
    → Memᴰ e (etcd_env_vars d)
    → Memᴰ e es
etcd-Mem d es e h mem =
    let (backend, common, b, c, all_parts) = get_env_vars-parts d in
    let unsorted = backend ++ common ++ etcd_env_vars d in
    subst (λ l. Memᴰ e l) (some-injective (sym all_parts ∙ h))
      ((Mem-sort_by_iff (λ (x : CoreEnvVar). x.name) e unsorted).1
        (Mem-append_right (backend ++ common) _ mem))

-- the variables for the targets that a context has
pub discovered-parts :
    (context : DeploymentContext) (t : String) (ts : List String)
    → context.discovered_etcd_targets ≡ t ∷ ts
    → discovered_env_vars [] (some context)
      ≡ plain_env_var env_etcd_targets (join (t ∷ ts) ",")
        ∷ (if is_set context.etcd_ca_secret_name
            then plain_env_var env_etcd_ca_file (etcd_ca_mount_path <> "/ca.crt") ∷ []
            else [])
unfolding discovered_env_vars
discovered-parts context t ts h = rw h refl
