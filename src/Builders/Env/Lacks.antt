-- ===== src/Builders/Env/Lacks.antt =====
-- Which names the environment of a container lacks.
use instana_agent_operator.Prelude.{
  String, ◌≡◌, ◌≢◌, sym, ap, ◌∙◌, inl, inr, true, false, not, Bool-cases, Option, Option-cases,
  none, some, List, [], ◌∷◌, ◌++◌, Memᴰ, Mem-append_right, Mem-cons_cases, All, all, All-append,
  arith, ◌==◌, string_comparable, eq_iff,
}
use mathlib.Core.Path.{subst}
use instana_agent_operator.Prelude.Dict.{Dict, lookup}
use instana_agent_operator.Agent.{InstanaAgent, Zone}
use instana_agent_operator.Builders.{CoreEnvVar}
use instana_agent_operator.Builders.Env.{
  build_env, built_env_vars, build_env_var, user_provided_envs,
}
use instana_agent_operator.Builders.Env.Vars.{EnvVar, built}
use instana_agent_operator.Builders.Env.Names.{
  Avoids, name_of, built_env_vars-Avoids, built_env_vars-Mem,
}

-- No variable of the list has the name.
abbrev pub Lacks : String → List CoreEnvVar → Type 0
Lacks name es = All (λ (e : CoreEnvVar). e.name ≢ name) es

pub differ : (s t : String) → (s == t) ≡ false → s ≢ t
differ s t h p = ground (arith, eq_iff s t, p, h)

pub Lacks-Mem :
    (name : String) (es : List CoreEnvVar) (e : CoreEnvVar)
    → Lacks name es
    → Memᴰ e es
    → e.name ≢ name
Lacks-Mem name [] e h mem = elim mem [ ]
Lacks-Mem name (x ∷ es) e (first, h) mem = elim (Mem-cons_cases mem) [
  | inl p ↦ λ q. first (ap (λ (y : CoreEnvVar). y.name) (sym p) ∙ q)
  | inr m ↦ Lacks-Mem name es e h m
]

pub user-Lacks :
    (name : String) (env : Dict String)
    → lookup name env ≡ none
    → Lacks name (user_provided_envs env)
unfolding lookup user_provided_envs
user-Lacks name [] h = tt
user-Lacks name ((key, value) ∷ env) h = elim (Bool-cases (key == name)) [
  | inl e ↦ ground (arith, h, e)
  | inr e ↦ (differ key name e, user-Lacks name env (ground (arith, h, e)))
]

-- what `Build` returns begins with the user's variables
build_env-parts :
    (a : InstanaAgent) (z : Option Zone) (vs : List EnvVar) (es : List CoreEnvVar)
    → build_env a z vs ≡ some es
    → (fs : List CoreEnvVar) × (built_env_vars a z vs ≡ some fs)
      × (user_provided_envs a.spec.agent.env ++ fs ≡ es)
unfolding build_env
build_env-parts a z vs es h = elim (Option-cases (built_env_vars a z vs)) [
  | inl e ↦ ground (arith, h, e)
  | inr (fs, e) ↦ (fs, e, ground (arith, h, e))
]

pub build_env-Lacks :
    (a : InstanaAgent) (z : Option Zone) (name : String) (vs : List EnvVar) (es : List CoreEnvVar)
    → lookup name a.spec.agent.env ≡ none
    → All (Avoids a z name) vs
    → build_env a z vs ≡ some es
    → Lacks name es
build_env-Lacks a z name vs es free avoids h =
    let (fs, e, same) = build_env-parts a z vs es h in
    subst (λ l. Lacks name l) same
      (All-append _ (user_provided_envs a.spec.agent.env) fs (user-Lacks name a.spec.agent.env free)
        (built_env_vars-Avoids a z name vs fs avoids e))

pub build_env-Mem :
    (a : InstanaAgent) (z : Option Zone) (v : EnvVar) (vs : List EnvVar) (e : CoreEnvVar)
    (es : List CoreEnvVar)
    → Memᴰ v vs
    → build_env_var a z v ≡ built e
    → build_env a z vs ≡ some es
    → Memᴰ e es
build_env-Mem a z v vs e es mem made h =
    let (fs, rest, same) = build_env-parts a z vs es h in
    subst (λ l. Memᴰ e l) same
      (Mem-append_right (user_provided_envs a.spec.agent.env) fs
        (built_env_vars-Mem a z v vs e fs mem made rest))

-- variables of other names
pub Avoids-all :
    (a : InstanaAgent) (z : Option Zone) (name : String) (vs : List EnvVar)
    → all (λ v. not (name_of v == name)) vs ≡ true
    → All (Avoids a z name) vs
Avoids-all a z name [] h = tt
Avoids-all a z name (v ∷ vs) h =
    (inl (differ (name_of v) name (ground (arith, h))), Avoids-all a z name vs (ground (arith, h)))
