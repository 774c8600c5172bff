-- ===== src/Builders/DaemonSets/Environment.antt =====
-- The environment of the agent's container.
use instana_agent_operator.Prelude.{
  String, ◌≡◌, refl, sym, ap, ◌∙◌, ◌↔◌, inl, inr, Bool-cases, Option, none, some, List, [], ◌∷◌,
  Memᴰ, Mem-cons_cases, arith, ◌==◌, string_comparable, if◌then◌else◌, some-injective, All,
}
use mathlib.Core.Path.{subst}
use instana_agent_operator.Prelude.Dict.{
  Dict, lookup, insert, lookup-insert, HasUniqueKeys, insert-HasUniqueKeys, lookup-Mem, Mem-lookup,
}
use instana_agent_operator.Prelude.Sort.{sort_by, Mem-sort_by_iff}
use instana_agent_operator.Builders.{CoreEnvVar}
use instana_agent_operator.Builders.Env.{build_env}
use instana_agent_operator.Builders.DaemonSets.{
  DaemonSetBuilder, put_env_vars, env_vars_of, env_var_map, agent_env_vars, persist_env_vars,
  base_env_vars,
}

-- The last variable of a list with the name, if there is one.
unfoldable pub last_named : String → List CoreEnvVar → Option CoreEnvVar
last_named name [] = none
last_named name (e ∷ es) = elim (last_named name es) [
  | some later ↦ some later
  | none ↦ if e.name == name then some e else none
]

-- the first of two options that is there
abbrev pub first_present : Option CoreEnvVar → Option CoreEnvVar → Option CoreEnvVar
first_present (some e) other = some e
first_present none other = other

lookup-put_env_vars :
    (name : String) (es : List CoreEnvVar) (vars : Dict CoreEnvVar)
    → lookup name (put_env_vars es vars) ≡ first_present (last_named name es) (lookup name vars)
unfolding put_env_vars last_named
lookup-put_env_vars name [] vars = refl
lookup-put_env_vars name (e ∷ es) vars =
    ground
      (arith, lookup-put_env_vars name es (insert e.name e vars), lookup-insert e.name name e vars)

put-HasUniqueKeys :
    (es : List CoreEnvVar) (vars : Dict CoreEnvVar)
    → HasUniqueKeys vars
    → HasUniqueKeys (put_env_vars es vars)
unfolding put_env_vars
put-HasUniqueKeys [] vars h = h
put-HasUniqueKeys (e ∷ es) vars h =
    put-HasUniqueKeys es (insert e.name e vars) (insert-HasUniqueKeys e.name e vars h)

-- Each variable stands under its name.
abbrev IsKeyed : Dict CoreEnvVar → Type 0
IsKeyed vars = All (λ (entry : String × CoreEnvVar). entry.0 ≡ entry.1.name) vars

insert-IsKeyed :
    (e : CoreEnvVar) (vars : Dict CoreEnvVar) → IsKeyed vars → IsKeyed (insert e.name e vars)
unfolding insert
insert-IsKeyed e [] h = (refl, tt)
insert-IsKeyed e ((name, f) ∷ vars) (first, h) = elim (Bool-cases (name == e.name)) [
  | inl same ↦ rw same (refl, h)
  | inr differs ↦ rw differs (first, insert-IsKeyed e vars h)
]

put-IsKeyed :
    (es : List CoreEnvVar) (vars : Dict CoreEnvVar) → IsKeyed vars → IsKeyed (put_env_vars es vars)
unfolding put_env_vars
put-IsKeyed [] vars h = h
put-IsKeyed (e ∷ es) vars h = put-IsKeyed es (insert e.name e vars) (insert-IsKeyed e vars h)

Mem-env_vars_of :
    (key : String) (e : CoreEnvVar) (vars : Dict CoreEnvVar)
    → Memᴰ (key, e) vars
    → Memᴰ e (env_vars_of vars)
unfolding env_vars_of
Mem-env_vars_of key e [] mem = elim mem [ ]
Mem-env_vars_of key e ((name, f) ∷ vars) mem = elim (Mem-cons_cases mem) [
  | inl p ↦ Memᴰ.head (ap (λ entry. entry.1) p)
  | inr m ↦ Memᴰ.tail (Mem-env_vars_of key e vars m)
]

env_vars_of-Mem :
    (e : CoreEnvVar) (vars : Dict CoreEnvVar)
    → IsKeyed vars
    → Memᴰ e (env_vars_of vars)
    → Memᴰ (e.name, e) vars
unfolding env_vars_of
env_vars_of-Mem e [] keyed mem = elim mem [ ]
env_vars_of-Mem e ((name, f) ∷ vars) (first, keyed) mem = elim (Mem-cons_cases mem) [
  | inl p ↦ Memᴰ.head (ground (arith, p, first))
  | inr m ↦ Memᴰ.tail (env_vars_of-Mem e vars keyed m)
]

-- The variable that a name stands for: the last one in pod.env, or else the one for the identity of
-- the host, or else the last one that `Build` returned.
abbrev pub effective : DaemonSetBuilder → List CoreEnvVar → String → Option CoreEnvVar
effective d base name = first_present (last_named name d.instana_agent.spec.agent.pod.env) (
    first_present (last_named name (persist_env_vars d.should_set_persist_host_unique_id_env_var))
      (last_named name base))

lookup-env_var_map :
    (d : DaemonSetBuilder) (base : List CoreEnvVar) (name : String)
    → lookup name (env_var_map d base) ≡ effective d base name
unfolding env_var_map lookup
lookup-env_var_map d base name =
    let flagged = persist_env_vars d.should_set_persist_host_unique_id_env_var in
    lookup-put_env_vars name d.instana_agent.spec.agent.pod.env _
    ∙ ap (first_present (last_named name d.instana_agent.spec.agent.pod.env)) (
        lookup-put_env_vars name flagged (put_env_vars base [])
        ∙ ap (first_present (last_named name flagged))
            (lookup-put_env_vars name base [] ∙ ground arith))

Mem-env_var_map_iff :
    (d : DaemonSetBuilder) (base : List CoreEnvVar) (e : CoreEnvVar)
    → Memᴰ e (env_vars_of (env_var_map d base)) ↔ (lookup e.name (env_var_map d base) ≡ some e)
unfolding env_var_map
Mem-env_var_map_iff d base e =
    let flagged = persist_env_vars d.should_set_persist_host_unique_id_env_var in
    let user = d.instana_agent.spec.agent.pod.env in
    let unique =
      put-HasUniqueKeys user _ (put-HasUniqueKeys flagged _ (put-HasUniqueKeys base [] tt)) in
    let keyed = put-IsKeyed user _ (put-IsKeyed flagged _ (put-IsKeyed base [] tt)) in
    (
      λ mem. lookup-Mem e.name e _ unique (env_vars_of-Mem e _ keyed mem),
      λ found. Mem-env_vars_of e.name e _ (Mem-lookup e.name e _ found),
    )

-- The environment of the agent's container is the sorted values of the map.
pub agent_env_vars-sorted :
    (d : DaemonSetBuilder) (base : List CoreEnvVar)
    → build_env d.instana_agent d.zone base_env_vars ≡ some base
    → agent_env_vars d
      ≡ some (sort_by (λ (e : CoreEnvVar). e.name) (env_vars_of (env_var_map d base)))
unfolding agent_env_vars
agent_env_vars-sorted d base h = ground (arith, h)

-- A variable is in the environment of the agent's container exactly if its name stands for it: the
-- last variable of that name in pod.env, or else the one for the identity of the host, or else the
-- last one of those that `Build` returned.
pub Mem-agent_env_vars_iff :
    (d : DaemonSetBuilder) (base envs : List CoreEnvVar) (e : CoreEnvVar)
    → build_env d.instana_agent d.zone base_env_vars ≡ some base
    → agent_env_vars d ≡ some envs
    → Memᴰ e envs ↔ (effective d base e.name ≡ some e)
Mem-agent_env_vars_iff d base envs e made h =
    let vars = env_vars_of (env_var_map d base) in
    let same = some-injective (sym h ∙ agent_env_vars-sorted d base made) in
    let sorted = Mem-sort_by_iff (λ (x : CoreEnvVar). x.name) e vars in
    let named = Mem-env_var_map_iff d base e in
    (
      λ mem.
          sym (lookup-env_var_map d base e.name)
          ∙ named.0 (sorted.0 (subst (λ l. Memᴰ e l) same mem)),
      λ found.
          subst (λ l. Memᴰ e l) (sym same)
            (sorted.1 (named.1 (lookup-env_var_map d base e.name ∙ found))),
    )
