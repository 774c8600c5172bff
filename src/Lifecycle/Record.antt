-- ===== src/Lifecycle/Record.antt =====
-- What `UpdateDependentLifecycleInfo` writes to the ConfigMap, and what it does not touch.
use instana_agent_operator.Prelude.{
  String, ◌≡◌, Option, none, some, List, ◌==◌, string_comparable, arith, eq_iff, inl, inr,
  if◌then◌else◌, Option-cases,
}
use instana_agent_operator.Prelude.Dict.{Dict, lookup, insert, lookup-insert}
use instana_agent_operator.Prelude.Text.{◌<>◌}
use instana_agent_operator.Kube.{Object}
use instana_agent_operator.Lifecycle.{
  DependentLifecycleManager, as_unstructureds, get_current_gen_key, record_generation,
}

module _ {W : Type 0} (d : DependentLifecycleManager W) where
  abbrev pub dirty_key : String
  dirty_key = get_current_gen_key d <> "-dirty"

  -- the value that the dirty key gets, if it gets one
  abbrev pub dirty_value : Dict String → Option String
  dirty_value data' = elim (lookup (get_current_gen_key d) data') [
    | some existing ↦ some existing
    | none ↦ lookup dirty_key data'
  ]

  -- The recorded data has the current dependents under the key of the current generation, what
  -- stood there before under the dirty key, and every other entry unchanged.
  pub lookup-record_generation :
      (objects : List Object) (data' : Dict String) (key : String)
      → lookup key (record_generation d objects data') ≡ (
          if get_current_gen_key d == key
          then some (d.json.marshal (as_unstructureds objects))
          else if dirty_key == key
          then dirty_value data'
          else lookup key data')
  unfolding record_generation
  lookup-record_generation objects data' key =
      let gen = get_current_gen_key d in
      let json = d.json.marshal (as_unstructureds objects) in
      elim (Option-cases (lookup gen data')) [
        | inl missing ↦
            ground (arith, missing, lookup-insert gen key json data', eq_iff dirty_key key)
        | inr (v, there) ↦ ground (
          arith,
          there,
          lookup-insert gen key json (insert dirty_key v data'),
          lookup-insert dirty_key key v data',
        )
      ]
