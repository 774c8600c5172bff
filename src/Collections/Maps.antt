-- ===== src/Collections/Maps.antt =====
-- pkg/map_defaulter and the copier of pkg/collections/map. A map that may be nil is an Option.
use instana_agent_operator.Prelude.{
  String, ◌≡◌, Option, none, some, [], ◌==◌, string_comparable, arith, eq_iff, Bool-cases, inl, inr,
}
use instana_agent_operator.Prelude.Dict.{Dict, lookup, insert, lookup-insert}
use instana_agent_operator.Optional.{HasZero, optional_of, get_or_default}

module _ {ℓ} {V : Type ℓ} where
  -- optional.Of(m).GetOrDefault(make(map[K]V))
  abbrev pub map_or_make : Option (Dict V) → Dict V
  map_or_make none = []
  map_or_make (some m) = m

  -- NewCopier(m).Copy(): a new map with the entries of the old one, which a list of entries is
  unfoldable pub copy_map : Option (Dict V) → Dict V
  copy_map m = map_or_make m

  -- m[key], the zero value if the key is missing
  abbrev pub value_at : ⦃z : HasZero V⦄ → String → Dict V → V
  value_at ⦃z⦄ key m = elim (lookup key m) [ none ↦ z.zero_value | some v ↦ v ]

  -- `SetIfEmpty` of the map that NewMapDefaulter has made non-nil
  unfoldable pub set_if_empty : ⦃z : HasZero V⦄ → String → V → Dict V → Dict V
  set_if_empty key def m = insert key (get_or_default (optional_of (value_at key m)) def) m

  -- What one map has, the other has too.
  abbrev pub IsIncluded : Dict V → Dict V → Type ℓ
  IsIncluded m n = (key : String) (v : V) → lookup key m ≡ some v → lookup key n ≡ some v

  pub nil-IsIncluded : (n : Dict V) → IsIncluded [] n
  unfolding lookup
  nil-IsIncluded n key v h = ground (arith, h)

  pub insert-IsIncluded :
      (key : String) (value : V) (m n : Dict V)
      → IsIncluded m n
      → IsIncluded (insert key value m) (insert key value n)
  insert-IsIncluded key value m n h key' v found = elim (Bool-cases (key == key')) [
    | inl e ↦
        ground (arith, e, found, lookup-insert key key' value m, lookup-insert key key' value n)
    | inr e ↦ ground (
      arith,
      e,
      lookup-insert key key' value n,
      h key' v (ground (arith, e, found, lookup-insert key key' value m)),
    )
  ]

  -- a key that the smaller map lacks
  pub insert-IsIncluded_right :
      (key : String) (value : V) (m n : Dict V)
      → lookup key m ≡ none
      → IsIncluded m n
      → IsIncluded m (insert key value n)
  insert-IsIncluded_right key value m n free h key' v found =
      ground (arith, free, found, eq_iff key key', lookup-insert key key' value n, h key' v found)
