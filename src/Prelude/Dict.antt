-- ===== src/Prelude/Dict.antt =====
-- Go's `map[string]V` as an association list: the order of the entries stands for the order in
-- which a `range` loop may visit them, and theorems hold for every order.
use Prim.Native.String.{String}
use mathlib.Core.Path.{◌≡◌, refl, ap}
use mathlib.Core.Logic.{inl, inr}
use mathlib.Core.Option.{Option, none, some}
use mathlib.Core.List.{List, [], ◌∷◌, Memᴰ}
use native.Mathlib.Omega.{arith}
use text.Mathlib.Text.{◌==◌}
use text.Mathlib.TextEquality.{eq_iff}
use instana_agent_operator.Prelude.Tests.{if◌then◌else◌, Bool-cases}
use instana_agent_operator.Prelude.Lists.{Mem-cons_cases}

abbrev pub Dict {ℓ} : Type ℓ → Type ℓ
Dict V = List (String × V)

module _ {ℓ} {V : Type ℓ} where
  -- v, ok := m[k]
  unfoldable pub lookup : String → Dict V → Option V
  lookup key [] = none
  lookup key ((name, value) ∷ entries) = if name == key then some value else lookup key entries

  -- m[k] = v
  unfoldable pub insert : String → V → Dict V → Dict V
  insert key value [] = (key, value) ∷ []
  insert key value ((name, old) ∷ entries) =
      if name == key then (key, value) ∷ entries else (name, old) ∷ insert key value entries

  -- delete(m, k)
  unfoldable pub erase : String → Dict V → Dict V
  erase key [] = []
  erase key ((name, value) ∷ entries) =
      let rest = erase key entries in if name == key then rest else (name, value) ∷ rest

  -- maps.Copy(m, from)
  unfoldable pub copy_into : Dict V → Dict V → Dict V
  copy_into entries [] = entries
  copy_into entries ((key, value) ∷ from) = copy_into (insert key value entries) from

  pub lookup-insert :
      (key name : String) (value : V) (entries : Dict V)
      → lookup name (insert key value entries)
        ≡ (if key == name then some value else lookup name entries)
  unfolding lookup insert
  lookup-insert key name value [] = refl
  lookup-insert key name value ((first, old) ∷ entries) = ground (
    arith,
    eq_iff key name,
    eq_iff first key,
    eq_iff first name,
    lookup-insert key name value entries,
  )

  pub lookup-erase :
      (key name : String) (entries : Dict V)
      → lookup name (erase key entries) ≡ (if key == name then none else lookup name entries)
  unfolding lookup erase
  lookup-erase key name [] = ground arith
  lookup-erase key name ((first, value) ∷ entries) =
      ground
        (arith, lookup-erase key name entries, eq_iff first key, eq_iff first name, eq_iff key name)

  -- the second value replaces the first
  pub insert-insert :
      (key : String) (value old : V) (entries : Dict V)
      → insert key value (insert key old entries) ≡ insert key value entries
  unfolding insert
  insert-insert key value old [] = ground (arith, eq_iff key key)
  insert-insert key value old ((first, v) ∷ entries) =
      ground (arith, eq_iff key key, insert-insert key value old entries)

  -- No key stands twice, as in every map.
  abbrev pub HasUniqueKeys : Dict V → Type ℓ
  HasUniqueKeys [] = Unit
  HasUniqueKeys ((key, v) ∷ entries) = (lookup key entries ≡ none) × HasUniqueKeys entries

  pub insert-HasUniqueKeys :
      (key : String) (value : V) (entries : Dict V)
      → HasUniqueKeys entries
      → HasUniqueKeys (insert key value entries)
  unfolding insert lookup
  insert-HasUniqueKeys key value [] h = (refl, tt)
  insert-HasUniqueKeys key value ((first, v) ∷ entries) (free, h) =
      elim (Bool-cases (first == key)) [
        | inl e ↦ rw e (ground (arith, e, eq_iff first key, free), h)
        | inr e ↦ rw e (
          ground (
            arith,
            e,
            free,
            eq_iff key first,
            eq_iff first key,
            lookup-insert key first value entries,
          ),
          insert-HasUniqueKeys key value entries h,
        )
      ]

  -- what the map has under a key
  pub lookup-Mem :
      (key : String) (v : V) (entries : Dict V)
      → HasUniqueKeys entries
      → Memᴰ (key, v) entries
      → lookup key entries ≡ some v
  unfolding lookup
  lookup-Mem key v [] h mem = elim mem [ ]
  lookup-Mem key v ((first, w) ∷ entries) (free, h) mem = elim (Mem-cons_cases mem) [
    | inl p ↦ ground (arith, ap (λ e. e.0) p, ap (λ e. e.1) p, eq_iff first key)
    | inr m ↦ ground (arith, free, eq_iff first key, lookup-Mem key v entries h m)
  ]

  pub Mem-lookup :
      (key : String) (v : V) (entries : Dict V)
      → lookup key entries ≡ some v
      → Memᴰ (key, v) entries
  unfolding lookup
  Mem-lookup key v [] h = ground (arith, h)
  Mem-lookup key v ((first, w) ∷ entries) h = elim (Bool-cases (first == key)) [
    | inl e ↦ Memᴰ.head (ground (arith, e, h, eq_iff first key))
    | inr e ↦ Memᴰ.tail (Mem-lookup key v entries (ground (arith, e, h)))
  ]
