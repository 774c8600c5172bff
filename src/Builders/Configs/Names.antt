-- ===== src/Builders/Configs/Names.antt =====
-- Which backends have a file in the configuration of the agent.
use mathlib.Core.Path.{subst}
use instana_agent_operator.Prelude.{
  ℕ, suc, ◌+◌, String, ◌≡◌, ◌≢◌, ◌⊎◌, ◌↔◌, sym, ap, ◌∙◌, none, some, List, [], ◌∷◌, ◌++◌, Memᴰ,
  arith, eq_iff, string_comparable, inl, inr, Mem-cons_cases, Option-cases, length,
}
use instana_agent_operator.Prelude.Dict.{lookup}
use instana_agent_operator.Prelude.Text.{◌<>◌, itoa}
use instana_agent_operator.Collections.Maps.{map_or_make}
use instana_agent_operator.Kube.{Object}
use instana_agent_operator.Agent.{InstanaAgent}
use instana_agent_operator.Builders.Secrets.{K8SensorBackend}
use instana_agent_operator.Builders.Configs.{
  backend_key, backend_file, enumerate_from, backend_config,
}
use instana_agent_operator.Builders.Configs.Files.{backend_config-numbered}

-- The backend has a host, and `key` is its key: what the Secret has under the backend's name, or
-- else the backend's own; the Secret was read or the backend has a key of its own.
abbrev pub HasKey : Object → K8SensorBackend → String → Type 0
HasKey keys_secret b key =
    let stored = lookup ("key" <> b.resource_suffix) (map_or_make keys_secret.payload) in
    (b.endpoint_host ≢ "")
    × ((keys_secret.name ≢ "") ⊎ (b.endpoint_key ≢ ""))
    × (key ≢ "")
    × ((stored ≡ some key) ⊎ ((stored ≡ none) × (b.endpoint_key ≡ key)))

backend_key-HasKey :
    (keys_secret : Object) (b : K8SensorBackend) (key : String)
    → backend_key keys_secret b ≡ some key
    → HasKey keys_secret b key
unfolding backend_key
backend_key-HasKey keys_secret b key h =
    let named = eq_iff keys_secret.name "" in
    let own = eq_iff b.endpoint_key "" in
    let host = eq_iff b.endpoint_host "" in
    elim (Option-cases (lookup ("key" <> b.resource_suffix) (map_or_make keys_secret.payload))) [
      | inl missing ↦ ground (arith, h, named, own, host, missing)
      | inr (value, stored) ↦ ground (arith, h, named, own, host, stored, eq_iff value "")
    ]

HasKey-backend_key :
    (keys_secret : Object) (b : K8SensorBackend) (key : String)
    → HasKey keys_secret b key
    → backend_key keys_secret b ≡ some key
unfolding backend_key
HasKey-backend_key keys_secret b key h = ground (
  arith,
  h,
  eq_iff keys_secret.name "",
  eq_iff b.endpoint_key "",
  eq_iff b.endpoint_host "",
  eq_iff key "",
)

module _ {ℓ} {A : Type ℓ} where
  -- The item stands in the list after `n - i` others.
  Mem-enumerate_from :
      (i n : ℕ) (x : A) (xs : List A)
      → Memᴰ (n, x) (enumerate_from i xs)
      → (before : List A) × (after : List A) × (xs ≡ before ++ x ∷ after) × (n ≡ i + length before)
  unfolding enumerate_from
  Mem-enumerate_from i n x [] mem = elim mem [ ]
  Mem-enumerate_from i n x (y ∷ ys) mem = elim (Mem-cons_cases mem) [
    | inl same ↦
        ([], ys, ap (λ z. z ∷ ys) (sym (ap (λ p. p.1) same)), omega (arith, ap (λ p. p.0) same))
    | inr later ↦
        let (before, after, split, number) = Mem-enumerate_from (suc i) n x ys later in
        (y ∷ before, after, ap (λ l. y ∷ l) split, omega (arith, number))
  ]

  enumerate_from-Mem :
      (i : ℕ) (x : A) (before after : List A)
      → Memᴰ (i + length before, x) (enumerate_from i (before ++ x ∷ after))
  unfolding enumerate_from
  enumerate_from-Mem i x [] after = Memᴰ.head (ap (λ n. (n, x)) (omega arith))
  enumerate_from-Mem i x (y ∷ before) after = Memᴰ.tail (
      subst (λ n. Memᴰ (n, x) (enumerate_from (suc i) (before ++ x ∷ after))) (omega arith)
        (enumerate_from-Mem (suc i) x before after))

-- `backendConfig` makes a file of some name exactly if the name is
-- com.instana.agent.main.sender.Backend-n.cfg, where the n-th backend, counted from one, has a host
-- and a key that is not empty: what the Secret of the keys has for it, or else its own.
pub backend_config_iff :
    (c : InstanaAgent) (keys_secret : Object) (backends : List K8SensorBackend) (name : String)
    → ((content : String) × (lookup name (backend_config c keys_secret backends) ≡ some content))
      ↔ ((before : List K8SensorBackend) × (b : K8SensorBackend) × (after : List K8SensorBackend)
          × (key : String) × (backends ≡ before ++ b ∷ after)
          × HasKey keys_secret b key
          × (name ≡ "com.instana.agent.main.sender.Backend-" <> itoa (length before + 1) <> ".cfg"))
unfolding backend_file
backend_config_iff c keys_secret backends name =
    let numbered = backend_config-numbered c keys_secret backends name in
    let file = λ (n : ℕ). "com.instana.agent.main.sender.Backend-" <> itoa n <> ".cfg" in
    (
      λ made.
          let ((i, b), key, mem, found, named) = numbered.0 made in
          let (before, after, split, number) = Mem-enumerate_from 0 i b backends mem in
          (
            before,
            b,
            after,
            key,
            split,
            backend_key-HasKey keys_secret b key found,
            named ∙ ap file (omega (arith, number)),
          ),
      λ (before, b, after, key, split, has, named). numbered.1 (
        (0 + length before, b),
        key,
        subst (λ l. Memᴰ (0 + length before, b) (enumerate_from 0 l)) (sym split)
            (enumerate_from-Mem 0 b before after),
        HasKey-backend_key keys_secret b key has,
        named ∙ ap file (omega arith),
      ),
    )
