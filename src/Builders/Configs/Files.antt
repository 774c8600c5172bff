-- ===== src/Builders/Configs/Files.antt =====
-- The files of the loop over the numbered backends.
use mathlib.Core.Path.{subst}
use instana_agent_operator.Prelude.{
  ℕ, String, ◌≡◌, ◌⊎◌, ◌↔◌, refl, sym, ap, ◌∙◌, some, List, [], ◌∷◌, Memᴰ, arith, eq_iff, ◌==◌,
  string_comparable, inl, inr, Mem-cons_cases, Option-cases, Bool-cases,
}
use instana_agent_operator.Prelude.Dict.{Dict, lookup, lookup-insert}
use instana_agent_operator.Kube.{Object}
use instana_agent_operator.Agent.{InstanaAgent}
use instana_agent_operator.Builders.Secrets.{K8SensorBackend}
use instana_agent_operator.Builders.Configs.{
  backend_key, backend_file, backend_content, enumerate_from, add_backend, add_backends,
  backend_config,
}

module _ (c : InstanaAgent) (keys_secret : Object) where
  -- The file with the given name and content is that of a numbered backend with a key.
  abbrev IsBackendFile : List (ℕ × K8SensorBackend) → String → String → Type 0
  IsBackendFile backends name content =
      (p : ℕ × K8SensorBackend) × (key : String) × Memᴰ p backends
      × (backend_key keys_secret p.1 ≡ some key)
      × (name ≡ backend_file p.0)
      × (content ≡ backend_content c p.1 key)

  add_backend-cases :
      (i : ℕ) (b : K8SensorBackend) (config : Dict String) (name content : String)
      → lookup name (add_backend c keys_secret i b config) ≡ some content
      → IsBackendFile ((i, b) ∷ []) name content ⊎ (lookup name config ≡ some content)
  unfolding add_backend
  add_backend-cases i b config name content h = elim (Option-cases (backend_key keys_secret b)) [
    | inl e ↦ inr (ground (arith, h, e))
    | inr (key, e) ↦
        let step = lookup-insert (backend_file i) name (backend_content c b key) config in
        elim (Bool-cases (backend_file i == name)) [
          | inl same ↦ inl (
            (i, b),
            key,
            Memᴰ.head refl,
            e,
            sym ((eq_iff (backend_file i) name).0 same),
            ground (arith, h, e, step, same),
          )
          | inr other ↦ inr (ground (arith, h, e, step, other))
        ]
  ]

  add_backends-cases :
      (backends : List (ℕ × K8SensorBackend)) (config : Dict String) (name content : String)
      → lookup name (add_backends c keys_secret backends config) ≡ some content
      → IsBackendFile backends name content ⊎ (lookup name config ≡ some content)
  unfolding add_backends
  add_backends-cases [] config name content h = inr h
  add_backends-cases ((i, b) ∷ backends) config name content h =
      elim (add_backends-cases backends (add_backend c keys_secret i b config) name content h) [
        | inl (p, key, mem, found, named, same) ↦ inl (p, key, Memᴰ.tail mem, found, named, same)
        | inr before ↦ elim (add_backend-cases i b config name content before) [
          | inl (p, key, mem, found, named, same) ↦ elim (Mem-cons_cases mem) [
            | inl here ↦ inl (p, key, Memᴰ.head here, found, named, same)
            | inr none_left ↦ elim none_left [ ]
          ]
          | inr older ↦ inr older
        ]
      ]

  Holds : String → Dict String → Type 0
  Holds name config = (content : String) × (lookup name config ≡ some content)

  Holds-add_backend :
      (i : ℕ) (b : K8SensorBackend) (config : Dict String) (name : String)
      → Holds name config
      → Holds name (add_backend c keys_secret i b config)
  unfolding add_backend Holds
  Holds-add_backend i b config name (content, h) = elim (Option-cases (backend_key keys_secret b)) [
    | inl e ↦ (content, ground (arith, h, e))
    | inr (key, e) ↦
        let made = backend_content c b key in
        let step = lookup-insert (backend_file i) name made config in
        elim (Bool-cases (backend_file i == name)) [
          | inl same ↦ (made, ground (arith, e, step, same))
          | inr other ↦ (content, ground (arith, h, e, step, other))
        ]
  ]

  Holds-add_backends :
      (backends : List (ℕ × K8SensorBackend)) (config : Dict String) (name : String)
      → Holds name config
      → Holds name (add_backends c keys_secret backends config)
  unfolding add_backends
  Holds-add_backends [] config name h = h
  Holds-add_backends ((i, b) ∷ backends) config name h =
      Holds-add_backends backends (add_backend c keys_secret i b config) name
        (Holds-add_backend i b config name h)

  add_backends-Holds :
      (backends : List (ℕ × K8SensorBackend)) (config : Dict String) (i : ℕ) (b : K8SensorBackend)
      (key : String)
      → Memᴰ (i, b) backends
      → backend_key keys_secret b ≡ some key
      → Holds (backend_file i) (add_backends c keys_secret backends config)
  unfolding add_backends Holds add_backend
  add_backends-Holds [] config i b key mem found = elim mem [ ]
  add_backends-Holds ((j, d) ∷ backends) config i b key mem found = elim (Mem-cons_cases mem) [
    | inl same ↦
        let made = backend_content c b key in
        Holds-add_backends backends (add_backend c keys_secret j d config) (backend_file i) (
          made,
          ap
                (λ (p : ℕ × K8SensorBackend).
                  lookup (backend_file i) (add_backend c keys_secret p.0 p.1 config))
                (sym same)
              ∙ ground (
                arith,
                found,
                lookup-insert (backend_file i) (backend_file i) made config,
                eq_iff (backend_file i) (backend_file i),
              ),
        )
    | inr later ↦
        add_backends-Holds backends (add_backend c keys_secret j d config) i b key later found
  ]

  -- a file comes from one of the numbered backends
  backend_config-IsBackendFile :
      (backends : List K8SensorBackend) (name content : String)
      → lookup name (backend_config c keys_secret backends) ≡ some content
      → IsBackendFile (enumerate_from 0 backends) name content
  unfolding backend_config lookup
  backend_config-IsBackendFile backends name content h =
      elim (add_backends-cases (enumerate_from 0 backends) [] name content h) [
        | inl file ↦ file
        | inr empty ↦ ground (arith, empty)
      ]

  -- a file of some name comes from a numbered backend with a key, and each of these has one
  pub backend_config-numbered :
      (backends : List K8SensorBackend) (name : String)
      → ((content : String) × (lookup name (backend_config c keys_secret backends) ≡ some content))
        ↔ ((p : ℕ × K8SensorBackend) × (key : String) × Memᴰ p (enumerate_from 0 backends)
            × (backend_key keys_secret p.1 ≡ some key)
            × (name ≡ backend_file p.0))
  unfolding backend_config Holds
  backend_config-numbered backends name = (
    λ (content, h).
        let (p, key, mem, found, named, _) = backend_config-IsBackendFile backends name content h in
        (p, key, mem, found, named),
    λ ((i, b), key, mem, found, named).
        subst
          (λ n.
            (content : String) × (lookup n (backend_config c keys_secret backends) ≡ some content))
          (sym named) (add_backends-Holds (enumerate_from 0 backends) [] i b key mem found),
  )
