-- ===== src/Builders/Secrets/Items.antt =====
-- The volume of the k8s sensor selects keys that the Secret of agent/secrets/keys-secret/secret.go
-- has.
use instana_agent_operator.Prelude.{
  String, ◌≡◌, refl, sym, Bool, true, false, Bool-cases, inl, inr, some, List, [], ◌∷◌, ◌==◌, Memᴰ,
  All, string_comparable, arith, eq_iff, if◌then◌else◌,
}
use instana_agent_operator.Prelude.Dict.{Dict, insert, lookup, lookup-insert}
use instana_agent_operator.Prelude.Text.{◌<>◌}
use instana_agent_operator.Optional.{if_present, is_present, is_not_present, string_zero}
use instana_agent_operator.Agent.{InstanaAgent}
use instana_agent_operator.Builders.{
  KeyToPath, agent_key, secret_file_agent_key, secret_file_https_proxy,
}
use instana_agent_operator.Builders.Helpers.{is_set}
use instana_agent_operator.Builders.Volumes.Single.{VolumeBuilder, k8_sensor_items}
use instana_agent_operator.Builders.Secrets.Files.{lookup-credential_data}
use instana_agent_operator.Builders.Secrets.{
  K8SensorBackend, UrlString, writes_files, proxy_value, credential_data, backend_data,
  backends_data, get_data,
}

module _ (url_string : UrlString) (s : InstanaAgent) where
  -- There is an entry `k`.
  Holds : String → Dict String → Type 0
  Holds k m = (v : String) × (lookup k m ≡ some v)

  Holds-insert : (k j v : String) (m : Dict String) → Holds k m → Holds k (insert j v m)
  unfolding Holds
  Holds-insert k j v m (w, h) = elim (Bool-cases (j == k)) [
    | inl e ↦ (v, ground (arith, e, lookup-insert j k v m))
    | inr e ↦ (w, ground (arith, e, h, lookup-insert j k v m))
  ]

  Holds-if :
      (b : Bool) (k : String) (m n : Dict String)
      → Holds k m
      → Holds k n
      → Holds k (if b then m else n)
  Holds-if true k m n h g = h
  Holds-if false k m n h g = g

  Holds-backend_data :
      (k : String) (b : K8SensorBackend) (m : Dict String)
      → Holds k m
      → Holds k (backend_data url_string s b m)
  unfolding backend_data if_present is_present is_not_present
  Holds-backend_data k b m h =
      let key = agent_key <> b.resource_suffix in
      let stored = Holds-insert k key b.endpoint_key m h in
      Holds-if (is_set b.endpoint_key) k _ m
        (Holds-if (writes_files s) k _ (insert key b.endpoint_key m)
          (Holds-insert k (secret_file_agent_key <> b.resource_suffix) b.endpoint_key
            (insert key b.endpoint_key m) stored)
          stored)
        h

  Holds-backend_data_own :
      (b : K8SensorBackend) (m : Dict String)
      → writes_files s ≡ true
      → is_set b.endpoint_key ≡ true
      → Holds (secret_file_agent_key <> b.resource_suffix) (backend_data url_string s b m)
  unfolding backend_data Holds if_present is_present is_not_present
  Holds-backend_data_own b m on set =
      let file = secret_file_agent_key <> b.resource_suffix in
      let stored = insert (agent_key <> b.resource_suffix) b.endpoint_key m in
      (
        b.endpoint_key,
        ground (arith, on, set, eq_iff file file, lookup-insert file file b.endpoint_key stored),
      )

  Holds-backends_data :
      (k : String) (bs : List K8SensorBackend) (m : Dict String)
      → Holds k m
      → Holds k (backends_data url_string s bs m)
  unfolding backends_data
  Holds-backends_data k [] m h = h
  Holds-backends_data k (b ∷ bs) m h =
      Holds-backends_data k bs (backend_data url_string s b m) (Holds-backend_data k b m h)

  Holds-own_key :
      (b : K8SensorBackend) (bs : List K8SensorBackend) (m : Dict String)
      → writes_files s ≡ true
      → is_set b.endpoint_key ≡ true
      → Memᴰ b bs
      → Holds (secret_file_agent_key <> b.resource_suffix) (backends_data url_string s bs m)
  unfolding backends_data
  Holds-own_key b [] m on set h = elim h [ ]
  Holds-own_key b (c ∷ bs) m on set (Memᴰ.head p) =
      Holds-backends_data (secret_file_agent_key <> b.resource_suffix) bs
        (backend_data url_string s c m) (rw p (Holds-backend_data_own c m on (rw (sym p) set)))
  Holds-own_key b (c ∷ bs) m on set (Memᴰ.tail h) =
      Holds-own_key b bs (backend_data url_string s c m) on set h

  Holds-https_proxy :
      writes_files s ≡ true
      → is_set s.spec.agent.proxy_host ≡ true
      → Holds secret_file_https_proxy (credential_data url_string s)
  unfolding Holds
  Holds-https_proxy on set = (
    proxy_value url_string s,
    ground (arith, on, set, lookup-credential_data url_string s secret_file_https_proxy),
  )

  -- The items when the Secret is the operator's own.
  k8_sensor_items-own :
      (v : VolumeBuilder)
      → is_set v.instana_agent.spec.agent.keys_secret ≡ false
      → k8_sensor_items v ≡ (
          let suffix = v.backend_resource_suffix in
          let agent_key_item : KeyToPath = record {
            key = secret_file_agent_key <> suffix;
            path = secret_file_agent_key <> suffix;
          } in
          let proxy_item : KeyToPath = record {
            key = secret_file_https_proxy;
            path = secret_file_https_proxy;
          } in
          if is_set v.instana_agent.spec.agent.proxy_host
          then agent_key_item ∷ proxy_item ∷ []
          else agent_key_item ∷ [])
  unfolding k8_sensor_items
  k8_sensor_items-own v own = rw own refl

  All-if :
      (P : KeyToPath → Type 0) (b : Bool) (xs ys : List KeyToPath)
      → (b ≡ true → All P xs)
      → (b ≡ false → All P ys)
      → All P (if b then xs else ys)
  All-if P true xs ys f g = f refl
  All-if P false xs ys f g = g refl

  -- If UseSecretMounts is true, the resource names no Secret of its own, and the backend has a key,
  -- then the operator's Secret has every key that the k8s sensor's volume selects from it.
  pub get_data-k8_sensor_items :
      (open_shift : Bool) (b : K8SensorBackend) (bs : List K8SensorBackend)
      → s.spec.use_secret_mounts ≡ some true
      → is_set s.spec.agent.keys_secret ≡ false
      → Memᴰ b bs
      → is_set b.endpoint_key ≡ true
      → All
          (λ item. (v : String) × (lookup item.key (get_data url_string s bs) ≡ some v))
          (k8_sensor_items (record {
            instana_agent = s;
            is_open_shift = open_shift;
            backend_resource_suffix = b.resource_suffix;
          }))
  unfolding get_data Holds k8_sensor_items
  get_data-k8_sensor_items open_shift b bs on own mem set =
      let base = credential_data url_string s in
      let agent_item = Holds-own_key b bs base (rw on refl) set mem in
      rw (k8_sensor_items-own _ own) (
        All-if _ (is_set s.spec.agent.proxy_host) _ _
          (λ proxy. (
            agent_item,
            (
              Holds-backends_data secret_file_https_proxy bs base
                  (Holds-https_proxy (rw on refl) proxy),
              tt,
            ),
          ))
          (λ no_proxy. (agent_item, tt)))
