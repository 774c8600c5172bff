-- ===== src/Builders/Configs.antt =====
-- agent/secrets/config.go: the Secret with the configuration of the agent. yaml.Marshal is a
-- parameter, on the values that are given to it.
pub mod Files
pub mod Names
pub mod Lines
use instana_agent_operator.Prelude.{
  ℕ, suc, String, Bool, true, false, not, ◌&&◌, ◌||◌, Option, none, some, List, [], ◌∷◌, ◌++◌,
  if◌then◌else◌,
}
use instana_agent_operator.Prelude.Dict.{Dict, lookup, insert, copy_into}
use instana_agent_operator.Prelude.Text.{◌<>◌, itoa, format_bool, join}
use instana_agent_operator.Optional.{Optional, optional_of, pointer_zero, bool_zero, deref_or_empty}
use instana_agent_operator.Kube.{Object, ObjectKey, key_from_object}
use instana_agent_operator.Collections.Maps.{map_or_make}
use instana_agent_operator.Agent.{InstanaAgent, OpenTelemetry}
use instana_agent_operator.Builders.Helpers.{is_set}
use instana_agent_operator.Builders.Secrets.{K8SensorBackend}

-- the values that are marshalled
pub data Yaml : Type 0 where
  open_telemetry_value : OpenTelemetry → Yaml
  bool_value : Bool → Yaml
  map_value : String → Yaml → Yaml

-- `toInlineVariable` without and with a fallback
abbrev pub to_inline_variable : String → String → String
to_inline_variable key value = key <> "=" <> value

abbrev pub to_inline_variable_or : String → String → String → String
to_inline_variable_or key value fallback =
    if is_set value then key <> "=" <> value else key <> "=" <> fallback

-- for i, x := range xs
unfoldable pub enumerate_from {ℓ} : {A : Type ℓ} → ℕ → List A → List (ℕ × A)
enumerate_from i [] = []
enumerate_from i (x ∷ xs) = (i, x) ∷ enumerate_from (suc i) xs

-- the key of a backend that is rendered, from the Secret of the keys or of the backend itself
unfoldable pub backend_key : Object → K8SensorBackend → Option String
backend_key keys_secret backend =
    if (not (is_set keys_secret.name) && not (is_set backend.endpoint_key))
      || not (is_set backend.endpoint_host)
    then none
    else let key : String =
        elim (lookup ("key" <> backend.resource_suffix) (map_or_make keys_secret.payload)) [
          | some value ↦ value
          | none ↦ backend.endpoint_key
        ] in
      if is_set key then some key else none

-- the lines of a backend's file
unfoldable pub backend_lines : InstanaAgent → K8SensorBackend → String → List String
backend_lines c backend key =
    let a = c.spec.agent in
    (to_inline_variable "host" backend.endpoint_host
      ∷ to_inline_variable_or "port" backend.endpoint_port "443"
      ∷ to_inline_variable "protocol" "HTTP/2"
      ∷ to_inline_variable "key" key
      ∷ [])
    ++ (if is_set a.proxy_host
        then to_inline_variable_or "proxy.type" a.proxy_protocol "HTTP"
          ∷ to_inline_variable "proxy.host" a.proxy_host
          ∷ to_inline_variable_or "proxy.port" a.proxy_port "80"
          ∷ []
        else [])
    ++ (if a.proxy_use_dns
        then to_inline_variable "proxy.dns" (format_bool a.proxy_use_dns) ∷ []
        else [])
    ++ (if is_set a.credentials.proxy_user && is_set a.credentials.proxy_password
        then to_inline_variable "proxy.user" a.credentials.proxy_user
          ∷ to_inline_variable "proxy.password" a.credentials.proxy_password
          ∷ []
        else [])

-- the name of the file of the backend with index `i`
unfoldable pub backend_file : ℕ → String
backend_file i = "com.instana.agent.main.sender.Backend-" <> itoa (suc i) <> ".cfg"

unfoldable pub backend_content : InstanaAgent → K8SensorBackend → String → String
unfolding backend_lines
backend_content c backend key = join (backend_lines c backend key) "\n" <> "\n"

module _ (c : InstanaAgent) (keys_secret : Object) where
  -- the body of the loop
  unfoldable pub add_backend : ℕ → K8SensorBackend → Dict String → Dict String
  add_backend i backend config = elim (backend_key keys_secret backend) [
    | none ↦ config
    | some key ↦ insert (backend_file i) (backend_content c backend key) config
  ]

  unfoldable pub add_backends : List (ℕ × K8SensorBackend) → Dict String → Dict String
  add_backends [] config = config
  add_backends ((i, backend) ∷ backends) config =
      add_backends backends (add_backend i backend config)

  -- `backendConfig`, whose error is always nil
  unfoldable pub backend_config : List K8SensorBackend → Dict String
  unfolding add_backends enumerate_from
  backend_config backends = add_backends (enumerate_from 0 backends) []

  module _ (marshal : Yaml → String) where
    -- `data` before the backends are merged in
    unfoldable pub base_data : Dict String
    base_data =
        let d0 =
          if is_set c.spec.cluster_name then insert "cluster_name" c.spec.cluster_name [] else [] in
        let d1 =
          if is_set c.spec.agent.configuration_yaml
          then insert "configuration.yaml" c.spec.agent.configuration_yaml d0
          else d0 in
        let d2 =
          insert "configuration-opentelemetry.yaml"
            (marshal (
              map_value "com.instana.plugin.opentelemetry"
                (open_telemetry_value c.spec.open_telemetry)))
            d1 in
        let d3 =
          if deref_or_empty c.spec.prometheus_remote_write
          then insert "configuration-prometheus-remote-write.yaml"
              (marshal (
                map_value "com.instana.plugin.prometheus"
                  (map_value "remote_write" (map_value "enabled" (bool_value true)))))
              d2
          else d2 in
        insert "configuration-disable-kubernetes-sensor.yaml"
          (marshal
            (map_value "com.instana.plugin.kubernetes" (map_value "enabled" (bool_value false))))
          d3

    -- `data`
    unfoldable pub config_data : List K8SensorBackend → Dict String
    unfolding base_data backend_config
    config_data backends = copy_into base_data (backend_config backends)

    -- `Build`, with the key that the status manager is told
    unfoldable pub build_config_secret : List K8SensorBackend → Optional (Option Object) × ObjectKey
    unfolding config_data
    build_config_secret backends =
        let secret : Object = record {
          gvk = record { group = ""; version = "v1"; kind = "Secret" };
          name = c.name <> "-config";
          namespace = c.namespace;
          resource_version = "";
          labels = none;
          annotations = none;
          owner_references = [];
          managed_fields = [];
          payload = some (config_data backends);
          secret_type = "Opaque";
        } in
        (optional_of (some secret), key_from_object secret)
