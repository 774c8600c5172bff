-- ===== src/Builders/Helpers.antt =====
-- common/helpers/helpers.go: the names of the objects that belong to an agent, and its flags.
use instana_agent_operator.Prelude.{
  String, Bool, false, not, ◌&&◌, ◌||◌, none, some, List, [], ◌∷◌, ◌==◌, string_comparable,
  if◌then◌else◌,
}
use text.Mathlib.Text.{starts_with}
use instana_agent_operator.Prelude.Text.{◌<>◌}
use instana_agent_operator.Optional.{
  optional_of, get_or_default, string_zero, bool_zero, deref_or_empty,
}
use instana_agent_operator.Agent.{InstanaAgent}

abbrev pub containers_instana_io_registry : String
containers_instana_io_registry = "containers.instana.io"

-- s != ""
abbrev pub is_set : String → Bool
is_set s = not (s == "")

module _ (h : InstanaAgent) where
  abbrev service_account_name_default : String
  service_account_name_default =
      if deref_or_empty h.spec.service_account_create then h.name else "default"

  unfoldable pub service_account_name : String
  unfolding get_or_default
  service_account_name =
      get_or_default (optional_of h.spec.service_account_name) service_account_name_default

  -- the certificate and the key as the strings of their bytes
  abbrev pub tls_is_enabled : Bool
  tls_is_enabled =
      is_set h.spec.agent.tls.secret_name
      || (is_set h.spec.agent.tls.certificate && is_set h.spec.agent.tls.key)

  abbrev pub tls_secret_name : String
  tls_secret_name = get_or_default (optional_of h.spec.agent.tls.secret_name) (h.name <> "-tls")

  abbrev pub headless_service_name : String
  headless_service_name = h.name <> "-headless"

  abbrev pub k8s_sensor_resources_name : String
  k8s_sensor_resources_name = h.name <> "-k8sensor"

  abbrev pub containers_secret_name : String
  containers_secret_name = h.name <> "-containers-instana-io"

  abbrev pub use_containers_secret : Bool
  use_containers_secret = elim h.spec.agent.pull_secrets [
    | none ↦ starts_with h.spec.agent.image.name containers_instana_io_registry
    | some _ ↦ false
  ]

  -- a slice that may be nil is read as empty
  abbrev pub image_pull_secrets : List String
  image_pull_secrets =
      if use_containers_secret
      then containers_secret_name ∷ []
      else elim h.spec.agent.pull_secrets [ none ↦ [] | some secrets ↦ secrets ]
