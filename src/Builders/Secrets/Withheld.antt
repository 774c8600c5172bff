-- ===== src/Builders/Secrets/Withheld.antt =====
-- What the environment builder withholds when secrets are mounted is in the Secret of
-- agent/secrets/keys-secret/secret.go.
use instana_agent_operator.Prelude.{
  String, Option, none, some, ◌==◌, string_comparable, if◌then◌else◌,
}
use instana_agent_operator.Prelude.Text.{◌<>◌}
use instana_agent_operator.Optional.{string_zero}
use instana_agent_operator.Builders.Helpers.{is_set}
use instana_agent_operator.Agent.{InstanaAgent}
use instana_agent_operator.Builders.{CoreEnvVar}
use instana_agent_operator.Builders.Env.Vars.{EnvVar, https_proxy_env}
use instana_agent_operator.Builders.Secrets.{UrlString}

abbrev pub or_default : String → String → String
or_default value fallback = if value == "" then fallback else value

-- the user of a URL, if there is a user and a password
abbrev pub url_user : String → String → Option (String × String)
url_user user password =
    if user == "" then none else if password == "" then none else some (user, password)

abbrev set_user : String → String → Option (String × String)
set_user user password =
    if is_set user then (if is_set password then some (user, password) else none) else none

module _ (url_string : UrlString) (s : InstanaAgent) where
  -- the URL of the proxy as net/url writes it, with the user if there is a user and a password
  abbrev pub proxy_url : String
  proxy_url =
      let a = s.spec.agent in
      let c = a.credentials in
      url_string (or_default a.proxy_protocol "http")
        (a.proxy_host <> ":" <> or_default a.proxy_port "80")
        (url_user c.proxy_user c.proxy_password)

  -- The content of the file for a variable: the URL for HTTPS_PROXY, else the variable's value.
  abbrev pub file_value : EnvVar → CoreEnvVar → String
  file_value https_proxy_env e = proxy_url
  file_value _ e = e.value
