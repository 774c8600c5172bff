-- ===== src/Builders/Configs/Lines.antt =====
-- The lines of the file of a backend.
use instana_agent_operator.Prelude.{
  String, ◌≡◌, ◌≢◌, true, [], ◌∷◌, Memᴰ, ◌==◌, string_comparable, if◌then◌else◌,
}
use instana_agent_operator.Prelude.Text.{◌<>◌}
use instana_agent_operator.Agent.{InstanaAgent}
use instana_agent_operator.Builders.Secrets.{K8SensorBackend}

abbrev pub or_default : String → String → String
or_default value fallback = if value == "" then fallback else value

-- The lines of a backend's file, each group under its condition.
abbrev pub IsBaseLine : K8SensorBackend → String → String → Type 0
IsBaseLine b key line = Memᴰ line (
    ("host" <> "=" <> b.endpoint_host)
    ∷ ("port" <> "=" <> or_default b.endpoint_port "443")
    ∷ "protocol=HTTP/2"
    ∷ ("key" <> "=" <> key)
    ∷ [])

abbrev pub IsProxyLine : InstanaAgent → String → Type 0
IsProxyLine c line =
    let a = c.spec.agent in
    (a.proxy_host ≢ "")
    × Memᴰ line (
        ("proxy.type" <> "=" <> or_default a.proxy_protocol "HTTP")
        ∷ ("proxy.host" <> "=" <> a.proxy_host)
        ∷ ("proxy.port" <> "=" <> or_default a.proxy_port "80")
        ∷ [])

abbrev pub IsDnsLine : InstanaAgent → String → Type 0
IsDnsLine c line = (c.spec.agent.proxy_use_dns ≡ true) × (line ≡ "proxy.dns=true")

abbrev pub IsUserLine : InstanaAgent → String → Type 0
IsUserLine c line =
    let a = c.spec.agent.credentials in
    ((a.proxy_user ≢ "") × (a.proxy_password ≢ ""))
    × Memᴰ line
        (("proxy.user" <> "=" <> a.proxy_user) ∷ ("proxy.password" <> "=" <> a.proxy_password) ∷ [])
