-- ===== src/Tests/Configs.antt =====
-- The configuration of the agent for two backends.
use instana_agent_operator.Prelude.{String, ◌≡◌, ◌↔◌, refl, some, List, [], ◌∷◌, ◌++◌, ◌+◌, length}
use instana_agent_operator.Prelude.Dict.{lookup, insert}
use instana_agent_operator.Prelude.Text.{◌<>◌, itoa, join}
use instana_agent_operator.Kube.{Object, bare_object}
use instana_agent_operator.Builders.Secrets.{K8SensorBackend}
use instana_agent_operator.Builders.Configs.{
  backend_key, backend_file, backend_content, enumerate_from, add_backend, backend_config,
}
use instana_agent_operator.Builders.Configs.Names.{HasKey, backend_config_iff}
use instana_agent_operator.Tests.Sample.{resource}

-- the Secret of the keys, which was not read
abbrev no_secret : Object
no_secret = bare_object (record { group = ""; version = "v1"; kind = "Secret" }) "" ""

abbrev second_backend : K8SensorBackend
second_backend = record {
  resource_suffix = "-1";
  endpoint_key = "k2";
  download_key = "";
  endpoint_host = "other";
  endpoint_port = "";
}

abbrev backends : List K8SensorBackend
backends =
    record {
      resource_suffix = "";
      endpoint_key = "";
      download_key = "";
      endpoint_host = "host";
      endpoint_port = "443";
    }
    ∷ second_backend
    ∷ []

abbrev second_file : String
second_file = "com.instana.agent.main.sender.Backend-2.cfg"

abbrev second_content : String
second_content =
    "host=other\nport=443\nprotocol=HTTP/2\nkey=k2\nproxy.type=HTTP\nproxy.host=proxy\nproxy.port=80\nproxy.user=user\nproxy.password=secret\n"

content_test : lookup second_file (backend_config resource no_secret backends) ≡ some second_content
unfolding backend_config enumerate_from add_backend backend_key backend_file backend_content insert
    lookup itoa join
content_test = refl

backend_config_iff_example :
    ((content : String) × (lookup second_file (backend_config resource no_secret backends)
        ≡ some content))
    ↔ ((before : List K8SensorBackend) × (b : K8SensorBackend) × (after : List K8SensorBackend)
        × (key : String) × (backends ≡ before ++ b ∷ after)
        × HasKey no_secret b key
        × (second_file
            ≡ "com.instana.agent.main.sender.Backend-" <> itoa (length before + 1) <> ".cfg"))
backend_config_iff_example = backend_config_iff resource no_secret backends second_file
