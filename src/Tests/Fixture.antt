-- ===== src/Tests/Fixture.antt =====
-- A small API server whose world is a clock, and objects for it.
use instana_agent_operator.Prelude.{
  ℕ, ◌+◌, String, Bool, false, Option, none, some, [], ◌∷◌, ◌==◌, string_comparable, arith,
  if◌then◌else◌,
}
use instana_agent_operator.Errors.{Error, ext}
use instana_agent_operator.Kube.{GroupVersionKind, Object, Unstructured, bare_object}
use instana_agent_operator.Kube.Api.{Server, Cluster}
use instana_agent_operator.Kube.Client.{Context, InstanaAgentClient, new_instana_agent_client}
use instana_agent_operator.Kube.Client.Terminates.{KeepsTime}
use instana_agent_operator.Kube.Client.Promises.{KeepsPromises, client-KeepsPromises}
use instana_agent_operator.Lifecycle.{DependentLifecycleManager, Codec}
use instana_agent_operator.Transform.{AgentMeta, Transformations, new_transformations}

abbrev pub is_named : String → Error → Bool
is_named name (ext s) = s == name
is_named name _ = false

abbrev pub deployment_gvk : GroupVersionKind
deployment_gvk = record { group = "apps"; version = "v1"; kind = "Deployment" }

-- a dependent of an older generation
abbrev pub old_dependent : Unstructured
old_dependent = record { gvk = deployment_gvk; name = "old"; namespace = "ns"; other_content = "" }

abbrev pub current_object : Object
current_object = bare_object deployment_gvk "new" "ns"

abbrev pub stored_config_map : Object
stored_config_map = record {
  gvk = record { group = ""; version = "v1"; kind = "ConfigMap" };
  name = "agent-dependents";
  namespace = "ns";
  resource_version = "7";
  labels = none;
  annotations = none;
  owner_references = [];
  managed_fields = [];
  payload = some (("v1_1", "[old]") ∷ []);
  secret_type = "";
}

-- Reads find the ConfigMap and nothing else; applies get the given answer.
abbrev pub server_with : Option Error → Server ℕ
server_with answer = record {
  apply = λ dry o w. (answer, o, w);
  delete = λ gvk key w. (none, w);
  get = λ gvk key w.
      if gvk.kind == "ConfigMap"
      then (none, stored_config_map, w)
      else (some (ext "NotFound"), bare_object gvk key.name key.namespace, w);
  patch = λ o w. (none, w);
  is_not_found = is_named "NotFound";
  is_conflict = is_named "Conflict";
  now = λ w. w;
  sleep = λ d w. w + d;
  message = λ e. "";
}

abbrev pub server : Server ℕ
server = server_with none

pub server-KeepsTime : (answer : Option Error) → KeepsTime (server_with answer)
server-KeepsTime answer = record {
  delete_later = λ gvk key w. omega arith;
  get_later = λ gvk key w. ground arith;
  sleep_later = λ d w. omega arith;
}

abbrev pub background : Context ℕ
background w = none

abbrev pub client_of : Option Error → InstanaAgentClient ℕ
client_of answer = new_instana_agent_client (server_with answer) background

pub client_of-KeepsPromises : (answer : Option Error) → KeepsPromises (client_of answer)
client_of-KeepsPromises answer =
    client-KeepsPromises (server_with answer) (server-KeepsTime answer) background

abbrev pub start : Cluster ℕ
start = record { world = 0; calls = [] }

abbrev pub agent : AgentMeta
agent = record {
  api_version = "instana.io/v1";
  kind = "InstanaAgent";
  name = "agent";
  namespace = "ns";
  uid = "u1";
  generation = 2;
}

-- a codec that knows one list
abbrev pub codec : Codec
codec = record {
  marshal = λ us. "[new]";
  unmarshal = λ s. if s == "[old]" then old_dependent ∷ [] else [];
}

abbrev pub transformations : Transformations
transformations = new_transformations "v1" agent

abbrev pub manager_of : Option Error → DependentLifecycleManager ℕ
manager_of answer = record {
  server = server_with answer;
  client = client_of answer;
  json = codec;
  agent = agent;
  transformations = transformations;
}

abbrev pub manager : DependentLifecycleManager ℕ
manager = manager_of none
