-- ===== src/Builders/Secrets.antt =====
-- common/backends, `getK8SensorBackends` of controllers/util.go, and the data of the Secret with the
-- keys, agent/secrets/keys-secret/secret.go.
pub mod Files
pub mod Withheld
pub mod Items
use instana_agent_operator.Prelude.{
  ℕ, suc, String, Bool, true, Option, none, some, List, [], ◌∷◌, if◌then◌else◌,
}
use instana_agent_operator.Prelude.Dict.{Dict, insert}
use instana_agent_operator.Prelude.Text.{◌<>◌, itoa}
use instana_agent_operator.Optional.{
  optional_of, get_or_default, if_present, string_zero, bool_zero, deref_or_empty,
}
use instana_agent_operator.Agent.{InstanaAgent, BackendSpec}
use instana_agent_operator.Builders.{
  agent_key, download_key_name, secret_file_agent_key, secret_file_download_key,
  secret_file_proxy_user, secret_file_proxy_password, secret_file_mirror_release_repo_username,
  secret_file_mirror_release_repo_password, secret_file_mirror_shared_repo_username,
  secret_file_mirror_shared_repo_password, secret_file_https_proxy,
}
use instana_agent_operator.Builders.Helpers.{is_set}

pub record K8SensorBackend : Type 0 where
  pub resource_suffix : String
  pub endpoint_key : String
  pub download_key : String
  pub endpoint_host : String
  pub endpoint_port : String

-- the loop over the additional backends, from index `i`
abbrev additional_backends_from : ℕ → List BackendSpec → List K8SensorBackend
additional_backends_from i [] = []
additional_backends_from i (b ∷ bs) =
    record {
      resource_suffix = "-" <> itoa (suc i);
      endpoint_key = b.key;
      download_key = "";
      endpoint_host = b.endpoint_host;
      endpoint_port = b.endpoint_port;
    }
    ∷ additional_backends_from (suc i) bs

unfoldable pub get_k8_sensor_backends : InstanaAgent → List K8SensorBackend
get_k8_sensor_backends a =
    record {
      resource_suffix = "";
      endpoint_key = a.spec.agent.credentials.key;
      download_key = a.spec.agent.credentials.download_key;
      endpoint_host = a.spec.agent.endpoint_host;
      endpoint_port = a.spec.agent.endpoint_port;
    }
    ∷ additional_backends_from 0 a.spec.agent.additional_backends

-- url.URL of net/url and its `String`: the scheme, the host, and the user with the password
abbrev pub UrlString : Type 0
UrlString = String → String → Option (String × String) → String

-- s.Spec.UseSecretMounts != nil && *s.Spec.UseSecretMounts
abbrev pub writes_files : InstanaAgent → Bool
writes_files s = deref_or_empty s.spec.use_secret_mounts

-- the callback of `IfPresent` that only writes a file
unfoldable pub write_file : Bool → String → String → Dict String → Dict String
write_file on file value data' =
    if_present (optional_of value) (λ v d. if on then insert file v d else d) data'

module _ (url_string : UrlString) (s : InstanaAgent) where
  -- the value of HTTPS_PROXY
  abbrev pub proxy_value : String
  proxy_value =
      let credentials = s.spec.agent.credentials in
      url_string (get_or_default (optional_of s.spec.agent.proxy_protocol) "http")
        (s.spec.agent.proxy_host
          <> ":"
          <> get_or_default (optional_of s.spec.agent.proxy_port) "80")
        (if is_set credentials.proxy_user
          then (if is_set credentials.proxy_password
              then some (credentials.proxy_user, credentials.proxy_password)
              else none)
          else none)

  -- the download key, under its name and as a file
  unfoldable pub download_key_data : Dict String → Dict String
  download_key_data data' =
      if_present (optional_of s.spec.agent.credentials.download_key)
        (λ key d.
          let d' = insert download_key_name key d in
          if writes_files s then insert secret_file_download_key key d' else d')
        data'

  -- HTTPS_PROXY
  unfoldable pub https_proxy_data : Dict String → Dict String
  https_proxy_data data' =
      if is_set s.spec.agent.proxy_host
      then (if writes_files s then insert secret_file_https_proxy proxy_value data' else data')
      else data'

  -- everything but the backends' keys
  unfoldable pub credential_data : Dict String
  credential_data =
      let c = s.spec.agent.credentials in
      let on = writes_files s in
      let d1 = download_key_data [] in
      let d2 = write_file on secret_file_proxy_user c.proxy_user d1 in
      let d3 = write_file on secret_file_proxy_password c.proxy_password d2 in
      let d4 =
        write_file on secret_file_mirror_release_repo_username c.mirror_release_repo_username d3 in
      let d5 =
        write_file on secret_file_mirror_release_repo_password c.mirror_release_repo_password d4 in
      let d6 =
        write_file on secret_file_mirror_shared_repo_username c.mirror_shared_repo_username d5 in
      let d7 =
        write_file on secret_file_mirror_shared_repo_password c.mirror_shared_repo_password d6 in
      https_proxy_data d7

  -- the body of the loop over the backends
  unfoldable pub backend_data : K8SensorBackend → Dict String → Dict String
  unfolding if_present
  backend_data backend data' =
      if_present (optional_of backend.endpoint_key)
        (λ key d.
          let d' = insert (agent_key <> backend.resource_suffix) key d in
          if writes_files s
          then insert (secret_file_agent_key <> backend.resource_suffix) key d'
          else d')
        data'

  unfoldable pub backends_data : List K8SensorBackend → Dict String → Dict String
  backends_data [] data' = data'
  backends_data (b ∷ bs) data' = backends_data bs (backend_data b data')

  -- `getData`
  unfoldable pub get_data : List K8SensorBackend → Dict String
  get_data backends = backends_data backends credential_data
