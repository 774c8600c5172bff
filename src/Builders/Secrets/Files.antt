-- ===== src/Builders/Secrets/Files.antt =====
-- The entries of the Secret of agent/secrets/keys-secret/secret.go, and the files for the usernames
-- and passwords that are kept out of the environment.
use instana_agent_operator.Prelude.{
  String, ◌≡◌, ◌≢◌, refl, Bool, ◌&&◌, true, Option, none, some, List, [], ◌∷◌, ◌==◌, All,
  string_comparable, arith, eq_iff, if◌then◌else◌,
}
use instana_agent_operator.Prelude.Dict.{Dict, insert, lookup, lookup-insert}
use instana_agent_operator.Prelude.Text.{◌<>◌}
use instana_agent_operator.Optional.{if_present, is_present, is_not_present, string_zero}
use instana_agent_operator.Agent.{InstanaAgent}
use instana_agent_operator.Builders.{
  CoreEnvVar, agent_key, secret_file_agent_key, secret_file_https_proxy, secret_file_download_key,
  secret_file_proxy_user, download_key_name, secret_file_proxy_password,
  secret_file_mirror_release_repo_username, secret_file_mirror_release_repo_password,
  secret_file_mirror_shared_repo_username, secret_file_mirror_shared_repo_password,
}
use instana_agent_operator.Builders.Helpers.{is_set}
use instana_agent_operator.Builders.Env.{value_of}
use instana_agent_operator.Builders.Env.Vars.{
  built, proxy_user_env, proxy_password_env, mirror_release_repo_username_env,
  mirror_release_repo_password_env, mirror_shared_repo_username_env,
  mirror_shared_repo_password_env,
}
use instana_agent_operator.Builders.Secrets.{
  K8SensorBackend, UrlString, writes_files, write_file, https_proxy_data, proxy_value,
  download_key_data, credential_data, backend_data, backends_data,
}

-- the entry `k` after `file` was written with `value`, if `written` says so
abbrev entry : Bool → String → String → String → Option String → Option String
entry written file value k before =
    if written then (if file == k then some value else before) else before

lookup-write_file :
    (on : Bool) (file value k : String) (m : Dict String)
    → lookup k (write_file on file value m) ≡ entry (on && is_set value) file value k (lookup k m)
unfolding write_file if_present is_present is_not_present
lookup-write_file on file value k m = ground (arith, lookup-insert file k value m)

module _ (url_string : UrlString) (s : InstanaAgent) where
  lookup-https_proxy_data :
      (k : String) (m : Dict String)
      → lookup k (https_proxy_data url_string s m)
        ≡ entry
            (writes_files s && is_set s.spec.agent.proxy_host)
            secret_file_https_proxy
            (proxy_value url_string s)
            k
            (lookup k m)
  unfolding https_proxy_data
  lookup-https_proxy_data k m =
      ground (arith, lookup-insert secret_file_https_proxy k (proxy_value url_string s) m)

  lookup-download_key_data :
      (k : String)
      → lookup k (download_key_data url_string s [])
        ≡ entry
            (writes_files s && is_set s.spec.agent.credentials.download_key)
            secret_file_download_key
            s.spec.agent.credentials.download_key
            k
            (entry
              (is_set s.spec.agent.credentials.download_key)
              download_key_name
              s.spec.agent.credentials.download_key
              k
              none)
  unfolding download_key_data if_present is_present is_not_present lookup
  lookup-download_key_data k =
      let key = s.spec.agent.credentials.download_key in
      ground (
        arith,
        lookup-insert secret_file_download_key k key (insert download_key_name key []),
        lookup-insert download_key_name k key [],
      )

  -- What the Secret holds beside the keys of the backends, for every key `k`.
  pub lookup-credential_data :
      (k : String)
      → lookup k (credential_data url_string s) ≡ (
          let c = s.spec.agent.credentials in
          let file : String → String → Option String → Option String =
            λ name value before. entry (writes_files s && is_set value) name value k before in
          entry
            (writes_files s && is_set s.spec.agent.proxy_host)
            secret_file_https_proxy
            (proxy_value url_string s)
            k
            (file secret_file_mirror_shared_repo_password c.mirror_shared_repo_password (
              file secret_file_mirror_shared_repo_username c.mirror_shared_repo_username (
                file secret_file_mirror_release_repo_password c.mirror_release_repo_password (
                  file secret_file_mirror_release_repo_username c.mirror_release_repo_username (
                    file secret_file_proxy_password c.proxy_password (
                      file secret_file_proxy_user c.proxy_user (
                        file secret_file_download_key c.download_key (
                          entry
                            (is_set c.download_key)
                            download_key_name
                            c.download_key
                            k
                            none)))))))))
  unfolding credential_data
  lookup-credential_data k =
      simp (lookup-https_proxy_data, lookup-write_file, lookup-download_key_data)

  -- the keys that a backend writes are not `k`
  abbrev pub IsFree : String → K8SensorBackend → Type 0
  IsFree k b =
      (agent_key <> b.resource_suffix ≢ k) × (secret_file_agent_key <> b.resource_suffix ≢ k)

  lookup-backend_data :
      (k : String) (b : K8SensorBackend) (m : Dict String)
      → IsFree k b
      → lookup k (backend_data url_string s b m) ≡ lookup k m
  unfolding backend_data if_present is_present is_not_present
  lookup-backend_data k b m (f, g) =
      let key = agent_key <> b.resource_suffix in
      let file = secret_file_agent_key <> b.resource_suffix in
      ground (
        arith,
        eq_iff key k,
        eq_iff file k,
        f,
        g,
        lookup-insert key k b.endpoint_key m,
        lookup-insert file k b.endpoint_key (insert key b.endpoint_key m),
      )

  pub lookup-backends_data :
      (k : String) (bs : List K8SensorBackend) (m : Dict String)
      → All (IsFree k) bs
      → lookup k (backends_data url_string s bs m) ≡ lookup k m
  unfolding backends_data
  lookup-backends_data k [] m h = refl
  lookup-backends_data k (b ∷ bs) m (f, h) =
      rw (lookup-backends_data k bs (backend_data url_string s b m) h) (lookup-backend_data k b m f)

  -- `value` is in the file `name`
  abbrev pub HasFile : CoreEnvVar → Type 0
  HasFile e = lookup e.name (credential_data url_string s) ≡ some e.value

  pub HasFile-proxy_user :
      (e : CoreEnvVar)
      → writes_files s ≡ true
      → value_of s none proxy_user_env ≡ built e
      → HasFile e
  unfolding value_of
  HasFile-proxy_user e on h = ground (arith, on, h, lookup-credential_data secret_file_proxy_user)

  pub HasFile-proxy_password :
      (e : CoreEnvVar)
      → writes_files s ≡ true
      → value_of s none proxy_password_env ≡ built e
      → HasFile e
  unfolding value_of
  HasFile-proxy_password e on h =
      ground (arith, on, h, lookup-credential_data secret_file_proxy_password)

  pub HasFile-mirror_release_repo_username :
      (e : CoreEnvVar)
      → writes_files s ≡ true
      → value_of s none mirror_release_repo_username_env ≡ built e
      → HasFile e
  unfolding value_of
  HasFile-mirror_release_repo_username e on h =
      ground (arith, on, h, lookup-credential_data secret_file_mirror_release_repo_username)

  pub HasFile-mirror_release_repo_password :
      (e : CoreEnvVar)
      → writes_files s ≡ true
      → value_of s none mirror_release_repo_password_env ≡ built e
      → HasFile e
  unfolding value_of
  HasFile-mirror_release_repo_password e on h =
      ground (arith, on, h, lookup-credential_data secret_file_mirror_release_repo_password)

  pub HasFile-mirror_shared_repo_username :
      (e : CoreEnvVar)
      → writes_files s ≡ true
      → value_of s none mirror_shared_repo_username_env ≡ built e
      → HasFile e
  unfolding value_of
  HasFile-mirror_shared_repo_username e on h =
      ground (arith, on, h, lookup-credential_data secret_file_mirror_shared_repo_username)

  pub HasFile-mirror_shared_repo_password :
      (e : CoreEnvVar)
      → writes_files s ≡ true
      → value_of s none mirror_shared_repo_password_env ≡ built e
      → HasFile e
  unfolding value_of
  HasFile-mirror_shared_repo_password e on h =
      ground (arith, on, h, lookup-credential_data secret_file_mirror_shared_repo_password)
