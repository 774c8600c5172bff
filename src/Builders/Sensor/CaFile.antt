-- ===== src/Builders/Sensor/CaFile.antt =====
-- The variable ETCD_CA_FILE when a CA was discovered.
use instana_agent_operator.Prelude.{
  String, ◌≡◌, refl, ap, ◌∙◌, true, false, none, some, List, [], ◌∷◌, Memᴰ, Mem-append_right,
  Mem-append_left, arith,
}
use mathlib.Core.Path.{subst, sym}
use instana_agent_operator.Prelude.Text.{◌<>◌}
use instana_agent_operator.Prelude.Sort.{Mem-sort_by_iff}
use instana_agent_operator.Agent.{InstanaAgent}
use instana_agent_operator.Builders.{CoreEnvVar}
use instana_agent_operator.Builders.EtcdNames.{env_etcd_ca_file, etcd_ca_mount_path}
use instana_agent_operator.Builders.Helpers.{is_set}
use instana_agent_operator.Builders.Env.{build_env_var, value_of}
use instana_agent_operator.Builders.Env.Vars.{built, plain_env_var, etcd_ca_file_env}
use instana_agent_operator.Builders.Sensor.{
  DeploymentBuilder, DeploymentContext, get_env_vars, etcd_env_vars, env_vars_to_include,
  common_env_vars, discovered_env_vars,
}
use instana_agent_operator.Prelude.{some-injective, ◌++◌}
use instana_agent_operator.Builders.Env.Lacks.{build_env-Mem}
use instana_agent_operator.Builders.Sensor.Env.{get_env_vars-parts}
use instana_agent_operator.Builders.Sensor.Targets.{etcd-Mem, discovered-parts}

built-ca_file :
    (a : InstanaAgent)
    → is_set a.spec.k8s_sensor.etcd.ca.mount_path ≡ true
    → build_env_var a none etcd_ca_file_env
      ≡ built (plain_env_var env_etcd_ca_file (a.spec.k8s_sensor.etcd.ca.mount_path <> "/ca.crt"))
unfolding build_env_var value_of
built-ca_file a h = ground (arith, h)

included-ca_file :
    (d : DeploymentBuilder)
    → d.is_open_shift ≡ false
    → Memᴰ etcd_ca_file_env (env_vars_to_include d)
included-ca_file d h =
    rw h (Mem-append_right common_env_vars (etcd_ca_file_env ∷ []) (Memᴰ.head refl))

vanilla_case :
    (d : DeploymentBuilder)
    → d.is_open_shift ≡ false
    → etcd_env_vars d
      ≡ discovered_env_vars d.instana_agent.spec.k8s_sensor.etcd.targets d.deployment_context
unfolding etcd_env_vars
vanilla_case d h = rw h refl

vanilla_env_vars :
    (d : DeploymentBuilder) (context : DeploymentContext)
    → d.is_open_shift ≡ false
    → d.deployment_context ≡ some context
    → d.instana_agent.spec.k8s_sensor.etcd.targets ≡ []
    → etcd_env_vars d ≡ discovered_env_vars [] (some context)
vanilla_env_vars d context vanilla there own =
    vanilla_case d vanilla
    ∙ ap (λ l. discovered_env_vars l d.deployment_context) own
    ∙ ap (discovered_env_vars []) there

discovered-ca_file :
    (d : DeploymentBuilder) (context : DeploymentContext) (t : String) (ts : List String)
    → d.is_open_shift ≡ false
    → d.deployment_context ≡ some context
    → d.instana_agent.spec.k8s_sensor.etcd.targets ≡ []
    → context.discovered_etcd_targets ≡ t ∷ ts
    → is_set context.etcd_ca_secret_name ≡ true
    → Memᴰ (plain_env_var env_etcd_ca_file (etcd_ca_mount_path <> "/ca.crt")) (etcd_env_vars d)
discovered-ca_file d context t ts vanilla there own found ca =
    rw (vanilla_env_vars d context vanilla there own, discovered-parts context t ts found, ca)
      (Memᴰ.tail (Memᴰ.head refl))

-- On a cluster that is not OpenShift, if etcd.ca.mountPath is set, as after `Default`, targets were
-- discovered with a CA secret, and the resource names no targets, the environment has ETCD_CA_FILE
-- with a file under the mount path and also with the file of the discovered CA.
pub get_env_vars-two_ca_files :
    (d : DeploymentBuilder) (context : DeploymentContext) (t : String) (ts : List String)
    (es : List CoreEnvVar)
    → d.is_open_shift ≡ false
    → d.deployment_context ≡ some context
    → d.instana_agent.spec.k8s_sensor.etcd.targets ≡ []
    → context.discovered_etcd_targets ≡ t ∷ ts
    → is_set context.etcd_ca_secret_name ≡ true
    → is_set d.instana_agent.spec.k8s_sensor.etcd.ca.mount_path ≡ true
    → get_env_vars d ≡ some es
    → Memᴰ
        (plain_env_var env_etcd_ca_file
          (d.instana_agent.spec.k8s_sensor.etcd.ca.mount_path <> "/ca.crt"))
        es
      × Memᴰ (plain_env_var env_etcd_ca_file (etcd_ca_mount_path <> "/ca.crt")) es
get_env_vars-two_ca_files d context t ts es vanilla there own found ca mounted made =
    let (backend, common, _, c, parts) = get_env_vars-parts d in
    let own_file : CoreEnvVar =
      plain_env_var env_etcd_ca_file
        (d.instana_agent.spec.k8s_sensor.etcd.ca.mount_path <> "/ca.crt") in
    let first =
      build_env-Mem d.instana_agent none etcd_ca_file_env (env_vars_to_include d) _ common
        (included-ca_file d vanilla) (built-ca_file d.instana_agent mounted) c in
    (
      subst (λ l. Memᴰ own_file l) (some-injective (sym parts ∙ made))
          ((Mem-sort_by_iff (λ (x : CoreEnvVar). x.name) own_file
              (backend ++ common ++ etcd_env_vars d)).1
            (Mem-append_left (backend ++ common) _ (Mem-append_right backend _ first))),
      etcd-Mem d es _ made (discovered-ca_file d context t ts vanilla there own found ca),
    )
