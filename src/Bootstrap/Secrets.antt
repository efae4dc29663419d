-- ===== src/Bootstrap/Secrets.antt =====
-- What the reconciler of an OpenshiftAssistedConfig fetches and creates: the InfraEnv, the
-- ClusterDeployment, the AgentClusterInstall, the ignition and its secret; and how they go.
-- From bootstrap/internal/controller/openshiftassistedconfig_controller.go. The local object is
-- the configuration.
pub mod Deletion
use cluster_api_agent.Prelude.{
  ℕ, String, Bool, ◌==◌, ◌&&◌, ◌<>◌, List, [], ◌∷◌, Option, none, some, lookup, is_nil, is_some,
  nat_eq, if◌then◌else◌,
}
use cluster_api_agent.Kube.Errors.{Err, Outcome, ok, exit, error, wrap, not_found, has_reason}
use cluster_api_agent.Kube.Meta.{Key, ObjectReference, no_type, named, ObjectMeta}
use cluster_api_agent.Kube.Objects.{
  AgentClusterInstall, ClusterDeployment, InfraEnv, Machine, Secret,
}
use cluster_api_agent.Kube.Kinds.{
  Kind, agent, agent_cluster_install, cluster_deployment, infra_env, secret,
}
use cluster_api_agent.Kube.Api.{
  Api, Exec, ConfigOwner, HttpResponse, pure, fail, lift, catch, attempt, read, modify, ◌>>=◌, ◌>>◌,
}
use cluster_api_agent.Kube.Calls.{get, list, create, delete, http_get}
use cluster_api_agent.Kube.Library.{Library, owned_by}
use cluster_api_agent.AssistedInstaller.{
  ServiceConfig, Urls, get_infra_env_from_config, get_ignition_url_from_infra_env,
}
use cluster_api_agent.Bootstrap.Types.{OpenshiftAssistedConfig}
use cluster_api_agent.ControlPlane.Common.{cluster_name_label, machine_control_plane_label}

abbrev pub Action : Type 0 → Type 0
Action A = Exec OpenshiftAssistedConfig Err A

abbrev pub openshift_assisted_config_finalizer : String
openshift_assisted_config_finalizer =
    "openshiftassistedconfig.bootstrap.cluster.x-k8s.io/deprovision"

-- One InfraEnv for each machine.
abbrev pub get_infra_env_name : Machine → String
get_infra_env_name m = m.meta.name

abbrev or_literal : InfraEnv → Outcome Err InfraEnv → InfraEnv
or_literal literal (ok env) = env
or_literal literal (exit e) = literal

abbrev set_infra_env_ref :
    Option ObjectReference → OpenshiftAssistedConfig → OpenshiftAssistedConfig
set_infra_env_ref ref config = record config {
  status = record config.status { infra_env_ref = ref };
}

abbrev clear_agent_ref : OpenshiftAssistedConfig → OpenshiftAssistedConfig
clear_agent_ref config = record config { status = record config.status { agent_ref = none } }

module _ (api : Api) (lib : Library) where
  -- An error of Create is logged only.
  unfoldable pub ensure_infra_env : Machine → ClusterDeployment → Action Unit
  ensure_infra_env m cd = do
    config ← read
    if get_infra_env_name m == ""
        then fail
            (error ("no infraenv name for machine " <> m.meta.namespace <> "/" <> m.meta.name))
        else (do
          let literal = get_infra_env_from_config (get_infra_env_name m) config cd
          let owned = owned_by lib m.meta (owned_by lib config.meta literal.meta)
          let env = record literal { meta = owned }
          created ← attempt {E = Err} (create api infra_env env)
          if is_some config.status.infra_env_ref then pure tt else (do
            let kept = or_literal env created
            ref ← lift (lib.get_reference kept.type_meta kept.meta)
            modify (set_infra_env_ref (some ref))))

  unfoldable pub get_agent_cluster_install : ClusterDeployment → Action AgentClusterInstall
  get_agent_cluster_install cd = elim cd.cluster_install_ref [
    | none ↦ fail (error "cluster deployment does not reference ACI")
    | some ref ↦
        get api agent_cluster_install (record { namespace = cd.meta.namespace; name = ref.name })
  ]

  only_one : List ClusterDeployment → Outcome Err ClusterDeployment
  only_one (cd ∷ []) = ok cd
  only_one _ = exit (error "found more or less than 1 cluster deployments. exactly one is needed")

  unfoldable pub get_cluster_deployment : String → Action ClusterDeployment
  unfolding only_one
  get_cluster_deployment cluster_name = do
    cds ←
        list api cluster_deployment (record {
          namespace = none;
          labels = (cluster_name_label, cluster_name) ∷ [];
          fields = [];
        })
    lift (only_one cds)

  user_data_secret : OpenshiftAssistedConfig → String → ObjectMeta → Secret
  user_data_secret config ignition m = record {
    type_meta = no_type;
    meta = m;
    contents = ("value", ignition) ∷ ("format", "ignition") ∷ [];
    secret_type = "cluster.x-k8s.io/secret";
  }

  -- A secret that is there is taken as it is.
  unfoldable pub create_user_data_secret : String → Action Secret
  unfolding user_data_secret
  create_user_data_secret ignition = do
    config ← read
    found ←
        attempt
          (get api secret (record { namespace = config.meta.namespace; name = config.meta.name }))
    elim found [
      | ok s ↦ pure s
      | exit e ↦
          if has_reason not_found e
          then (do
            owned ←
                lift (
                  lib.set_owner_reference config.meta
                    (named config.meta.name config.meta.namespace))
            create api secret (user_data_secret config ignition owned))
          else fail e
    ]

  delete_if_there : Kind → Key → Action Unit
  delete_if_there k key =
      catch (delete api k key) (λ e. if has_reason not_found e then pure tt else fail e)

  delete_agent : OpenshiftAssistedConfig → Action Unit
  unfolding delete_if_there
  delete_agent config = elim config.status.agent_ref [
    | none ↦ pure tt
    | some ref ↦ (do
      delete_if_there agent (record { namespace = config.meta.namespace; name = ref.name })
      modify clear_agent_ref)
  ]

  delete_infra_env : OpenshiftAssistedConfig → Action Unit
  unfolding delete_if_there
  delete_infra_env config = elim config.status.infra_env_ref [
    | none ↦ pure tt
    | some ref ↦ (do
      delete_if_there infra_env (record { namespace = config.meta.namespace; name = ref.name })
      modify (set_infra_env_ref none))
  ]

  unfoldable pub handle_deletion : ConfigOwner → Action Unit
  unfolding delete_agent delete_infra_env
  handle_deletion owner = do
    config ← read
    if lib.contains_finalizer config.meta openshift_assisted_config_finalizer
        then (if is_some (lookup machine_control_plane_label config.meta.labels)
              && is_nil owner.meta.deletion_timestamp
            then fail
                (error "agent bootstrap config belongs to control plane that's not being deleted")
            else (do
              delete_agent config
              delete_infra_env config
              modify (λ c. record c {
                meta = lib.remove_finalizer c.meta openshift_assisted_config_finalizer;
              })))
        else pure tt

module _ (api : Api) (urls : Urls) (decimal : ℕ → String) (config : ServiceConfig)
    (http_client : Bool) where
  read_response : String → HttpResponse → Outcome Err String
  read_response url response =
      if nat_eq response.status_code 200
      then response.body
      else exit (
          error
            ("ignition request to " <> url <> " returned status " <> decimal response.status_code))

  unfoldable pub get_ignition_bytes : String → Action String
  unfolding read_response
  get_ignition_bytes ignition_url = do
    url ← lift (urls.new_request ignition_url)
    if http_client
        then (do response ← http_get api url; lift (read_response url response))
        else fail (error "http client not initialized")

  unfoldable pub get_ignition : Machine → Action String
  unfolding get_ignition_bytes
  get_ignition m = do
    env ← get api infra_env (record { namespace = m.meta.namespace; name = get_infra_env_name m })
    url ←
        catch (lift (get_ignition_url_from_infra_env urls config env))
          (λ e. fail (wrap "error while retrieving ignitionURL: " e))
    get_ignition_bytes (urls.print url)
