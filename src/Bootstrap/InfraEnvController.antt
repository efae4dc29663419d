-- ===== src/Bootstrap/InfraEnvController.antt =====
-- bootstrap/internal/controller/infraenv_controller.go: the URL of the live ISO goes from an
-- InfraEnv to the configurations that refer to it. The local object is the service configuration,
-- whose namespace the reconciler fills in.
pub mod Attach
use cluster_api_agent.Prelude.{
  ℕ, String, ◌==◌, ◌<>◌, List, [], ◌∷◌, Option, none, some, if◌then◌else◌,
}
use cluster_api_agent.Kube.Errors.{Err, Outcome, ok, exit, error, wrap}
use cluster_api_agent.Kube.Meta.{Key}
use cluster_api_agent.Kube.Objects.{InfraEnv, Service}
use cluster_api_agent.Kube.Kinds.{assisted_config, infra_env, service}
use cluster_api_agent.Kube.Api.{Api, Exec, pure, fail, lift, catch, read, modify, ◌>>=◌, ◌>>◌}
use cluster_api_agent.Kube.Calls.{get, list, update_status}
use cluster_api_agent.Kube.Reconcile.{Body, done, after, stop, get_or_ignore}
use cluster_api_agent.AssistedInstaller.{ServiceConfig, Urls}
use cluster_api_agent.Bootstrap.Types.{OpenshiftAssistedConfig}

abbrev Action : Type 0 → Type 0
Action A = Exec ServiceConfig Err A

unfoldable pub with_iso : String → OpenshiftAssistedConfig → OpenshiftAssistedConfig
with_iso url config = record config { status = record config.status { iso_download_url = url } }

abbrev raise_if : Option Err → Action Unit
raise_if none = pure tt
raise_if (some e) = fail e

-- os.LookupEnv("NAMESPACE"), and fmt's %d.
module _ (api : Api) (urls : Urls) (namespace : Option String) (decimal : ℕ → String) where
  -- An empty namespace of the image service is filled from the environment, and stays filled.
  unfoldable pub ensure_namespace : Action Unit
  ensure_namespace = do
    config ← read
    if config.image_service_namespace == ""
        then (elim namespace [
          | none ↦ fail (
              error
                "unable to determine internal ip of assisted-image-service: no namespace provided for assisted-image-service service")
          | some ns ↦ modify (λ c. record c { image_service_namespace = ns })
        ])
        else pure tt

  unfoldable pub internal_url : String → Service → Outcome Err String
  internal_url original svc = elim svc.ports [
    | [] ↦ exit (
        error
          "failed to get internal image service URL, either cluster IP or Ports were missing from Service")
    | port ∷ ports ↦
        if svc.cluster_ip == ""
        then exit (
            error
              "failed to get internal image service URL, either cluster IP or Ports were missing from Service")
        else elim (urls.parse original) [
          | exit e ↦
              exit (wrap ("failed to parse InfraEnv ISO download URL " <> original <> ": ") e)
          | ok url ↦ ok (
              urls.print
                (record url { scheme = "http"; host = svc.cluster_ip <> ":" <> decimal port }))
        ]
  ]

  unfoldable pub get_iso_url : String → Action String
  unfolding ensure_namespace internal_url
  get_iso_url original = do
    config ← read
    if config.use_internal_image_url
        then (do
          ensure_namespace
          config' ← read
          svc ←
              catch
                (get api service (record {
                  namespace = config'.image_service_namespace;
                  name = config'.image_service_name;
                }))
                (λ e. fail (wrap "failed to find assisted image service service: " e))
          lift (internal_url original svc))
        else pure original

  -- The loop over the configurations, with the error of one that was skipped.
  unfoldable pub attach_loop : String → List OpenshiftAssistedConfig → Option Err → Action Unit
  unfolding with_iso
  attach_loop url [] skipped = raise_if skipped
  attach_loop url (config ∷ rest) skipped = elim config.status.infra_env_ref [
    | none ↦ attach_loop url rest (some (error "skipped an infraenv, need to retry"))
    | some ref ↦ (do
      catch (update_status api assisted_config (with_iso url config))
          (λ e. fail (wrap "failed to update openshiftassistedconfig: " e))
      attach_loop url rest skipped)
  ]

  unfoldable pub attach_iso_to_openshift_assisted_configs : InfraEnv → Action Unit
  unfolding attach_loop
  attach_iso_to_openshift_assisted_configs env = do
    configs ←
        catch
          (list api assisted_config (record {
            namespace = none;
            labels = [];
            fields =
                (".status.infraEnvRef.name", env.meta.name)
                ∷ (".status.infraEnvRef.namespace", env.meta.namespace)
                ∷ [];
          }))
          (λ e. fail (wrap "failed to list Openshift Assisted configs: " e))
    url ← get_iso_url env.iso_download_url
    attach_loop url configs none

  unfoldable pub reconcile : Key → Body ServiceConfig
  reconcile key = do
    env ← get_or_ignore api infra_env key
    if env.iso_download_url == "" then stop (after 20) else (do
      catch (attach_iso_to_openshift_assisted_configs env) (λ e. fail (after 5, some e))
      pure done)
