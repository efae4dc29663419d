-- ===== src/ControlPlane/Resources.antt =====
-- What a control plane owns: its placeholder pull secret and its ClusterDeployment, and how they go.
-- From controlplane/internal/controller/openshiftassistedcontrolplane_controller.go.
pub mod Deletion
pub mod Reference
use cluster_api_agent.Prelude.{
  ℕ, String, Bool, true, false, not, ◌==◌, ◌&&◌, ◌||◌, ◌<>◌, List, [], ◌∷◌, ◌++◌, Option, none,
  some, lookup, is_nil, is_some, if◌then◌else◌,
}
use cluster_api_agent.Kube.Errors.{Err, Outcome, ok, exit, image_not_found, not_found, has_reason}
use cluster_api_agent.Kube.Meta.{
  Key, ObjectReference, Severity, error_severity, warning_severity, info_severity,
}
use cluster_api_agent.Kube.Objects.{Cluster}
use cluster_api_agent.Kube.Kinds.{control_plane, cluster_deployment, secret}
use cluster_api_agent.Kube.Api.{
  Api, Env, Exec, pure, fail, lift, catch, attempt, read, modify, ◌>>=◌, ◌>>◌,
}
use cluster_api_agent.Kube.Calls.{get, create, delete, get_owner_cluster, patch, workload_client}
use cluster_api_agent.Kube.Library.{Library, owned_by, is_true, is_false}
use cluster_api_agent.Kube.Reconcile.{
  Result, Returned, Body, done, after, stop, or_return, get_or_ignore, returned, aggregate,
  succeeded,
}
use cluster_api_agent.Containers.{Codecs}
use cluster_api_agent.AssistedInstaller.{get_cluster_deployment_from_config}
use cluster_api_agent.ControlPlane.Types.{
  OpenshiftAssistedControlPlane, acp_finalizer, kubeconfig_available_condition,
  control_plane_ready_condition, machines_created_condition, upgrade_completed_condition,
  upgrade_available_condition, kubernetes_version_available_condition,
  release_image_repository_override_annotation,
}
use cluster_api_agent.ControlPlane.Release.{SemVer}
use cluster_api_agent.ControlPlane.Upgrade.{
  ClusterUpgradeOption, release_image_repository_override_option, release_image_pull_secret_option,
  is_upgrade_in_progress, get_current_version, is_desired_version_updated,
  update_cluster_version_desired_update,
}
use cluster_api_agent.ControlPlane.Version.{Tag, get_kubernetes_version}
use cluster_api_agent.ControlPlane.Common.{
  create_or_update, get_workload_kubeconfig, generate_fake_pull_secret, get_pull_secret,
  get_architecture_from_bootstrap_configs, release_image_of, or_empty,
}
use cluster_api_agent.ControlPlane.Machines.{Action}
use cluster_api_agent.ControlPlane.Replicas.{Derivative, reconcile_replicas}

abbrev placeholder_pull_secret_name : String
placeholder_pull_secret_name = "placeholder-pull-secret"

abbrev pub Acp : Type 0
Acp = OpenshiftAssistedControlPlane

abbrev set_cluster_deployment_ref : Option ObjectReference → Acp → Acp
set_cluster_deployment_ref ref acp = record acp {
  status = record acp.status { cluster_deployment_ref = ref };
}

abbrev set_pull_secret_ref : String → Acp → Acp
set_pull_secret_ref name acp = record acp {
  spec = record acp.spec {
    config = record acp.spec.config { pull_secret_ref = some (record { name = name }) };
  };
}

abbrev keep_unless : Bool → Err → Action Unit
keep_unless true e = pure tt
keep_unless false e = fail e

module _ (api : Api) (lib : Library) where
  unfoldable pub delete_cluster_deployment : Option ObjectReference → Action Unit
  delete_cluster_deployment none = pure tt
  delete_cluster_deployment (some ref) =
      delete api cluster_deployment (record { namespace = ref.namespace; name = ref.name })

  abbrev release : Acp → Acp
  release acp = record acp {
    meta = lib.remove_finalizer acp.meta acp_finalizer;
    status = record acp.status { cluster_deployment_ref = none };
  }

  unfoldable pub handle_deletion : Action Unit
  unfolding delete_cluster_deployment
  handle_deletion = do
    acp ← read
    if lib.contains_finalizer acp.meta acp_finalizer
        then (do
          catch (delete_cluster_deployment acp.status.cluster_deployment_ref)
              (λ e. keep_unless (has_reason not_found e) e)
          modify release)
        else pure tt

  unfoldable pub ensure_pull_secret : Action Unit
  ensure_pull_secret = do
    acp ← read
    if is_some acp.spec.config.pull_secret_ref then pure tt else (do
      let literal = generate_fake_pull_secret placeholder_pull_secret_name acp.meta.namespace
      owned ← lift (lib.set_owner_reference acp.meta literal.meta)
      created ← create api secret (record literal { meta = owned })
      modify (set_pull_secret_ref created.meta.name))

  abbrev lost_ref : Bool → Err → Action Unit
  lost_ref true e = modify (set_cluster_deployment_ref none)
  lost_ref false e = fail e

  cluster_deployment_at : ObjectReference → Action Unit
  cluster_deployment_at ref = do
    found ←
        attempt (get api cluster_deployment (record { namespace = ref.namespace; name = ref.name }))
    elim found [ ok _ ↦ pure tt | exit e ↦ lost_ref (has_reason not_found e) e ]

  new_cluster_deployment : Acp → String → Action Unit
  new_cluster_deployment acp cluster_name = do
    let literal = get_cluster_deployment_from_config lib acp cluster_name
    cd ←
        create_or_update api cluster_deployment
          (record literal { meta = owned_by lib acp.meta literal.meta })
    ref ← lift (lib.get_reference cd.type_meta cd.meta)
    modify (set_cluster_deployment_ref (some ref))

  unfoldable pub ensure_cluster_deployment : String → Action Unit
  unfolding cluster_deployment_at new_cluster_deployment
  ensure_cluster_deployment cluster_name = do
    acp ← read
    elim acp.status.cluster_deployment_ref [
      | none ↦ new_cluster_deployment acp cluster_name
      | some ref ↦ cluster_deployment_at ref
    ]
