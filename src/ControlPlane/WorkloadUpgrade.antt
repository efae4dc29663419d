-- ===== src/ControlPlane/WorkloadUpgrade.antt =====
-- Following an upgrade of the workload cluster: upgradeWorkloadCluster and what it calls, of
-- controlplane/internal/controller/openshiftassistedcontrolplane_controller.go.
pub mod Completion
pub mod Settled
pub mod Machines
pub mod Untouched
use cluster_api_agent.Prelude.{
  ℕ, String, Bool, true, false, not, ◌==◌, ◌&&◌, ◌||◌, ◌<>◌, List, [], ◌∷◌, ◌++◌, Option, none,
  some, lookup, is_nil, is_some, if◌then◌else◌,
}
use cluster_api_agent.Kube.Errors.{Err, Outcome, ok, exit, image_not_found, not_found, has_reason}
use cluster_api_agent.Kube.Meta.{
  Key, ObjectReference, Severity, error_severity, warning_severity, info_severity,
}
use cluster_api_agent.Kube.Objects.{Cluster}
use cluster_api_agent.Kube.Kinds.{control_plane, cluster_deployment, secret}
use cluster_api_agent.Kube.Api.{
  Api, Env, Exec, pure, fail, lift, catch, attempt, read, modify, ◌>>=◌, ◌>>◌,
}
use cluster_api_agent.Kube.Calls.{get, create, delete, get_owner_cluster, patch, workload_client}
use cluster_api_agent.Kube.Library.{Library, owned_by, is_true, is_false}
use cluster_api_agent.Kube.Reconcile.{
  Result, Returned, Body, done, after, stop, or_return, get_or_ignore, returned, aggregate,
  succeeded,
}
use cluster_api_agent.Containers.{Codecs}
use cluster_api_agent.AssistedInstaller.{get_cluster_deployment_from_config}
use cluster_api_agent.ControlPlane.Types.{
  OpenshiftAssistedControlPlane, acp_finalizer, kubeconfig_available_condition,
  control_plane_ready_condition, machines_created_condition, upgrade_completed_condition,
  upgrade_available_condition, kubernetes_version_available_condition,
  release_image_repository_override_annotation,
}
use cluster_api_agent.ControlPlane.Release.{SemVer}
use cluster_api_agent.ControlPlane.Upgrade.{
  ClusterUpgradeOption, release_image_repository_override_option, release_image_pull_secret_option,
  is_upgrade_in_progress, get_current_version, is_desired_version_updated,
  update_cluster_version_desired_update,
}
use cluster_api_agent.ControlPlane.Version.{Tag, get_kubernetes_version}
use cluster_api_agent.ControlPlane.Common.{
  create_or_update, get_workload_kubeconfig, generate_fake_pull_secret, get_pull_secret,
  get_architecture_from_bootstrap_configs, release_image_of, or_empty,
}
use cluster_api_agent.ControlPlane.Machines.{Action}
use cluster_api_agent.ControlPlane.Replicas.{Derivative, reconcile_replicas}
use cluster_api_agent.ControlPlane.WorkloadClient.{ClientConfigs, get_workload_cluster_client}
use cluster_api_agent.ControlPlane.Marks.{
  mark_true, mark_false, set_summary, mark_kubernetes_version_condition,
}
use cluster_api_agent.ControlPlane.Resources.{
  Acp, handle_deletion, ensure_pull_secret, ensure_cluster_deployment,
}

-- What a run works with: the API, the libraries, and the encodings.
pub record Tools : Type 0 where
  pub api : Api
  pub lib : Library
  pub codecs : Codecs
  pub parse_tolerant : String → Option SemVer
  -- semver's LT against 4.14.0
  pub below_minimum : SemVer → Bool
  pub unmarshal : String → Outcome Err (List Tag)
  pub deep_derivative : Derivative
  pub client_configs : ClientConfigs

unfoldable pub is_workload_cluster_running_desired_version : Acp → Bool
is_workload_cluster_running_desired_version oacp =
    oacp.spec.distribution_version == oacp.status.distribution_version

abbrev override_option : Option String → List ClusterUpgradeOption
override_option none = []
override_option (some repo) =
    record { name = release_image_repository_override_option; value = repo } ∷ []

unfoldable pub get_upgrade_options : Acp → String → List ClusterUpgradeOption
get_upgrade_options oacp pull_secret =
    record { name = release_image_pull_secret_option; value = pull_secret }
    ∷ override_option (lookup release_image_repository_override_annotation oacp.meta.annotations)

abbrev set_distribution_version : String → Acp → Acp
set_distribution_version version acp = record acp {
  status = record acp.status { distribution_version = version };
}

abbrev pub value_of : Outcome Err String → Option String
value_of (ok version) = some version
value_of (exit e) = none

-- Where upgradeWorkloadCluster returns: whether an update was seen in progress, and what it returns.
abbrev Upgraded : Type 0
Upgraded = Bool × Returned

module _ (tools : Tools) where
  open tools use {api, lib, codecs, parse_tolerant, client_configs}

  -- if err != nil { return ctrl.Result{}, err }
  quit : {A : Type 0} → Bool → Action A → Exec Acp Upgraded A
  quit in_progress m = catch m (λ e. fail (in_progress, (done, some e)))

  -- From the test of the desired version on.
  upgrade_if_needed : Bool → String → String → Exec Acp Upgraded Upgraded
  unfolding quit
  upgrade_if_needed in_progress architecture pull_secret = do
    oacp ← read
    updated ← quit in_progress (is_desired_version_updated api oacp.spec.distribution_version)
    if updated && in_progress
        then pure (in_progress, (after 60, none))
        else if is_workload_cluster_running_desired_version oacp && not in_progress
        then pure (in_progress, (done, none))
        else (do
          outcome ← attempt {E = Err} (
              update_cluster_version_desired_update api codecs parse_tolerant
                oacp.spec.distribution_version architecture (get_upgrade_options oacp pull_secret))
          pure (in_progress, (after 60, elim outcome [ ok _ ↦ none | exit e ↦ some e ])))

  -- With the workload cluster's client.
  upgrade_with_client : String → String → Exec Acp Upgraded Upgraded
  unfolding quit
  upgrade_with_client architecture pull_secret = do
    in_progress ← quit false (is_upgrade_in_progress api)
    current ← attempt {E = Err} (get_current_version api)
    modify (set_distribution_version (or_empty (value_of current)))
    upgrade_if_needed in_progress architecture pull_secret

  upgrade_steps : Cluster → String → String → Exec Acp Upgraded Upgraded
  unfolding quit
  upgrade_steps cluster architecture pull_secret = do
    kubeconfig ← quit false (get_workload_kubeconfig api cluster.meta.name cluster.meta.namespace)
    quit false (get_workload_cluster_client api client_configs kubeconfig)
    upgrade_with_client architecture pull_secret

  -- The deferred function.
  unfoldable pub mark_upgrade : Bool → Acp → Acp
  unfolding mark_true mark_false
  mark_upgrade in_progress oacp =
      if in_progress || not (is_workload_cluster_running_desired_version oacp)
      then mark_false lib upgrade_completed_condition "UpgradeInProgress" info_severity
          ("upgrade to version " <> oacp.spec.distribution_version <> " in progress") oacp
      else if is_false lib upgrade_completed_condition oacp.status.conditions
      then mark_true lib upgrade_completed_condition oacp
      else oacp

  finish_upgrade : Outcome Upgraded Upgraded → Exec Acp Returned Returned
  finish_upgrade (ok (in_progress, r)) env =
      (ok r, record env { local = mark_upgrade in_progress env.local })
  finish_upgrade (exit (in_progress, r)) env =
      (ok r, record env { local = mark_upgrade in_progress env.local })

  unfoldable pub upgrade_workload_cluster : Cluster → String → String → Exec Acp Returned Returned
  unfolding upgrade_steps upgrade_with_client upgrade_if_needed finish_upgrade mark_upgrade
  upgrade_workload_cluster cluster architecture pull_secret env =
      let (r, env') = upgrade_steps cluster architecture pull_secret env in finish_upgrade r env'
