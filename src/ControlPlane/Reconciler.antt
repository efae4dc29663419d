-- ===== src/ControlPlane/Reconciler.antt =====
-- controlplane/internal/controller/openshiftassistedcontrolplane_controller.go: the reconciler of
-- an OpenshiftAssistedControlPlane, which is the local object.
pub mod Blocked
pub mod Patches
pub mod Machines
pub mod Detected
use cluster_api_agent.Prelude.{
  String, Bool, false, not, ◌||◌, ◌<>◌, Option, none, some, is_some, if◌then◌else◌,
}
use cluster_api_agent.Kube.Errors.{Err, Outcome, ok, exit, image_not_found, has_reason}
use cluster_api_agent.Kube.Meta.{Key, error_severity}
use cluster_api_agent.Kube.Objects.{Cluster}
use cluster_api_agent.Kube.Kinds.{control_plane}
use cluster_api_agent.Kube.Api.{Exec, pure, fail, lift, catch, attempt, read, modify, ◌>>=◌, ◌>>◌}
use cluster_api_agent.Kube.Calls.{get_owner_cluster, patch}
use cluster_api_agent.Kube.Library.{is_true}
use cluster_api_agent.Kube.Reconcile.{
  Result, Returned, Body, done, after, stop, or_return, get_or_ignore, returned, aggregate,
  succeeded,
}
use cluster_api_agent.ControlPlane.Types.{
  acp_finalizer, kubeconfig_available_condition, machines_created_condition,
  upgrade_available_condition,
}
use cluster_api_agent.ControlPlane.Version.{get_kubernetes_version}
use cluster_api_agent.ControlPlane.Common.{
  get_pull_secret, get_architecture_from_bootstrap_configs, release_image_of,
}
use cluster_api_agent.ControlPlane.Replicas.{reconcile_replicas}
use cluster_api_agent.ControlPlane.Marks.{
  mark_false, set_summary, mark_kubernetes_version_condition,
}
use cluster_api_agent.ControlPlane.Resources.{
  Acp, handle_deletion, ensure_pull_secret, ensure_cluster_deployment,
}
use cluster_api_agent.ControlPlane.WorkloadUpgrade.{Tools, value_of, upgrade_workload_cluster}

abbrev min_open_shift_version : String
min_open_shift_version = "4.14.0"

abbrev set_version : Option String → Acp → Acp
set_version version acp = record acp { status = record acp.status { version = version } }

module _ (tools : Tools) where
  open tools use {api, lib, codecs, parse_tolerant, below_minimum, unmarshal, deep_derivative}

  -- if err != nil { return result, err }
  or_stop : Returned → Body Acp
  or_stop (result, none) = pure result
  or_stop (result, some e) = fail (result, some e)

  upgrade_if_reachable : Cluster → String → String → Acp → Body Acp
  unfolding or_stop
  upgrade_if_reachable cluster architecture pull_secret oacp =
      if is_true lib kubeconfig_available_condition oacp.status.conditions
      then (do r ← upgrade_workload_cluster tools cluster architecture pull_secret; or_stop r)
      else pure done

  -- `return result, r.reconcileReplicas(ctx, oacp, cluster)`
  with_replicas : Cluster → Result → Body Acp
  with_replicas cluster result = do
    catch (reconcile_replicas api lib deep_derivative cluster) (λ e. fail (result, some e))
    pure result

  image_missing : Outcome Err String → Option Err
  image_missing (ok version) = none
  image_missing (exit e) = if has_reason image_not_found e then some e else none

  upgrade_unavailable : Option Err → Exec Acp Returned Unit
  upgrade_unavailable none = pure tt
  upgrade_unavailable (some e) = do
    modify (
        mark_false lib upgrade_available_condition "UpgradeImageUnavailable" error_severity
          ("upgrade unavailable: " <> e.text))
    fail (done, some e)

  -- From upgradeWorkloadCluster on.
  upgrade_and_scale : Cluster → String → String → Body Acp
  unfolding upgrade_if_reachable with_replicas
  upgrade_and_scale cluster architecture pull_secret = do
    oacp ← read
    result ← upgrade_if_reachable cluster architecture pull_secret oacp
    with_replicas cluster result

  -- From GetKubernetesVersion on.
  unfoldable pub reconcile_version : Cluster → Acp → String → String → Body Acp
  unfolding upgrade_and_scale upgrade_if_reachable with_replicas image_missing upgrade_unavailable
  reconcile_version cluster oacp pull_secret architecture = do
    version ← attempt {E = Err} (
        get_kubernetes_version api codecs unmarshal
          (release_image_of parse_tolerant oacp architecture) pull_secret)
    modify (mark_kubernetes_version_condition lib version)
    upgrade_unavailable (image_missing version)
    modify (set_version (value_of version))
    upgrade_and_scale cluster architecture pull_secret

  -- From getPullSecret on.
  reconcile_release : Cluster → Body Acp
  reconcile_release cluster = do
    oacp ← read
    pull_secret ← or_return (get_pull_secret api oacp)
    architecture ← or_return (get_architecture_from_bootstrap_configs api oacp)
    reconcile_version cluster oacp pull_secret architecture

  -- From ensurePullSecret on.
  unfoldable pub reconcile_cluster : Cluster → Body Acp
  unfolding reconcile_release upgrade_and_scale reconcile_version upgrade_if_reachable with_replicas
      image_missing upgrade_unavailable
  reconcile_cluster cluster = do
    or_return (ensure_pull_secret api lib)
    or_return (ensure_cluster_deployment api lib cluster.meta.name)
    reconcile_release cluster

  unfoldable pub is_unsupported : String → Bool
  is_unsupported version = elim (parse_tolerant version) [ none ↦ false | some v ↦ below_minimum v ]

  -- The cluster must be there, not paused, and have its infrastructure.
  unfoldable pub reconcile_owned : Option Cluster → Acp → Body Acp
  reconcile_owned none oacp = stop (after 10)
  reconcile_owned (some cluster) oacp =
      if lib.is_paused cluster oacp.meta
      then stop done
      else if not cluster.infrastructure_ready
          || not (lib.endpoint_is_valid cluster.control_plane_endpoint)
      then stop (after 20)
      else reconcile_cluster cluster

  unfoldable pub reconcile_live : Body Acp
  unfolding reconcile_owned
  reconcile_live = do
    modify (λ o.
        if lib.contains_finalizer o.meta acp_finalizer
        then o
        else record o { meta = lib.add_finalizer o.meta acp_finalizer })
    oacp ← read
    if is_unsupported oacp.spec.distribution_version
        then (do
          modify (
              mark_false lib machines_created_condition "MachineGenerationFailed" error_severity (
                "version " <> oacp.spec.distribution_version
                <> " is not supported, the minimum supported version is "
                <> min_open_shift_version))
          stop done)
        else (do
          cluster ← or_return (get_owner_cluster api oacp.meta)
          reconcile_owned cluster oacp)

  unfoldable pub reconcile_body : Body Acp
  reconcile_body = do
    oacp ← read
    if is_some oacp.meta.deletion_timestamp
        then (do or_return (handle_deletion api lib); stop done)
        else reconcile_live

  patched : Outcome Err Unit → Returned → Returned
  patched (ok _) r = r
  patched (exit e) (result, rerr) = (result, some (aggregate rerr e))

  -- The deferred function: the summary, and the patch, which records the observed generation of a
  -- run without error.
  unfoldable pub finish : Returned → Exec Acp Returned Returned
  unfolding patched
  finish r = do
    modify (set_summary lib)
    oacp ← read
    outcome ← attempt (patch api control_plane oacp (succeeded r.1))
    pure (patched outcome r)

  unfoldable pub run_body : Exec Acp Returned Returned
  unfolding finish
  run_body env = let (r, env') = reconcile_body env in finish (returned r) env'

  unfoldable pub reconcile : Key → Exec Acp Returned Returned
  unfolding run_body
  reconcile key = do
    oacp ← get_or_ignore api control_plane key
    modify (λ _. oacp)
    or_return (lift (lib.new_patch_helper oacp.meta))
    run_body
