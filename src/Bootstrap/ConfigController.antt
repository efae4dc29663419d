-- ===== src/Bootstrap/ConfigController.antt =====
-- bootstrap/internal/controller/openshiftassistedconfig_controller.go: the reconciler of an
-- OpenshiftAssistedConfig, which is the local object.
pub mod Joining
pub mod Panics
pub mod Waiting
pub mod Keeping
pub mod Completing
use cluster_api_agent.Prelude.{
  ℕ, String, Bool, true, not, ◌==◌, ◌&&◌, ◌||◌, [], ◌∷◌, Option, none, some, lookup, is_some, ◌<>◌,
  if◌then◌else◌,
}
use cluster_api_agent.Kube.Errors.{Err, Outcome, ok, exit, panic, no_cluster, not_found, has_reason}
use cluster_api_agent.Kube.Meta.{Key, Severity, info_severity, warning_severity}
use cluster_api_agent.Kube.Objects.{AgentClusterInstall, Cluster, ClusterDeployment, Machine}
use cluster_api_agent.Kube.Kinds.{assisted_config}
use cluster_api_agent.Kube.Api.{
  Api, Exec, ConfigOwner, pure, fail, lift, catch, attempt, read, modify, ◌>>=◌, ◌>>◌,
}
use cluster_api_agent.Kube.Calls.{
  get_typed_config_owner, get_cluster_by_name, get_owner_machine, patch,
}
use cluster_api_agent.Kube.Library.{Library}
use cluster_api_agent.Kube.Reconcile.{
  Result, Returned, Body, done, again, after, stop, or_return, get_or_ignore, returned, aggregate,
  succeeded,
}
use cluster_api_agent.AssistedInstaller.{ServiceConfig, Urls}
use cluster_api_agent.Bootstrap.Types.{OpenshiftAssistedConfig}
use cluster_api_agent.Bootstrap.Secrets.{
  Action, openshift_assisted_config_finalizer, ensure_infra_env, get_agent_cluster_install,
  get_cluster_deployment, create_user_data_secret, handle_deletion, get_ignition,
}
use cluster_api_agent.ControlPlane.Common.{machine_control_plane_label}

abbrev pub data_secret_available_condition : String
data_secret_available_condition = "DataSecretAvailable"

-- What a run works with.
pub record Tools : Type 0 where
  pub api : Api
  pub lib : Library
  pub urls : Urls
  pub decimal : ℕ → String
  pub config : ServiceConfig
  pub http_client : Bool

abbrev Config : Type 0
Config = OpenshiftAssistedConfig

-- A worker can join before the installation has started, and after it has ended.
unfoldable pub may_join : String → Bool
may_join state =
    state == "adding-hosts"
    || (state == "pending-for-input" || (state == "insufficient" || state == ""))

abbrev pub is_control_plane_machine : Machine → Bool
is_control_plane_machine m = is_some (lookup machine_control_plane_label m.meta.labels)

module _ (lib : Library) where
  unfoldable pub unavailable : String → Severity → Config → Config
  unavailable reason severity config = record config {
    status = record config.status {
      conditions =
          lib.mark_false data_secret_available_condition reason severity ""
            config.status.conditions;
    };
  }

  unfoldable pub available : String → Config → Config
  available secret_name config = record config {
    status = record config.status {
      ready = true;
      data_secret_name = some secret_name;
      conditions = lib.mark_true data_secret_available_condition config.status.conditions;
    };
  }

  unfoldable pub set_summary : Config → Config
  set_summary config = record config {
    status = record config.status {
      conditions = lib.set_summary (data_secret_available_condition ∷ []) config.status.conditions;
    };
  }

module _ (tools : Tools) where
  open tools use {api, lib, urls, decimal, config, http_client}

  -- MarkFalse, and a return with no error.
  wait_for : {A : Type 0} → String → Result → Exec Config Returned A
  wait_for reason result = do modify (unavailable lib reason info_severity); stop result

  -- MarkFalse, and a return with the error.
  or_failed : {A : Type 0} → String → Action A → Exec Config Returned A
  or_failed reason m =
      catch m (λ e. do modify (unavailable lib reason warning_severity); fail (done, some e))

  or_wait : {A : Type 0} → String → Result → Action A → Exec Config Returned A
  unfolding wait_for
  or_wait reason result m = catch m (λ e. wait_for reason result)

  -- The end: the ignition, its secret, and the status.
  unfoldable pub publish : Machine → Body Config
  unfolding or_failed
  publish m = do
    ignition ← or_return (get_ignition api urls decimal config http_client m)
    s ← or_failed "CreatingSecretFailed" (create_user_data_secret api lib ignition)
    modify (available lib s.meta.name)
    pure done

  unfoldable pub reconcile_machine : Machine → ClusterDeployment → Body Config
  unfolding or_failed wait_for publish
  reconcile_machine m cd = do
    or_failed "InfraEnvFailed" (ensure_infra_env api lib m cd)
    current ← read
    if current.status.iso_download_url == ""
        then wait_for "WaitingForLiveISOURL" done
        else publish m

  -- The machine is read through a pointer.
  unfoldable pub reconcile_installing :
      Option Machine → ClusterDeployment → AgentClusterInstall → Body Config
  unfolding wait_for reconcile_machine
  reconcile_installing none cd aci = fail (done, some panic)
  reconcile_installing (some m) cd aci =
      if not (is_control_plane_machine m) && not (may_join aci.state)
      then wait_for "WaitingForInstallComplete" (after 60)
      else reconcile_machine m cd

  unfoldable pub reconcile_cluster : Cluster → Body Config
  unfolding wait_for or_wait reconcile_installing
  reconcile_cluster cluster =
      if cluster.infrastructure_ready
      then (do
        current ← read
        m ← or_return (get_owner_machine api current.meta)
        cd ←
            or_wait "WaitingForAssistedInstaller" again
              (get_cluster_deployment api lib cluster.meta.name)
        aci ← or_wait "WaitingForAssistedInstaller" again (get_agent_cluster_install api lib cd)
        reconcile_installing m cd aci)
      else wait_for "WaitingForClusterInfrastructure" (after 20)

  -- A cluster that is not there yet is no error.
  without_cluster : Err → Option Err
  without_cluster e = if has_reason no_cluster e || has_reason not_found e then none else some e

  -- From the fetch of the cluster on.
  reconcile_named : ConfigOwner → Body Config
  unfolding without_cluster
  reconcile_named owner = do
    cluster ←
        catch (get_cluster_by_name api owner.meta.namespace owner.cluster_name)
          (λ e. fail (done, without_cluster e))
    reconcile_cluster cluster

  unfoldable pub reconcile_live : ConfigOwner → Body Config
  unfolding reconcile_named without_cluster reconcile_cluster
  reconcile_live owner = do
    modify (λ c.
        if lib.contains_finalizer c.meta openshift_assisted_config_finalizer
        then c
        else record c { meta = lib.add_finalizer c.meta openshift_assisted_config_finalizer })
    reconcile_named owner

  -- Where no owner is found, its name is read through a nil pointer, for the log.
  owner_error : Err → Err
  owner_error e =
      if has_reason not_found e
      then panic
      else record { reasons = e.reasons; text = "failed to get owner: " <> e.text }

  unfoldable pub reconcile_body : Body Config
  unfolding owner_error reconcile_live
  reconcile_body = do
    current ← read
    found ← catch (get_typed_config_owner api current.meta) (λ e. fail (done, some (owner_error e)))
    elim found [
      | none ↦ stop done
      | some owner ↦ (do
        config' ← read
        if is_some config'.meta.deletion_timestamp
            then (do or_return (handle_deletion api lib owner); stop done)
            else reconcile_live owner)
    ]

  patched : Outcome Err Unit → Returned → Returned
  patched (ok _) r = r
  patched (exit e) (result, rerr) = (result, some (aggregate rerr e))

  -- The deferred function.
  unfoldable pub finish : Returned → Exec Config Returned Returned
  unfolding patched
  finish r = do
    modify (set_summary lib)
    current ← read
    outcome ← attempt (patch api assisted_config current (succeeded r.1))
    pure (patched outcome r)

  unfoldable pub run_body : Exec Config Returned Returned
  unfolding finish
  run_body env = let (r, env') = reconcile_body env in finish (returned r) env'

  unfoldable pub reconcile : Key → Exec Config Returned Returned
  unfolding run_body
  reconcile key = do
    current ← get_or_ignore api assisted_config key
    modify (λ _. current)
    or_return (lift (lib.new_patch_helper current.meta))
    run_body
