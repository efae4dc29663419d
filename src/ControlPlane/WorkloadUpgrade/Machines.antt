-- ===== src/ControlPlane/WorkloadUpgrade/Machines.antt =====
-- An upgrade of the workload cluster touches no machine.
use cluster_api_agent.Prelude.{List, String, Bool, ◌≡◌, refl, arith}
use cluster_api_agent.Kube.Errors.{Outcome, ok, exit}
use cluster_api_agent.Kube.Objects.{Cluster}
use cluster_api_agent.Kube.Api.{Env}
use cluster_api_agent.Kube.Counts.{count, machine_calls, SameMachines}
use cluster_api_agent.ControlPlane.WorkloadClient.{get_workload_cluster_client}
use cluster_api_agent.Containers.{get_digest}
use cluster_api_agent.ControlPlane.Common.{get_workload_kubeconfig}
use cluster_api_agent.ControlPlane.Upgrade.{
  ClusterUpgradeOption, is_upgrade_in_progress, get_current_version, is_desired_version_updated,
  update_cluster_version_desired_update,
}
use cluster_api_agent.ControlPlane.Resources.{Acp}
use cluster_api_agent.ControlPlane.WorkloadUpgrade.{
  Tools, Upgraded, upgrade_if_needed, upgrade_with_client, upgrade_steps, finish_upgrade,
  upgrade_workload_cluster,
}

module _ (tools : Tools) where
  open tools use {api, codecs, parse_tolerant}

  updated_same :
      (version : String) (env : Env Acp)
      → SameMachines env (is_desired_version_updated api version env).1
  unfolding is_desired_version_updated count machine_calls
  updated_same version env = ground arith

  update_same :
      (version architecture : String) (options : List ClusterUpgradeOption) (env : Env Acp)
      → SameMachines env
          (update_cluster_version_desired_update api codecs parse_tolerant version architecture
            options env).1
  unfolding update_cluster_version_desired_update get_digest count machine_calls
  update_same version architecture options env = ground arith

  needed_same :
      (in_progress : Bool) (architecture pull_secret : String) (env : Env Acp)
      → SameMachines env (upgrade_if_needed tools in_progress architecture pull_secret env).1
  unfolding upgrade_if_needed
  needed_same in_progress architecture pull_secret env = grind (arith, updated_same, update_same)

  client_same :
      (kubeconfig : String) (env : Env Acp)
      → SameMachines env (get_workload_cluster_client api tools.client_configs kubeconfig env).1
  unfolding get_workload_cluster_client count machine_calls
  client_same kubeconfig env = ground arith

  kubeconfig_same :
      (name namespace : String) (env : Env Acp)
      → SameMachines env (get_workload_kubeconfig api name namespace env).1
  unfolding get_workload_kubeconfig count machine_calls
  kubeconfig_same name namespace env = ground arith

  in_progress_same : (env : Env Acp) → SameMachines env (is_upgrade_in_progress api env).1
  unfolding is_upgrade_in_progress count machine_calls
  in_progress_same env = ground arith

  current_same : (env : Env Acp) → SameMachines env (get_current_version api env).1
  unfolding get_current_version count machine_calls
  current_same env = ground arith

  with_client_same :
      (architecture pull_secret : String) (env : Env Acp)
      → SameMachines env (upgrade_with_client tools architecture pull_secret env).1
  unfolding upgrade_with_client
  with_client_same architecture pull_secret env =
      grind (arith, in_progress_same, current_same, needed_same)

  steps_same :
      (cluster : Cluster) (architecture pull_secret : String) (env : Env Acp)
      → SameMachines env (upgrade_steps tools cluster architecture pull_secret env).1
  unfolding upgrade_steps
  steps_same cluster architecture pull_secret env =
      grind (arith, kubeconfig_same, client_same, with_client_same)

  finish_calls :
      (r : Outcome Upgraded Upgraded) (env : Env Acp)
      → (finish_upgrade tools r env).1.calls ≡ env.calls
  unfolding finish_upgrade
  finish_calls (ok (p, r)) env = refl
  finish_calls (exit (p, r)) env = refl

  -- Whatever it ends with, it creates and deletes no machine.
  pub upgrade_workload_cluster-SameMachines :
      (cluster : Cluster) (architecture pull_secret : String) (env : Env Acp)
      → SameMachines env (upgrade_workload_cluster tools cluster architecture pull_secret env).1
  unfolding upgrade_workload_cluster
  upgrade_workload_cluster-SameMachines cluster architecture pull_secret env =
      rw
        (finish_calls (upgrade_steps tools cluster architecture pull_secret env).0
          (upgrade_steps tools cluster architecture pull_secret env).1)
        (steps_same cluster architecture pull_secret env)
