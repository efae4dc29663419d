-- ===== src/ControlPlane/WorkloadUpgrade/Untouched.antt =====
-- An upgrade of the workload cluster leaves the version that the status gives, and the specification.
use cluster_api_agent.Prelude.{List, String, Bool, ◌≡◌, arith}
use cluster_api_agent.Kube.Errors.{Outcome, ok, exit}
use cluster_api_agent.Kube.Objects.{Cluster}
use cluster_api_agent.Kube.Api.{Env}
use cluster_api_agent.ControlPlane.WorkloadClient.{get_workload_cluster_client}
use cluster_api_agent.Containers.{get_digest}
use cluster_api_agent.ControlPlane.Common.{get_workload_kubeconfig}
use cluster_api_agent.ControlPlane.Upgrade.{
  ClusterUpgradeOption, is_upgrade_in_progress, get_current_version, is_desired_version_updated,
  update_cluster_version_desired_update,
}
use cluster_api_agent.ControlPlane.Resources.{Acp}
use cluster_api_agent.ControlPlane.WorkloadUpgrade.{
  Tools, Upgraded, upgrade_if_needed, upgrade_with_client, upgrade_steps, finish_upgrade,
  upgrade_workload_cluster, mark_upgrade,
}

-- The version of the status and the specification stay.
abbrev pub Untouched : Acp → Acp → Type 0
Untouched acp acp' = (acp'.status.version ≡ acp.status.version) × (acp'.spec ≡ acp.spec)

module _ (tools : Tools) where
  open tools use {api, codecs, parse_tolerant}

  updated_local :
      (version : String) (env : Env Acp)
      → (is_desired_version_updated api version env).1.local ≡ env.local
  unfolding is_desired_version_updated
  updated_local version env = ground arith

  update_local :
      (version architecture : String) (options : List ClusterUpgradeOption) (env : Env Acp)
      → (update_cluster_version_desired_update api codecs parse_tolerant version architecture
          options env).1.local
        ≡ env.local
  unfolding update_cluster_version_desired_update get_digest
  update_local version architecture options env = ground arith

  pub client_local :
      (kubeconfig : String) (env : Env Acp)
      → (get_workload_cluster_client api tools.client_configs kubeconfig env).1.local ≡ env.local
  unfolding get_workload_cluster_client
  client_local kubeconfig env = ground arith

  pub kubeconfig_local :
      (name namespace : String) (env : Env Acp)
      → (get_workload_kubeconfig api name namespace env).1.local ≡ env.local
  unfolding get_workload_kubeconfig
  kubeconfig_local name namespace env = ground arith

  in_progress_local : (env : Env Acp) → (is_upgrade_in_progress api env).1.local ≡ env.local
  unfolding is_upgrade_in_progress
  in_progress_local env = ground arith

  current_local : (env : Env Acp) → (get_current_version api env).1.local ≡ env.local
  unfolding get_current_version
  current_local env = ground arith

  needed_local :
      (in_progress : Bool) (architecture pull_secret : String) (env : Env Acp)
      → (upgrade_if_needed tools in_progress architecture pull_secret env).1.local ≡ env.local
  unfolding upgrade_if_needed
  needed_local in_progress architecture pull_secret env = grind (arith, updated_local, update_local)

  with_client-Untouched :
      (architecture pull_secret : String) (env : Env Acp)
      → Untouched env.local (upgrade_with_client tools architecture pull_secret env).1.local
  unfolding upgrade_with_client
  with_client-Untouched architecture pull_secret env =
      grind (arith, in_progress_local, current_local, needed_local)

  steps-Untouched :
      (cluster : Cluster) (architecture pull_secret : String) (env : Env Acp)
      → Untouched env.local (upgrade_steps tools cluster architecture pull_secret env).1.local
  unfolding upgrade_steps
  steps-Untouched cluster architecture pull_secret env =
      grind (arith, kubeconfig_local, client_local, with_client-Untouched)

  mark-Untouched :
      (in_progress : Bool) (acp : Acp) → Untouched acp (mark_upgrade tools in_progress acp)
  unfolding mark_upgrade
  mark-Untouched in_progress acp = ground arith

  finish-Untouched :
      (r : Outcome Upgraded Upgraded) (env : Env Acp)
      → Untouched env.local (finish_upgrade tools r env).1.local
  unfolding finish_upgrade
  finish-Untouched (ok (p, r)) env = mark-Untouched p env.local
  finish-Untouched (exit (p, r)) env = mark-Untouched p env.local

  pub upgrade_workload_cluster-Untouched :
      (cluster : Cluster) (architecture pull_secret : String) (env : Env Acp)
      → Untouched env.local
          (upgrade_workload_cluster tools cluster architecture pull_secret env).1.local
  unfolding upgrade_workload_cluster
  upgrade_workload_cluster-Untouched cluster architecture pull_secret env =
      grind (arith, finish-Untouched, steps-Untouched)
