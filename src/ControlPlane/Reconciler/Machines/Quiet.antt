-- ===== src/ControlPlane/Reconciler/Machines/Quiet.antt =====
-- What a run does before reconcileReplicas touches neither the machines that stand nor the replicas.
use cluster_api_agent.Prelude.{
  ℕ, suc, ◌-◌, String, Bool, true, false, ◌≡◌, refl, sym, ap, ◌∙◌, List, [], ◌∷◌, arith,
}
use cluster_api_agent.Kube.Api.{Env, History}
use cluster_api_agent.Kube.Counts.{machine_calls}
use cluster_api_agent.Containers.{get_image}
use cluster_api_agent.ControlPlane.Common.{
  get_pull_secret, get_architecture_from_bootstrap_configs, create_or_update,
}
use cluster_api_agent.ControlPlane.Version.{get_kubernetes_version}
use cluster_api_agent.ControlPlane.Replicas.Converging.{standing}
use cluster_api_agent.ControlPlane.Resources.{Acp, ensure_pull_secret, ensure_cluster_deployment}
use cluster_api_agent.ControlPlane.WorkloadUpgrade.{Tools}
use cluster_api_agent.ControlPlane.Reconciler.Machines.{
  pull_secret_same, cluster_deployment_same, get_pull_secret_same, architecture_same, version_same,
}

-- The machines that stand, by the machines created and deleted.
abbrev stand : ℕ → List Bool → ℕ
stand before [] = before
stand before (true ∷ bs) = suc (stand before bs)
stand before (false ∷ bs) = stand before bs - 1

standing-stand : (before : ℕ) (h : History) → standing before h ≡ stand before (machine_calls h)
unfolding standing machine_calls
standing-stand before [] = refl
standing-stand before (c ∷ cs) = ground (arith, standing-stand before cs)

pub standing_same :
    (before : ℕ) (h h' : History)
    → machine_calls h' ≡ machine_calls h
    → standing before h' ≡ standing before h
standing_same before h h' same =
    standing-stand before h' ∙ ap (stand before) same ∙ sym (standing-stand before h)

-- Neither the machines nor the replicas change.
abbrev pub Quiet : ℕ → Env Acp → Env Acp → Type 0
Quiet before env env' =
    (standing before env'.calls ≡ standing before env.calls)
    × (env'.local.spec.replicas ≡ env.local.spec.replicas)

module _ (tools : Tools) (before : ℕ) where
  open tools use {api, lib, codecs, parse_tolerant, unmarshal, deep_derivative}

  pub pull_secret-Quiet : (env : Env Acp) → Quiet before env (ensure_pull_secret api lib env).1
  unfolding ensure_pull_secret
  pull_secret-Quiet env =
      let env' = (ensure_pull_secret api lib env).1 in
      (standing_same before env.calls env'.calls (pull_secret_same tools env).2, ground arith)

  pub cluster_deployment-Quiet :
      (name : String) (env : Env Acp)
      → Quiet before env (ensure_cluster_deployment api lib name env).1
  unfolding ensure_cluster_deployment create_or_update
  cluster_deployment-Quiet name env =
      let env' = (ensure_cluster_deployment api lib name env).1 in
      (
        standing_same before env.calls env'.calls (cluster_deployment_same tools name env).2,
        ground arith,
      )

  pub get_pull_secret-Quiet :
      (acp : Acp) (env : Env Acp) → Quiet before env (get_pull_secret api acp env).1
  unfolding get_pull_secret
  get_pull_secret-Quiet acp env =
      let env' = (get_pull_secret api acp env).1 in
      (
        standing_same before env.calls env'.calls (get_pull_secret_same tools acp env).2,
        ground arith,
      )

  pub architecture-Quiet :
      (acp : Acp) (env : Env Acp)
      → Quiet before env (get_architecture_from_bootstrap_configs api acp env).1
  unfolding get_architecture_from_bootstrap_configs
  architecture-Quiet acp env =
      let env' = (get_architecture_from_bootstrap_configs api acp env).1 in
      (standing_same before env.calls env'.calls (architecture_same tools acp env).2, ground arith)

  pub version-Quiet :
      (image pull_secret : String) (env : Env Acp)
      → Quiet before env (get_kubernetes_version api codecs unmarshal image pull_secret env).1
  unfolding get_kubernetes_version get_image
  version-Quiet image pull_secret env =
      let env' = (get_kubernetes_version api codecs unmarshal image pull_secret env).1 in
      (
        standing_same before env.calls env'.calls (version_same tools image pull_secret env).2,
        ground arith,
      )
