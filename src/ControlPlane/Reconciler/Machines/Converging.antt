-- ===== src/ControlPlane/Reconciler/Machines/Converging.antt =====
-- Whole runs of the reconciler against a server that accepts every request about machines, and that
-- no other client changes.
use cluster_api_agent.Prelude.{
  ℕ, zero, suc, ◌≡◌, ◌∷◌, Option, none, some, arith, length, inl, inr, if◌then◌else◌, Bool-cases,
}
use cluster_api_agent.Prelude.Int.{pos}
use cluster_api_agent.Kube.Errors.{ok, Outcome-cases}
use cluster_api_agent.Kube.Meta.{ObjectMeta}
use cluster_api_agent.Kube.Objects.{Cluster}
use cluster_api_agent.Kube.Api.{Call, Env, History}
use cluster_api_agent.Kube.Reconcile.{Result}
use cluster_api_agent.ControlPlane.Marks.{set_summary}
use cluster_api_agent.ControlPlane.Types.{acp_finalizer}
use cluster_api_agent.ControlPlane.Replicas.Converging.{Accepts, standing, approach}
use cluster_api_agent.ControlPlane.Resources.{Acp}
use cluster_api_agent.ControlPlane.WorkloadUpgrade.{Tools}
use cluster_api_agent.ControlPlane.Reconciler.{
  reconcile_owned, reconcile_live, reconcile_body, run_body, finish, is_unsupported,
}
use cluster_api_agent.ControlPlane.Reconciler.Machines.Approaching.{Steps, cluster-Steps}

-- Runs of the reconciler on an object, each of which gets to its end.
pub data Runs (tools : Tools) : ℕ → Env Acp → Env Acp → Type 0 where
  none_left : {env : Env Acp} → Runs tools zero env env
  one_more :
      {k : ℕ} {env env' : Env Acp} {r : Result}
      → (reconcile_body tools env).0 ≡ ok r
      → Runs tools k (run_body tools env).1 env'
      → Runs tools (suc k) env env'

module _ (tools : Tools) {before : ℕ} {cluster : Cluster}
    (accepts : Accepts tools.api tools.lib cluster before) (replicas : ℕ) where
  open tools use {api, lib}

  owned-Steps :
      (acp : Acp) (env : Env Acp) (r : Result)
      → env.local.spec.replicas ≡ pos replicas
      → (reconcile_owned tools (some cluster) acp env).0 ≡ ok r
      → Steps before replicas env (reconcile_owned tools (some cluster) acp env).1
  unfolding reconcile_owned
  owned-Steps acp env r goal well = ground (arith, cluster-Steps tools accepts replicas env r goal)

  module _
      (always : (m : ObjectMeta) (h : History) (c : Cluster)
        → api.owner_cluster_answer m h ≡ ok (some c)
        → c ≡ cluster) where
    owner-Steps :
        (c : Option Cluster) (acp : Acp) (m : ObjectMeta) (h : History) (env : Env Acp) (r : Result)
        → api.owner_cluster_answer m h ≡ ok c
        → env.local.spec.replicas ≡ pos replicas
        → (reconcile_owned tools c acp env).0 ≡ ok r
        → Steps before replicas env (reconcile_owned tools c acp env).1
    unfolding reconcile_owned
    owner-Steps none acp m h env r found goal well = absurd (ground arith)
    owner-Steps (some c) acp m h env r found goal well =
        rw (always m h c found) (owned-Steps acp env r goal (rw (always m h c found) at well))

    live-Steps :
        (env : Env Acp) (r : Result)
        → env.local.spec.replicas ≡ pos replicas
        → (reconcile_live tools env).0 ≡ ok r
        → Steps before replicas env (reconcile_live tools env).1
    unfolding reconcile_live standing
    live-Steps env r goal well =
        let acp : Acp =
          if lib.contains_finalizer env.local.meta acp_finalizer
          then env.local
          else record env.local { meta = lib.add_finalizer env.local.meta acp_finalizer } in
        let env1 : Env Acp = record {
          local = acp;
          calls = Call.get_owner_cluster acp.meta ∷ env.calls;
        } in
        let goal' : acp.spec.replicas ≡ pos replicas = ground (arith, goal) in
        elim (Bool-cases (is_unsupported tools acp.spec.distribution_version)) [
          | inl unsupported ↦ absurd (ground (arith, unsupported))
          | inr supported ↦ elim (Outcome-cases (api.owner_cluster_answer acp.meta env.calls)) [
            | inl (e, failed) ↦ absurd (ground (arith, supported, failed))
            | inr (c, found) ↦
                let well' : (reconcile_owned tools c acp env1).0 ≡ ok r =
                  ground (arith, supported, found) in
                ground (
                  arith,
                  supported,
                  found,
                  owner-Steps c acp acp.meta env.calls env1 r found goal' well',
                )
          ]
        ]

    -- A run.
    run-Steps :
        (env : Env Acp) (r : Result)
        → env.local.spec.replicas ≡ pos replicas
        → (reconcile_body tools env).0 ≡ ok r
        → Steps before replicas env (run_body tools env).1
    unfolding reconcile_body run_body finish standing set_summary
    run-Steps env r goal well = ground (arith, live-Steps env r goal)

    -- Against a server that accepts every request about machines, that no other client changes, and
    -- that always names the same owner: a run whose body gets to its end is one step of `approach`,
    -- and leaves the number of replicas.
    pub run_body_refines :
        (env : Env Acp) (r : Result)
        → env.local.spec.replicas ≡ pos replicas
        → (reconcile_body tools env).0 ≡ ok r
        → let env' = (run_body tools env).1 in
          (length (accepts.owned env'.calls) ≡ approach replicas (length (accepts.owned env.calls)))
          × (env'.local.spec.replicas ≡ pos replicas)
    run_body_refines env r goal well =
        let env' = (run_body tools env).1 in
        ground
          (arith, accepts.counts env.calls, accepts.counts env'.calls, run-Steps env r goal well)
