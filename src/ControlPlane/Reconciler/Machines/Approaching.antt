-- ===== src/ControlPlane/Reconciler/Machines/Approaching.antt =====
-- What a run does from ensurePullSecret on is one step towards the replicas, against a server that
-- accepts every request about machines, and that no other client changes.
use cluster_api_agent.Prelude.{ℕ, String, ◌≡◌, refl, Option, none, some, arith, inl, inr}
use cluster_api_agent.Prelude.Int.{pos}
use cluster_api_agent.Kube.Errors.{Err, Outcome, ok, exit, Outcome-cases}
use cluster_api_agent.Kube.Objects.{Cluster}
use cluster_api_agent.Kube.Api.{Env}
use cluster_api_agent.Kube.Library.{Library}
use cluster_api_agent.Kube.Reconcile.{Result}
use cluster_api_agent.ControlPlane.Common.{
  get_pull_secret, get_architecture_from_bootstrap_configs, release_image_of,
}
use cluster_api_agent.ControlPlane.Marks.{mark_true, mark_false, mark_kubernetes_version_condition}
use cluster_api_agent.ControlPlane.Version.{get_kubernetes_version}
use cluster_api_agent.ControlPlane.Replicas.{reconcile_replicas}
use cluster_api_agent.ControlPlane.Replicas.Converging.{
  Accepts, standing, approach, reconcile_replicas_refines,
}
use cluster_api_agent.ControlPlane.Resources.{Acp, ensure_pull_secret, ensure_cluster_deployment}
use cluster_api_agent.ControlPlane.WorkloadUpgrade.{Tools, value_of}
use cluster_api_agent.ControlPlane.Reconciler.{
  or_stop, upgrade_if_reachable, with_replicas, upgrade_and_scale, upgrade_unavailable,
  image_missing, reconcile_version, reconcile_release, reconcile_cluster, set_version,
}
use cluster_api_agent.ControlPlane.WorkloadUpgrade.Untouched.{upgrade_workload_cluster-Untouched}
use cluster_api_agent.ControlPlane.Reconciler.Machines.{reachable_same}
use cluster_api_agent.ControlPlane.Reconciler.Machines.Quiet.{
  Quiet, pull_secret-Quiet, cluster_deployment-Quiet, get_pull_secret-Quiet, architecture-Quiet,
  version-Quiet, standing_same,
}

-- One step towards the replicas, which stay.
abbrev pub Steps : ℕ → ℕ → Env Acp → Env Acp → Type 0
Steps before replicas env env' =
    (standing before env'.calls ≡ approach replicas (standing before env.calls))
    × (env'.local.spec.replicas ≡ pos replicas)

module _ (tools : Tools) (before : ℕ) where
  open tools use {api, lib}

  unavailable-Quiet :
      (e : Option Err) (env : Env Acp) → Quiet before env (upgrade_unavailable tools e env).1
  unfolding upgrade_unavailable mark_false
  unavailable-Quiet none env = (refl, refl)
  unavailable-Quiet (some e) env = (refl, refl)

  reachable-Quiet :
      (cluster : Cluster) (architecture pull_secret : String) (acp : Acp) (env : Env Acp)
      → Quiet before env (upgrade_if_reachable tools cluster architecture pull_secret acp env).1
  unfolding upgrade_if_reachable or_stop
  reachable-Quiet cluster architecture pull_secret acp env =
      let env' = (upgrade_if_reachable tools cluster architecture pull_secret acp env).1 in
      (
        standing_same before env.calls env'.calls
            (reachable_same tools cluster architecture pull_secret acp env).2,
        grind (arith, upgrade_workload_cluster-Untouched),
      )

mark_keeps_spec :
    (lib : Library) (v : Outcome Err String) (acp : Acp)
    → (mark_kubernetes_version_condition lib v acp).spec ≡ acp.spec
unfolding mark_kubernetes_version_condition mark_true mark_false
mark_keeps_spec lib (ok v) acp = refl
mark_keeps_spec lib (exit e) acp = refl

module _ (tools : Tools) {before : ℕ} {cluster : Cluster}
    (accepts : Accepts tools.api tools.lib cluster before) (replicas : ℕ) where
  open tools use {api, lib, codecs, parse_tolerant, unmarshal, deep_derivative}

  replicas-Steps :
      (result : Result) (env : Env Acp)
      → env.local.spec.replicas ≡ pos replicas
      → Steps before replicas env (with_replicas tools cluster result env).1
  unfolding with_replicas
  replicas-Steps result env goal =
      let env' = (reconcile_replicas api lib deep_derivative cluster env).1 in
      ground (
        arith,
        reconcile_replicas_refines api lib deep_derivative before cluster accepts env goal,
        accepts.counts env.calls,
        accepts.counts env'.calls,
      )

  scale-Steps :
      (architecture pull_secret : String) (env : Env Acp) (r : Result)
      → env.local.spec.replicas ≡ pos replicas
      → (upgrade_and_scale tools cluster architecture pull_secret env).0 ≡ ok r
      → Steps before replicas env (upgrade_and_scale tools cluster architecture pull_secret env).1
  unfolding upgrade_and_scale
  scale-Steps architecture pull_secret env r goal well =
      let (u, env1) = upgrade_if_reachable tools cluster architecture pull_secret env.local env in
      let (same, kept) =
        reachable-Quiet tools before cluster architecture pull_secret env.local env in
      elim (Outcome-cases u) [
        | inl (e, failed) ↦ absurd (ground (arith, failed))
        | inr (result, passed) ↦
            ground (arith, passed, same, kept, replicas-Steps result env1 (ground arith))
      ]

  version-Steps :
      (acp : Acp) (pull_secret architecture : String) (env : Env Acp) (r : Result)
      → env.local.spec.replicas ≡ pos replicas
      → (reconcile_version tools cluster acp pull_secret architecture env).0 ≡ ok r
      → Steps before replicas env
          (reconcile_version tools cluster acp pull_secret architecture env).1
  unfolding reconcile_version
  version-Steps acp pull_secret architecture env r goal well =
      let image = release_image_of parse_tolerant acp architecture in
      let (v, env1) = get_kubernetes_version api codecs unmarshal image pull_secret env in
      let (same, kept) = version-Quiet tools before image pull_secret env in
      let env2 = record env1 { local = mark_kubernetes_version_condition lib v env1.local } in
      let marked = mark_keeps_spec lib v env1.local in
      let (u, env3) = upgrade_unavailable tools (image_missing tools v) env2 in
      let (same', kept') = unavailable-Quiet tools before (image_missing tools v) env2 in
      let env4 = record env3 { local = set_version (value_of v) env3.local } in
      elim (Outcome-cases u) [
        | inl (e, failed) ↦ absurd (ground (arith, failed))
        | inr (t, passed) ↦
            let goal' : env4.local.spec.replicas ≡ pos replicas =
              ground (arith, kept, marked, kept') in
            let well' : (upgrade_and_scale tools cluster architecture pull_secret env4).0 ≡ ok r =
              ground (arith, passed) in
            ground
              (arith, passed, same, same', scale-Steps architecture pull_secret env4 r goal' well')
      ]

  release-Steps :
      (env : Env Acp) (r : Result)
      → env.local.spec.replicas ≡ pos replicas
      → (reconcile_release tools cluster env).0 ≡ ok r
      → Steps before replicas env (reconcile_release tools cluster env).1
  unfolding reconcile_release
  release-Steps env r goal well =
      let (p, env1) = get_pull_secret api env.local env in
      let (a, env2) = get_architecture_from_bootstrap_configs api env.local env1 in
      let (same, kept) = get_pull_secret-Quiet tools before env.local env in
      let (same', kept') = architecture-Quiet tools before env.local env1 in
      elim (Outcome-cases p) [
        | inl (e, failed) ↦ absurd (ground (arith, failed))
        | inr (secret, got) ↦ elim (Outcome-cases a) [
          | inl (e, failed) ↦ absurd (ground (arith, got, failed))
          | inr (architecture, found) ↦
              let well' : (reconcile_version tools cluster env.local secret architecture env2).0
                  ≡ ok r =
                ground (arith, got, found) in
              ground (
                arith,
                got,
                found,
                same,
                same',
                version-Steps env.local secret architecture env2 r (ground (arith, kept, kept'))
                    well',
              )
        ]
      ]

  pub cluster-Steps :
      (env : Env Acp) (r : Result)
      → env.local.spec.replicas ≡ pos replicas
      → (reconcile_cluster tools cluster env).0 ≡ ok r
      → Steps before replicas env (reconcile_cluster tools cluster env).1
  unfolding reconcile_cluster
  cluster-Steps env r goal well =
      let (p, env1) = ensure_pull_secret api lib env in
      let (d, env2) = ensure_cluster_deployment api lib cluster.meta.name env1 in
      let (same, kept) = pull_secret-Quiet tools before env in
      let (same', kept') = cluster_deployment-Quiet tools before cluster.meta.name env1 in
      elim (Outcome-cases p) [
        | inl (e, failed) ↦ absurd (ground (arith, failed))
        | inr (t, got) ↦ elim (Outcome-cases d) [
          | inl (e, failed) ↦ absurd (ground (arith, got, failed))
          | inr (t', found) ↦
              let well' : (reconcile_release tools cluster env2).0 ≡ ok r =
                ground (arith, got, found) in
              ground (
                arith,
                got,
                found,
                same,
                same',
                release-Steps env2 r (ground (arith, kept, kept')) well',
              )
        ]
      ]
