-- ===== src/ControlPlane/Reconciler/Machines.antt =====
-- How many machines a whole run creates and deletes.
pub mod Approaching
pub mod Converging
pub mod Quiet
use cluster_api_agent.Prelude.{◌+◌, ◌≤◌, String, refl, Option, none, some, arith, inl, inr}
use cluster_api_agent.Kube.Errors.{Err, Outcome-cases}
use cluster_api_agent.Kube.Meta.{Key}
use cluster_api_agent.Kube.Objects.{Cluster}
use cluster_api_agent.Kube.Api.{Env, Exec, read, ◌>>=◌}
use cluster_api_agent.Kube.Reconcile.{Result, Returned, or_return, stop, after}
use cluster_api_agent.Kube.Counts.{
  count, creates_machine, deletes_machine, machine_calls, SameMachines,
}
use cluster_api_agent.Containers.{get_image}
use cluster_api_agent.ControlPlane.Common.{
  get_pull_secret, get_architecture_from_bootstrap_configs, create_or_update,
}
use cluster_api_agent.ControlPlane.Version.{get_kubernetes_version}
use cluster_api_agent.ControlPlane.Replicas.{reconcile_replicas}
use cluster_api_agent.ControlPlane.Replicas.Bounds.{reconcile_replicas_bounds}
use cluster_api_agent.ControlPlane.Resources.{
  Acp, handle_deletion, ensure_pull_secret, ensure_cluster_deployment,
}
use cluster_api_agent.ControlPlane.WorkloadUpgrade.{Tools}
use cluster_api_agent.ControlPlane.WorkloadUpgrade.Machines.{upgrade_workload_cluster-SameMachines}
use cluster_api_agent.ControlPlane.Reconciler.{
  reconcile_release, upgrade_and_scale, reconcile_version, or_stop, upgrade_if_reachable,
  with_replicas, upgrade_unavailable, reconcile_cluster, reconcile_owned, reconcile_live,
  reconcile_body, finish, run_body, reconcile,
}

-- At most one machine is created, and at most one deleted.
abbrev pub OneMachine : Env Acp → Env Acp → Type 0
OneMachine env env' =
    (count creates_machine env'.calls ≤ count creates_machine env.calls + 1)
    × (count deletes_machine env'.calls ≤ count deletes_machine env.calls + 1)

abbrev Keeps : {E A : Type 0} → Exec Acp E A → Type 0
Keeps m = (env : Env Acp) → SameMachines env (m env).1

abbrev Once : {E A : Type 0} → Exec Acp E A → Type 0
Once m = (env : Env Acp) → OneMachine env (m env).1

Once-of_Keeps : {E A : Type 0} (m : Exec Acp E A) → Keeps m → Once m
Once-of_Keeps m keeps env = ground (arith, keeps env)

or_return-Keeps : {A : Type 0} (m : Exec Acp Err A) → Keeps m → Keeps (or_return m)
or_return-Keeps m keeps env = elim (Outcome-cases (m env).0) [
  | inl (e, failed) ↦ rw failed (keeps env)
  | inr (a, found) ↦ rw found (keeps env)
]

seq-Once :
    {E A B : Type 0} (m : Exec Acp E A) (k : A → Exec Acp E B)
    → Keeps m
    → ((a : A) → Once (k a))
    → Once (m >>= k)
seq-Once m k keeps once env = elim (Outcome-cases (m env).0) [
  | inl (e, failed) ↦ rw failed (ground (arith, keeps env))
  | inr (a, found) ↦ rw found (ground (arith, keeps env, once a (m env).1))
]

module _ (tools : Tools) where
  open tools use {api, lib, codecs, parse_tolerant, unmarshal, deep_derivative}

  deletion_same : (env : Env Acp) → SameMachines env (handle_deletion api lib env).1
  unfolding handle_deletion count machine_calls
  deletion_same env = ground arith

  pull_secret_same : (env : Env Acp) → SameMachines env (ensure_pull_secret api lib env).1
  unfolding ensure_pull_secret count machine_calls
  pull_secret_same env = ground arith

  cluster_deployment_same :
      (name : String) (env : Env Acp)
      → SameMachines env (ensure_cluster_deployment api lib name env).1
  unfolding ensure_cluster_deployment create_or_update count machine_calls
  cluster_deployment_same name env = ground arith

  get_pull_secret_same :
      (acp : Acp) (env : Env Acp) → SameMachines env (get_pull_secret api acp env).1
  unfolding get_pull_secret count machine_calls
  get_pull_secret_same acp env = ground arith

  architecture_same :
      (acp : Acp) (env : Env Acp)
      → SameMachines env (get_architecture_from_bootstrap_configs api acp env).1
  unfolding get_architecture_from_bootstrap_configs count machine_calls
  architecture_same acp env = ground arith

  version_same :
      (image pull_secret : String) (env : Env Acp)
      → SameMachines env (get_kubernetes_version api codecs unmarshal image pull_secret env).1
  unfolding get_kubernetes_version get_image count machine_calls
  version_same image pull_secret env = ground arith

  replicas_one :
      (cluster : Cluster) (env : Env Acp)
      → OneMachine env (reconcile_replicas api lib deep_derivative cluster env).1
  unfolding reconcile_replicas count machine_calls
  replicas_one cluster env =
      elim (Outcome-cases (api.owned_machines_answer cluster env.local.meta env.calls)) [
        | inl (e, failed) ↦ rw failed (ground arith)
        | inr (ms, found) ↦
            ground (arith, reconcile_replicas_bounds api lib deep_derivative cluster ms env found)
      ]

  unavailable_same : (e : Option Err) → Keeps (upgrade_unavailable tools e)
  unfolding upgrade_unavailable
  unavailable_same none env = (refl, refl, refl)
  unavailable_same (some e) env = (refl, refl, refl)

  reachable_same :
      (cluster : Cluster) (architecture pull_secret : String) (acp : Acp)
      → Keeps (upgrade_if_reachable tools cluster architecture pull_secret acp)
  unfolding upgrade_if_reachable or_stop
  reachable_same cluster architecture pull_secret acp env =
      grind (arith, upgrade_workload_cluster-SameMachines)

  with_replicas-Once :
      (cluster : Cluster) (result : Result) → Once (with_replicas tools cluster result)
  unfolding with_replicas
  with_replicas-Once cluster result env =
      let one = replicas_one cluster env in
      elim (Outcome-cases (reconcile_replicas api lib deep_derivative cluster env).0) [
        | inl (e, failed) ↦ rw failed one
        | inr (a, found) ↦ rw found one
      ]

  scale-Once :
      (cluster : Cluster) (architecture pull_secret : String)
      → Once (upgrade_and_scale tools cluster architecture pull_secret)
  unfolding upgrade_and_scale
  scale-Once cluster architecture pull_secret =
      seq-Once read
        (λ oacp.
          upgrade_if_reachable tools cluster architecture pull_secret oacp
          >>= with_replicas tools cluster)
        (λ env. (refl, refl, refl))
        (λ oacp.
          seq-Once (upgrade_if_reachable tools cluster architecture pull_secret oacp)
            (with_replicas tools cluster) (reachable_same cluster architecture pull_secret oacp)
            (with_replicas-Once cluster))

  version-Once :
      (cluster : Cluster) (oacp : Acp) (pull_secret architecture : String)
      → Once (reconcile_version tools cluster oacp pull_secret architecture)
  unfolding reconcile_version
  version-Once cluster oacp pull_secret architecture env =
      grind (arith, version_same, unavailable_same, scale-Once)

  release-Once : (cluster : Cluster) → Once (reconcile_release tools cluster)
  unfolding reconcile_release
  release-Once cluster env = grind (arith, get_pull_secret_same, architecture_same, version-Once)

  cluster-Once : (cluster : Cluster) → Once (reconcile_cluster tools cluster)
  unfolding reconcile_cluster
  cluster-Once cluster env = grind (arith, pull_secret_same, cluster_deployment_same, release-Once)

  owned-Once : (cluster : Option Cluster) (oacp : Acp) → Once (reconcile_owned tools cluster oacp)
  unfolding reconcile_owned
  owned-Once none oacp env =
      Once-of_Keeps {E = Returned} {A = Result} (stop (after 10)) (λ e. (refl, refl, refl)) env
  owned-Once (some cluster) oacp env = grind (arith, cluster-Once cluster env)

  live-Once : Once (reconcile_live tools)
  unfolding reconcile_live count machine_calls
  live-Once env = grind (arith, owned-Once)

  body-Once : Once (reconcile_body tools)
  unfolding reconcile_body
  body-Once env = grind (arith, deletion_same env, live-Once env)

  run_body-Once : Once (run_body tools)
  unfolding run_body finish count machine_calls
  run_body-Once env = grind (arith, body-Once env)

  -- A run of Reconcile creates at most one machine and deletes at most one, whatever is answered to
  -- it and however it ends.
  pub reconcile_machines : (key : Key) (env : Env Acp) → OneMachine env (reconcile tools key env).1
  unfolding reconcile count machine_calls
  reconcile_machines key env = grind (arith, run_body-Once)
