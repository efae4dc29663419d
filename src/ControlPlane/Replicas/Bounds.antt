-- ===== src/ControlPlane/Replicas/Bounds.antt =====
-- How many machines a run of reconcileReplicas creates and deletes.
use cluster_api_agent.Prelude.{
  ◌+◌, ◌≤◌, String, ◌≡◌, refl, List, [], ◌∷◌, Option, arith, length, if◌then◌else◌,
}
use cluster_api_agent.Prelude.Int.{pos, ◌-ℤ◌, ltbℤ}
use cluster_api_agent.Kube.Errors.{Err, Outcome, ok, exit}
use cluster_api_agent.Kube.Objects.{Cluster, Machine}
use cluster_api_agent.Kube.Api.{Api, Call, Env, continue, modify, ◌>>◌}
use cluster_api_agent.Kube.Library.{Library}
use cluster_api_agent.Kube.Counts.{count, creates_machine, deletes_machine}
use cluster_api_agent.ControlPlane.Types.{OpenshiftAssistedControlPlane}
use cluster_api_agent.ControlPlane.Machines.{
  next_failure_domain_for_scale_up, next_failure_domain_for_scale_down,
}
use cluster_api_agent.ControlPlane.Replicas.{
  Derivative, update_replica_status, has_expected_specs, up_to_date_machines,
  scale_up_control_plane, scale_down_control_plane, scale, reconcile_replicas,
}

-- Runs of an action, seen through its two counters.
abbrev SameCounts : Env OpenshiftAssistedControlPlane → Env OpenshiftAssistedControlPlane → Type 0
SameCounts env env' =
    (count creates_machine env'.calls ≡ count creates_machine env.calls)
    × (count deletes_machine env'.calls ≡ count deletes_machine env.calls)

module _ (api : Api) (lib : Library) (derivative : Derivative) where
  has_expected_specs_counts :
      (m : Machine) (acp : OpenshiftAssistedControlPlane) (cluster : Cluster)
      (env : Env OpenshiftAssistedControlPlane)
      → SameCounts env (has_expected_specs api lib derivative m acp cluster env).1
  unfolding has_expected_specs count
  has_expected_specs_counts m acp cluster env = ground arith

  up_to_date_counts :
      (ms : List Machine) (acp : OpenshiftAssistedControlPlane) (cluster : Cluster)
      (env : Env OpenshiftAssistedControlPlane)
      → SameCounts env (up_to_date_machines api lib derivative ms acp cluster env).1
  unfolding up_to_date_machines
  up_to_date_counts [] acp cluster env = (refl, refl)
  up_to_date_counts (m ∷ ms) acp cluster env = ground (
    arith,
    has_expected_specs_counts m acp cluster env,
    up_to_date_counts ms acp cluster (has_expected_specs api lib derivative m acp cluster env).1,
  )

  scale_up_counts :
      (acp : OpenshiftAssistedControlPlane) (cluster : Cluster) (fd : Option String)
      (env : Env OpenshiftAssistedControlPlane)
      → let env' = (scale_up_control_plane api lib derivative acp cluster fd env).1 in
        (count creates_machine env'.calls ≤ count creates_machine env.calls + 1)
        × (count deletes_machine env'.calls ≡ count deletes_machine env.calls)
  unfolding scale_up_control_plane count
  scale_up_counts acp cluster fd env = ground arith

  scale_down_counts :
      (ms : List Machine) (fd : Option String) (env : Env OpenshiftAssistedControlPlane)
      → let env' = (scale_down_control_plane api lib derivative ms fd env).1 in
        (count creates_machine env'.calls ≡ count creates_machine env.calls)
        × (count deletes_machine env'.calls ≤ count deletes_machine env.calls + 1)
  unfolding scale_down_control_plane count
  scale_down_counts ms fd env = ground arith

  -- A machine is created only where fewer than the replicas are owned, and deleted only where more
  -- are; in either case at most one.
  scale_bounds :
      (oacp : OpenshiftAssistedControlPlane) (cluster : Cluster) (ms up_to_date : List Machine)
      (env : Env OpenshiftAssistedControlPlane)
      → let env' = (scale api lib derivative oacp cluster ms up_to_date env).1 in
        let missing = oacp.spec.replicas -ℤ pos (length ms) in
        (count creates_machine env'.calls
          ≤ count creates_machine env.calls + (if ltbℤ (pos 0) missing then 1 else 0))
        × (count deletes_machine env'.calls
            ≤ count deletes_machine env.calls + (if ltbℤ missing (pos 0) then 1 else 0))
  unfolding scale
  scale_bounds oacp cluster ms up_to_date env = ground (
    arith,
    scale_up_counts oacp cluster (next_failure_domain_for_scale_up lib cluster ms up_to_date) env,
    scale_down_counts ms (next_failure_domain_for_scale_down lib cluster ms) env,
  )

  -- The rest of the run, once the machines that are up to date are known or have failed.
  rest_bounds :
      (cluster : Cluster) (ms : List Machine) (oacp : OpenshiftAssistedControlPlane)
      (r : Outcome Err (List Machine)) (env : Env OpenshiftAssistedControlPlane)
      → let env' =
          (continue r
            (λ up_to_date.
              scale api lib derivative oacp cluster ms up_to_date
              >> modify (update_replica_status lib ms up_to_date))
            env).1 in
        let missing = oacp.spec.replicas -ℤ pos (length ms) in
        (count creates_machine env'.calls
          ≤ count creates_machine env.calls + (if ltbℤ (pos 0) missing then 1 else 0))
        × (count deletes_machine env'.calls
            ≤ count deletes_machine env.calls + (if ltbℤ missing (pos 0) then 1 else 0))
  rest_bounds cluster ms oacp (ok up_to_date) env =
      ground (arith, scale_bounds oacp cluster ms up_to_date env)
  rest_bounds cluster ms oacp (exit e) env = ground arith

  -- In a run of reconcileReplicas that finds the machines ms, at most one machine is created, and
  -- only where ms are fewer than the replicas of the specification; at most one is deleted, and only
  -- where ms are more. So it is whether the run ends with an error or not.
  pub reconcile_replicas_bounds :
      (cluster : Cluster) (ms : List Machine) (env : Env OpenshiftAssistedControlPlane)
      → api.owned_machines_answer cluster env.local.meta env.calls ≡ ok ms
      → let env' = (reconcile_replicas api lib derivative cluster env).1 in
        let missing = env.local.spec.replicas -ℤ pos (length ms) in
        (count creates_machine env'.calls
          ≤ count creates_machine env.calls + (if ltbℤ (pos 0) missing then 1 else 0))
        × (count deletes_machine env'.calls
            ≤ count deletes_machine env.calls + (if ltbℤ missing (pos 0) then 1 else 0))
  unfolding reconcile_replicas count
  reconcile_replicas_bounds cluster ms env found =
      let env1 = record env {
        calls = Call.get_owned_machines cluster env.local.meta ∷ env.calls;
      } in
      let (r, env2) = up_to_date_machines api lib derivative ms env.local cluster env1 in
      rw found (
        ground (
          arith,
          up_to_date_counts ms env.local cluster env1,
          rest_bounds cluster ms env.local r env2,
        ))
