-- ===== src/ControlPlane/Replicas/Status.antt =====
-- The replica counters of the status, and the machines that count as up to date.
use cluster_api_agent.Prelude.{
  ℕ, ◌<◌, ◌^◌, ◌≤◌, Bool, false, ◌≡◌, ◌≢◌, List, [], ◌∷◌, some, arith, length, filterb, refl, inl,
  inr,
}
use cluster_api_agent.Prelude.Int.{pos, ◌-ℤ◌, ◌+ℤ◌, to_int32}
use cluster_api_agent.Kube.Meta.{Ptr}
use cluster_api_agent.Kube.Objects.{Machine, Cluster}
use cluster_api_agent.Kube.Library.{Library}
use cluster_api_agent.Kube.Api.{Api, Call, Env}
use cluster_api_agent.Kube.Errors.{ok, Outcome-cases}
use cluster_api_agent.ControlPlane.Types.{OpenshiftAssistedControlPlane}
use cluster_api_agent.ControlPlane.Machines.{is_equal_ptr, has_expected_fields, get_machine_spec}
use cluster_api_agent.ControlPlane.Replicas.{
  Derivative, update_replica_status, has_expected_specs, up_to_date_machines, reconcile_replicas,
  scale,
}

length-filterb-le {ℓ} :
    {A : Type ℓ} (p : A → Bool) (xs : List A) → length (filterb p xs) ≤ length xs
unfolding filterb
length-filterb-le p [] = omega arith
length-filterb-le p (x ∷ xs) = ground (arith, length-filterb-le p xs)

-- Below 2^31 machines the counters do not wrap: the replicas are the machines, and they are the sum
-- of the ready and the unavailable ones.
pub update_replica_status_counts :
    (lib : Library) (machines up_to_date : List Machine) (oacp : OpenshiftAssistedControlPlane)
    → length machines < 2 ^ 31
    → let s = (update_replica_status lib machines up_to_date oacp).status in
      (s.replicas ≡ pos (length machines))
      × (s.ready_replicas ≡ pos (length (filterb lib.is_ready machines)))
      × (s.ready_replicas +ℤ s.unavailable_replicas ≡ s.replicas)
unfolding update_replica_status to_int32 ◌-ℤ◌ ◌+ℤ◌
update_replica_status_counts lib machines up_to_date oacp h =
    ground (arith, length-filterb-le lib.is_ready machines)

-- A machine does not count as up to date where its specification sets a drain timeout at another
-- place in memory than the one of the control plane, whatever the two durations are.
drain_timeout_outdates :
    (api : Api) (lib : Library) (derivative : Derivative) (m : Machine)
    (acp : OpenshiftAssistedControlPlane) (cluster : Cluster)
    (env : Env OpenshiftAssistedControlPlane) (expected actual : Ptr ℕ)
    → acp.spec.machine_template.node_drain_timeout ≡ some expected
    → m.spec.node_drain_timeout ≡ some actual
    → expected.address ≢ actual.address
    → has_expected_specs api lib derivative m acp cluster env ≡ (ok false, env)
unfolding has_expected_specs has_expected_fields get_machine_spec is_equal_ptr
drain_timeout_outdates api lib derivative m acp cluster env expected actual a b ne =
    rw (a, b) (ground arith)

-- Each of the machines has its drain timeout at another place than the given one.
abbrev pub AllElsewhere : Ptr ℕ → List Machine → Type 0
AllElsewhere expected [] = Unit
AllElsewhere expected (m ∷ ms) =
    ((actual : Ptr ℕ) × (m.spec.node_drain_timeout ≡ some actual)
      × (expected.address ≢ actual.address))
    × AllElsewhere expected ms

module _ (api : Api) (lib : Library) (derivative : Derivative) where
  none_up_to_date :
      (ms : List Machine) (acp : OpenshiftAssistedControlPlane) (cluster : Cluster)
      (env : Env OpenshiftAssistedControlPlane) (expected : Ptr ℕ)
      → acp.spec.machine_template.node_drain_timeout ≡ some expected
      → AllElsewhere expected ms
      → up_to_date_machines api lib derivative ms acp cluster env ≡ (ok [], env)
  unfolding up_to_date_machines
  none_up_to_date [] acp cluster env expected set all = refl
  none_up_to_date (m ∷ ms) acp cluster env expected set ((actual, a, ne), all) =
      let outdated =
        drain_timeout_outdates api lib derivative m acp cluster env expected actual set a ne in
      rw (outdated, none_up_to_date ms acp cluster env expected set all) refl

  -- Where the template sets a drain timeout, and every machine that is listed has one at another
  -- place in memory, of whatever duration, a run of reconcileReplicas that succeeds counts no machine
  -- as up to date.
  pub reconcile_replicas_outdates :
      (cluster : Cluster) (ms : List Machine) (env : Env OpenshiftAssistedControlPlane)
      (expected : Ptr ℕ)
      → api.owned_machines_answer cluster env.local.meta env.calls ≡ ok ms
      → env.local.spec.machine_template.node_drain_timeout ≡ some expected
      → AllElsewhere expected ms
      → (reconcile_replicas api lib derivative cluster env).0 ≡ ok tt
      → (reconcile_replicas api lib derivative cluster env).1.local.status.updated_replicas ≡ pos 0
  unfolding reconcile_replicas update_replica_status to_int32
  reconcile_replicas_outdates cluster ms env expected listed set all well =
      let env1 = record env {
        calls = Call.get_owned_machines cluster env.local.meta ∷ env.calls;
      } in
      let found = none_up_to_date ms env.local cluster env1 expected set all in
      let scaled = scale api lib derivative env.local cluster ms [] env1 in
      elim (Outcome-cases scaled.0) [
        | inl (e, failed) ↦ absurd (ground (arith, listed, found, failed))
        | inr (t, passed) ↦ ground (arith, listed, found, passed)
      ]
