-- ===== src/ControlPlane/Replicas/Converging.antt =====
-- Repeated runs of reconcileReplicas against a server that accepts what it is asked, and that no
-- other client changes.
use cluster_api_agent.Prelude.{
  ℕ, zero, suc, ◌+◌, ◌-◌, ◌≤◌, ◌<◌, String, Bool, true, ◌≡◌, refl, List, [], ◌∷◌, Option, is_some,
  arith, length, ltb, Option-cases, inl, inr, if◌then◌else◌,
}
use cluster_api_agent.Prelude.Int.{pos, ◌-ℤ◌}
use cluster_api_agent.Kube.Errors.{ok, Outcome-cases, is_ok}
use cluster_api_agent.Kube.Meta.{TypeMeta, ObjectMeta, ObjectReference}
use cluster_api_agent.Kube.Objects.{Cluster, Machine}
use cluster_api_agent.Kube.Kinds.{Kind, Obj, machine, key_of}
use cluster_api_agent.Kube.Api.{Api, Call, Env, History, TemplateInput}
use cluster_api_agent.Kube.Library.{Library, DomainLaws}
use cluster_api_agent.Kube.Counts.{creates_machine, deletes_machine}
use cluster_api_agent.ControlPlane.Types.{OpenshiftAssistedControlPlane}
use cluster_api_agent.ControlPlane.Machines.{
  next_failure_domain_for_scale_up, next_failure_domain_for_scale_down,
  select_machine_for_scale_down,
}
use cluster_api_agent.ControlPlane.Machines.Domains.{AllPlaced, candidate, some_candidate}
use cluster_api_agent.ControlPlane.Replicas.{
  Derivative, has_expected_specs, up_to_date_machines, scale_up_control_plane,
  scale_down_control_plane, scale, reconcile_replicas, update_replica_status,
}

abbrev Acp : Type 0
Acp = OpenshiftAssistedControlPlane

-- The machines that stand after the calls, where there were so many before.
unfoldable pub standing : ℕ → History → ℕ
standing before [] = before
standing before (c ∷ cs) =
    let n = standing before cs in
    if creates_machine c then suc n else if deletes_machine c then n - 1 else n

abbrev refers : Machine → Bool
refers m = is_some m.spec.bootstrap_config_ref

abbrev pub AllRefer : List Machine → Type 0
AllRefer [] = Unit
AllRefer (m ∷ ms) = (refers m ≡ true) × AllRefer ms

-- A server that accepts every request, and lists the machines that were created and not deleted,
-- each with a reference to its bootstrap configuration, and in no failure domain or in one that the
-- cluster has; and a library that keeps the laws of failure domains.
pub record Accepts (api : Api) (lib : Library) (cluster : Cluster) (before : ℕ) : Type 0 where
  pub owned : History → List Machine
  pub stored : (k : Kind) → Obj k → Obj k
  pub cloned : TemplateInput → ObjectReference
  pub reference : TypeMeta → ObjectMeta → ObjectReference
  pub lists :
      (meta : ObjectMeta) (h : History) → api.owned_machines_answer cluster meta h ≡ ok (owned h)
  pub counts : (h : History) → length (owned h) ≡ standing before h
  pub refer : (h : History) → AllRefer (owned h)
  pub creates : (k : Kind) (o : Obj k) (h : History) → api.create_answer k o h ≡ ok (stored k o)
  pub clones : (i : TemplateInput) (h : History) → api.template_answer i h ≡ ok (cloned i)
  pub deletes : (m : Machine) (h : History) → api.delete_answer machine (key_of m.meta) h ≡ ok tt
  pub references : (t : TypeMeta) (m : ObjectMeta) → lib.get_reference t m ≡ ok (reference t m)
  pub placed : (h : History) → AllPlaced lib cluster (owned h)
  pub domains : DomainLaws lib

-- One machine more or less, towards the replicas.
unfoldable pub approach : ℕ → ℕ → ℕ
approach replicas n = if ltb n replicas then suc n else if ltb replicas n then n - 1 else n

module _ (api : Api) (lib : Library) (derivative : Derivative) (before : ℕ) where
  specs_run :
      (m : Machine) (acp : Acp) (cluster : Cluster) (env : Env Acp)
      → refers m ≡ true
      → let (r, env') = has_expected_specs api lib derivative m acp cluster env in
        (is_ok r ≡ true)
        × (standing before env'.calls ≡ standing before env.calls)
        × (env'.local ≡ env.local)
  unfolding has_expected_specs standing
  specs_run m acp cluster env there = ground arith

  up_to_date_run :
      (ms : List Machine) (acp : Acp) (cluster : Cluster) (env : Env Acp)
      → AllRefer ms
      → let (r, env') = up_to_date_machines api lib derivative ms acp cluster env in
        (is_ok r ≡ true)
        × (standing before env'.calls ≡ standing before env.calls)
        × (env'.local ≡ env.local)
  unfolding up_to_date_machines
  up_to_date_run [] acp cluster env there = (refl, refl, refl)
  up_to_date_run (m ∷ ms) acp cluster env (refer, rest) = ground (
    arith,
    specs_run m acp cluster env refer,
    up_to_date_run ms acp cluster (has_expected_specs api lib derivative m acp cluster env).1 rest,
  )

  module _ (cluster : Cluster) (accepts : Accepts api lib cluster before) where
    open accepts use {owned, stored, cloned, creates, clones, deletes, references}

    scale_up_run :
        (acp : Acp) (fd : Option String) (env : Env Acp)
        → let (r, env') = scale_up_control_plane api lib derivative acp cluster fd env in
          (is_ok r ≡ true)
          × (standing before env'.calls ≡ suc (standing before env.calls))
          × (env'.local ≡ env.local)
    unfolding scale_up_control_plane standing
    scale_up_run acp fd env = grind (arith, creates, clones, references)

    scale_down_run :
        (ms : List Machine) (env : Env Acp)
        → is_some (candidate lib cluster ms) ≡ true
        → let (r, env') =
            scale_down_control_plane api lib derivative ms
              (next_failure_domain_for_scale_down lib cluster ms)
              env in
          (is_ok r ≡ true)
          × (standing before env'.calls ≡ standing before env.calls - 1)
          × (env'.local ≡ env.local)
    unfolding scale_down_control_plane select_machine_for_scale_down standing
    scale_down_run ms env found = elim (Option-cases (candidate lib cluster ms)) [
      | inl missing ↦ absurd (ground arith)
      | inr (m, there) ↦ ground (arith, there, deletes m env.calls)
    ]

    scale_run :
        (acp : Acp) (ms up_to_date : List Machine) (env : Env Acp) {replicas : ℕ}
        → acp.spec.replicas ≡ pos replicas
        → (0 < length ms → is_some (candidate lib cluster ms) ≡ true)
        → length ms ≡ standing before env.calls
        → let (r, env') = scale api lib derivative acp cluster ms up_to_date env in
          (is_ok r ≡ true)
          × (standing before env'.calls ≡ approach replicas (standing before env.calls))
          × (env'.local ≡ env.local)
    unfolding scale approach ◌-ℤ◌
    scale_run acp ms up_to_date env goal found known = ground (
      arith,
      goal,
      known,
      scale_up_run acp (next_failure_domain_for_scale_up lib cluster ms up_to_date) env,
      scale_down_run ms env,
    )

    status_keeps_spec :
        (ms up_to_date : List Machine) (acp : Acp)
        → (update_replica_status lib ms up_to_date acp).spec ≡ acp.spec
    unfolding update_replica_status
    status_keeps_spec ms up_to_date acp = ground arith

    pub reconcile_replicas_refines :
        (env : Env Acp) {replicas : ℕ}
        → env.local.spec.replicas ≡ pos replicas
        → let (r, env') = reconcile_replicas api lib derivative cluster env in
          (r ≡ ok tt)
          × (length (owned env'.calls) ≡ approach replicas (length (owned env.calls)))
          × (env'.local.spec ≡ env.local.spec)
    unfolding reconcile_replicas standing
    reconcile_replicas_refines env goal =
        let ms = owned env.calls in
        let env1 = record env {
          calls = Call.get_owned_machines cluster env.local.meta ∷ env.calls;
        } in
        let (r, env2) = up_to_date_machines api lib derivative ms env.local cluster env1 in
        let (fine, same, kept) =
          up_to_date_run ms env.local cluster env1 (accepts.refer env.calls) in
        elim (Outcome-cases r) [
          | inl (e, failed) ↦ absurd (ground (arith, fine, failed))
          | inr (up, found) ↦ ground (
            arith,
            accepts.lists env.local.meta env.calls,
            found,
            same,
            kept,
            accepts.counts env.calls,
            accepts.counts (scale api lib derivative env.local cluster ms up env2).1.calls,
            scale_run env.local ms up env2 goal
                (some_candidate lib accepts.domains cluster ms (accepts.placed env.calls)),
            status_keeps_spec ms up (scale api lib derivative env.local cluster ms up env2).1.local,
          )
        ]

abbrev pub gap : ℕ → ℕ → ℕ
gap a b = (a - b) + (b - a)

pub gap-approach :
    (replicas n k : ℕ) → gap replicas n ≤ suc k → gap replicas (approach replicas n) ≤ k
unfolding approach
gap-approach replicas n k h = ground arith

module _ (api : Api) (lib : Library) (derivative : Derivative) (cluster : Cluster) where
  -- So many runs, one after the other.
  unfoldable pub runs : ℕ → Env Acp → Env Acp
  runs zero env = env
  runs (suc k) env = runs k (reconcile_replicas api lib derivative cluster env).1
