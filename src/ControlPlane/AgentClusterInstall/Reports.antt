-- ===== src/ControlPlane/AgentClusterInstall/Reports.antt =====
-- What a run reports of the installation.
use cluster_api_agent.Prelude.{String, ◌≡◌, ◌||◌, ◌∷◌, arith, Bool-cases, inl, inr, if◌then◌else◌}
use cluster_api_agent.Kube.Errors.{ok, Outcome-cases}
use cluster_api_agent.Kube.Meta.{Key}
use cluster_api_agent.Kube.Kinds.{agent_cluster_install, control_plane}
use cluster_api_agent.Kube.Objects.{AgentClusterInstall, Secret}
use cluster_api_agent.Kube.Api.{Api, Call, Env, History}
use cluster_api_agent.Kube.Library.{Library, ConditionLaws, is_true}
use cluster_api_agent.Kube.Reconcile.{done}
use cluster_api_agent.ControlPlane.Common.{get_typed_owner}
use cluster_api_agent.ControlPlane.Types.{
  OpenshiftAssistedControlPlane, kubeconfig_available_condition, control_plane_ready_condition,
}
use cluster_api_agent.ControlPlane.AgentClusterInstall.{
  reconcile, reconcile_owned, has_kubeconfig_ref, get_aci_kubeconfig, update_labels,
  reconcile_kubeconfig, kubeconfig_available, kubeconfig_unavailable, initialized, is_installed,
  control_plane_ready, control_plane_installing, ensure_kubeconfig,
  cluster_kubeconfig_secret_exists, create_kubeconfig, update_controlplane_status, or_unavailable,
}

abbrev Acp : Type 0
Acp = OpenshiftAssistedControlPlane

-- The control plane with what is known of its kubeconfig.
abbrev with_kubeconfig : Library → AgentClusterInstall → Acp → Acp
with_kubeconfig lib aci acp =
    if has_kubeconfig_ref aci
    then initialized (kubeconfig_available lib acp)
    else kubeconfig_unavailable lib "Kubeconfig not available" acp

abbrev with_state : Library → AgentClusterInstall → Acp → Acp
with_state lib aci acp =
    if is_installed aci
    then control_plane_ready lib acp
    else control_plane_installing lib aci.state acp

module _ (api : Api) (lib : Library)
    (stores : (o : Acp) (h : History) → api.update_status_answer control_plane o h ≡ ok o) where
  kubeconfig_keeps_local :
      (aci : AgentClusterInstall) (acp : Acp) (env : Env Acp)
      → (get_aci_kubeconfig api aci acp env).1.local ≡ env.local
  unfolding get_aci_kubeconfig
  kubeconfig_keeps_local aci acp env = ground arith

  ensure_keeps_local :
      (s : Secret) (cluster_name : String) (acp : Acp) (env : Env Acp)
      → (ensure_kubeconfig api lib s cluster_name acp env).0 ≡ ok tt
      → (ensure_kubeconfig api lib s cluster_name acp env).1.local ≡ env.local
  unfolding ensure_kubeconfig cluster_kubeconfig_secret_exists or_unavailable create_kubeconfig
  ensure_keeps_local s cluster_name acp env h = ground arith

  reconcile_kubeconfig_gives :
      (aci : AgentClusterInstall) (env : Env Acp)
      → (reconcile_kubeconfig api lib aci env).0 ≡ ok tt
      → (reconcile_kubeconfig api lib aci env).1.local ≡ with_kubeconfig lib aci env.local
  unfolding reconcile_kubeconfig or_unavailable update_labels
  reconcile_kubeconfig_gives aci env h = elim (Bool-cases (has_kubeconfig_ref aci)) [
    | inl there ↦ grind (arith, stores, kubeconfig_keeps_local, ensure_keeps_local)
    | inr missing ↦ ground arith
  ]

  module _ (conditions : ConditionLaws lib) where
    -- What the two marks of a run say, and that the first survives the second.
    marks_report :
        (aci : AgentClusterInstall) (acp : Acp)
        → let o = with_state lib aci (with_kubeconfig lib aci acp) in
          (o.status.ready ≡ (is_installed aci || acp.status.ready))
          × (o.status.initialized ≡ (has_kubeconfig_ref aci || acp.status.initialized))
          × (is_true lib control_plane_ready_condition o.status.conditions ≡ is_installed aci)
          × (is_true lib kubeconfig_available_condition o.status.conditions
              ≡ has_kubeconfig_ref aci)
    unfolding kubeconfig_available kubeconfig_unavailable control_plane_ready
        control_plane_installing
    marks_report aci acp = grind (arith, conditions.get-mark_true, conditions.get-mark_false)

    owned_reports :
        (aci : AgentClusterInstall) (env : Env Acp)
        → (reconcile_owned api lib aci env).0 ≡ ok done
        → let env' = (reconcile_owned api lib aci env).1 in
          (env'.local ≡ with_state lib aci (with_kubeconfig lib aci env.local))
          × ((h : History) × (env'.calls ≡ Call.update_status control_plane env'.local ∷ h))
    unfolding reconcile_owned update_controlplane_status
    owned_reports aci env well =
        let env3 = (reconcile_kubeconfig api lib aci env).1 in
        elim (Outcome-cases (reconcile_kubeconfig api lib aci env).0) [
          | inl (e, failed) ↦ absurd (ground (arith, failed))
          | inr (u, passed) ↦
              let given = reconcile_kubeconfig_gives aci env passed in
              let known = stores (with_state lib aci env3.local) env3.calls in
              (
                ground (arith, passed, given, known),
                (env3.calls, ground (arith, passed, given, known)),
              )
        ]

    -- A run that ends well on an installation aci that belongs to the control plane acp, where the
    -- server stores a status as it is given: its last call stores a status, by which the control
    -- plane is ready exactly where it was before or the installation has ended, is initialized
    -- exactly where it was before or the installation refers to a kubeconfig, and the two conditions
    -- are true exactly where those of this installation hold.
    pub reconcile_reports :
        (key : Key) (env : Env Acp) (aci : AgentClusterInstall) (acp : Acp)
        → api.get_answer agent_cluster_install key env.calls ≡ ok aci
        → (get_typed_owner api control_plane aci.meta
            (record env { calls = Call.get agent_cluster_install key ∷ env.calls })).0
          ≡ ok acp
        → (reconcile api lib key env).0 ≡ ok done
        → let env' = (reconcile api lib key env).1 in
          let o = env'.local in
          ((h : History) × (env'.calls ≡ Call.update_status control_plane o ∷ h))
          × (o.status.ready ≡ (is_installed aci || acp.status.ready))
          × (o.status.initialized ≡ (has_kubeconfig_ref aci || acp.status.initialized))
          × (is_true lib control_plane_ready_condition o.status.conditions ≡ is_installed aci)
          × (is_true lib kubeconfig_available_condition o.status.conditions
              ≡ has_kubeconfig_ref aci)
    unfolding reconcile
    reconcile_reports key env aci acp found owned well =
        let env1 = record env { calls = Call.get agent_cluster_install key ∷ env.calls } in
        let env2 = record (get_typed_owner api control_plane aci.meta env1).1 { local = acp } in
        let (same, last) = owned_reports aci env2 (rw (found, owned) at well) in
        rw (found, owned)
          (
            last,
            rw same (marks_report aci acp).0,
            rw same (marks_report aci acp).1,
            rw same (marks_report aci acp).2,
            rw same (marks_report aci acp).3,
          )
