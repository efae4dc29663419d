-- ===== src/ControlPlane/AgentClusterInstall/Status.antt =====
-- Which statuses of the control plane are stored.
use cluster_api_agent.Prelude.{
  String, true, false, ◌==◌, ◌≡◌, ◌<>◌, refl, List, [], ◌∷◌, arith, some, Option-cases, inl, inr,
}
use cluster_api_agent.ControlPlane.Common.{get_typed_owner, typed_owner_loop}
use cluster_api_agent.Kube.Errors.{Err, ok, exit}
use cluster_api_agent.Kube.Meta.{Key, OwnerReference}
use cluster_api_agent.Kube.Kinds.{Kind, agent_cluster_install, secret}
use cluster_api_agent.Kube.Objects.{AgentClusterInstall}
use cluster_api_agent.Kube.Api.{Api, Call, Env, History}
use cluster_api_agent.Kube.Library.{Library}
use cluster_api_agent.Kube.Counts.{count, stores_status}
use cluster_api_agent.ControlPlane.Types.{OpenshiftAssistedControlPlane}
use cluster_api_agent.ControlPlane.AgentClusterInstall.{
  reconcile, has_kubeconfig_ref, get_aci_kubeconfig, reconcile_kubeconfig, kubeconfig_unavailable,
}

module _ (api : Api) (lib : Library) where
  -- Where the secret of the kubeconfig is referred to and cannot be fetched, the control plane in
  -- memory is marked, and no status of it is stored: the mark is lost with the run.
  pub reconcile_kubeconfig_loses_mark :
      (aci : AgentClusterInstall) (env : Env OpenshiftAssistedControlPlane) (e : Err)
      (name : String)
      → aci.spec.cluster_metadata ≡ some name
      → (name == "") ≡ false
      → ((key : Key) (h : History) → api.get_answer secret key h ≡ exit e)
      → let (r, env') = reconcile_kubeconfig api lib aci env in
        (r ≡ exit e)
        × (env'.local
            ≡ kubeconfig_unavailable lib ("error retrieving Kubeconfig " <> e.text) env.local)
        × (count stores_status env'.calls ≡ count stores_status env.calls)
  unfolding reconcile_kubeconfig has_kubeconfig_ref get_aci_kubeconfig count
  reconcile_kubeconfig_loses_mark aci env e name named given refused =
      rw (named, given, refused) (ground arith)

module _ {L : Type 0} (api : Api) where
  stores_owner_loop :
      (k : Kind) (namespace : String) (refs : List OwnerReference) (env : Env L)
      → count stores_status (typed_owner_loop api k namespace refs env).1.calls
        ≡ count stores_status env.calls
  unfolding typed_owner_loop count
  stores_owner_loop k namespace [] env = refl
  stores_owner_loop k namespace (ref ∷ refs) env =
      let key : Key = record { namespace = namespace; name = ref.name } in
      let env' = record env { calls = Call.get k key ∷ env.calls } in
      ground (arith, stores_owner_loop k namespace refs env')

module _ (api : Api) (lib : Library) (e : Err)
    (refused : (key : Key) (h : History) → api.get_answer secret key h ≡ exit e) where
  refused_kubeconfig :
      (aci : AgentClusterInstall) (env : Env OpenshiftAssistedControlPlane)
      → has_kubeconfig_ref aci ≡ true
      → let (r, env') = reconcile_kubeconfig api lib aci env in
        (r ≡ exit e) × (count stores_status env'.calls ≡ count stores_status env.calls)
  unfolding has_kubeconfig_ref
  refused_kubeconfig aci env h = elim (Option-cases aci.spec.cluster_metadata) [
    | inl absent ↦ absurd (ground arith)
    | inr (name, there) ↦
        let given : (name == "") ≡ false = ground arith in
        let (a, b, c) =
          reconcile_kubeconfig_loses_mark api lib aci env e name there given refused in
        (a, c)
  ]

  -- While the secret of the kubeconfig cannot be fetched, no run on an AgentClusterInstall that
  -- refers to one stores a status of the control plane: what the run has marked is lost with it.
  pub reconcile_stores_nothing :
      (key : Key) (env : Env OpenshiftAssistedControlPlane) (aci : AgentClusterInstall)
      → api.get_answer agent_cluster_install key env.calls ≡ ok aci
      → has_kubeconfig_ref aci ≡ true
      → count stores_status (reconcile api lib key env).1.calls ≡ count stores_status env.calls
  unfolding reconcile get_typed_owner count
  reconcile_stores_nothing key env aci found named =
      rw found (
        grind
          (arith, refused_kubeconfig, stores_owner_loop {L = OpenshiftAssistedControlPlane} api))
