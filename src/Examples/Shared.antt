-- ===== src/Examples/Shared.antt =====
-- What the controllers of the control plane share, and the kubeconfig of an installation.
use cluster_api_agent.Prelude.{true, ◌≡◌, ◌||◌, ◌&&◌, refl, [], ◌∷◌, lookup, contains}
use cluster_api_agent.Kube.Errors.{Err, Outcome, ok, exit}
use cluster_api_agent.Kube.Kinds.{Kind, Obj, control_plane}
use cluster_api_agent.Kube.Api.{Api, Call, History}
use cluster_api_agent.Kube.Meta.{Key, ObjectMeta, named}
use cluster_api_agent.Kube.Objects.{AgentClusterInstall}
use cluster_api_agent.Kube.Library.{is_true}
use cluster_api_agent.Kube.Counts.{count, stores_status}
use cluster_api_agent.ControlPlane.Common.{get_typed_owner}
use cluster_api_agent.ControlPlane.Types.{
  control_plane_ready_condition, kubeconfig_available_condition,
}
use cluster_api_agent.ControlPlane.AgentClusterInstall
use cluster_api_agent.ControlPlane.AgentClusterInstall.{
  has_kubeconfig_ref, is_installed, reconcile_kubeconfig, get_aci_kubeconfig, update_labels,
  cluster_kubeconfig_secret_exists,
}
use cluster_api_agent.ControlPlane.AgentClusterInstall.Reports.{reconcile_reports}
use cluster_api_agent.ControlPlane.AgentClusterInstall.Status.{reconcile_stores_nothing}
use cluster_api_agent.ControlPlane.Capabilities.{
  default_baremetal_additional_capabilities, get_additional_capabilities,
}
use cluster_api_agent.ControlPlane.Capabilities.Lists.{
  is_taken, contains-get_additional_capabilities,
}
use cluster_api_agent.Examples.Objects.{acp, installation}
use cluster_api_agent.Examples.World.{plain, plain_conditions, nothing, missing, at_start}

abbrev owned : ObjectMeta
owned = record (named "cd" "ns") {
  owner_references =
      record {
        api_version = "v1alpha2";
        kind = "OpenshiftAssistedControlPlane";
        name = "cp";
        uid = "";
        controller = true;
      }
      ∷ [];
}

abbrev without_secret : (k : Kind) → Outcome Err (Obj k)
without_secret Kind.agent_cluster_install = ok (record installation { meta = owned })
without_secret Kind.control_plane = ok acp
without_secret k = exit missing

abbrev secretless : Api
secretless = record nothing {
  get_answer = λ k key h. without_secret k;
  update_status_answer = λ k o h. ok o;
}

reconcile_stores_nothing_example :
    count stores_status
      (AgentClusterInstall.reconcile secretless plain
        (record { namespace = "ns"; name = "cp" })
        (at_start acp)).1.calls
    ≡ 0
unfolding count has_kubeconfig_ref
reconcile_stores_nothing_example =
    reconcile_stores_nothing secretless plain missing (λ key h. refl)
      (record { namespace = "ns"; name = "cp" }) (at_start acp)
      (record installation { meta = owned }) refl refl

-- The installation has ended, and has written its kubeconfig.
abbrev ended : AgentClusterInstall
ended = record installation { meta = owned; state = "adding-hosts" }

abbrev with_secret : (k : Kind) → Outcome Err (Obj k)
with_secret Kind.agent_cluster_install = ok ended
with_secret Kind.control_plane = ok acp
with_secret Kind.secret = ok (record {
  type_meta = record { api_version = "v1"; kind = "Secret" };
  meta = named "admin-kubeconfig" "ns";
  contents = ("kubeconfig", "k") ∷ [];
  secret_type = "";
})
with_secret k = exit missing

abbrev reporting : Api
reporting = record nothing {
  get_answer = λ k key h. with_secret k;
  update_answer = λ k o h. ok o;
  update_status_answer = λ k o h. ok o;
}

abbrev request : Key
request = record { namespace = "ns"; name = "cp" }

reconcile_reports_example :
    let env' = (AgentClusterInstall.reconcile reporting plain request (at_start acp)).1 in
    let o = env'.local in
    ((h : History) × (env'.calls ≡ Call.update_status control_plane o ∷ h))
    × (o.status.ready ≡ true)
    × (o.status.initialized ≡ true)
    × (is_true plain control_plane_ready_condition o.status.conditions ≡ true)
    × (is_true plain kubeconfig_available_condition o.status.conditions ≡ true)
unfolding get_typed_owner lookup AgentClusterInstall.reconcile reconcile_kubeconfig
    has_kubeconfig_ref get_aci_kubeconfig update_labels cluster_kubeconfig_secret_exists
    is_installed
reconcile_reports_example =
    reconcile_reports reporting plain (λ o h. refl) plain_conditions request (at_start acp) ended
      acp refl refl refl

contains-get_additional_capabilities_example :
    contains (get_additional_capabilities ("machineapi" ∷ "Console" ∷ "Build" ∷ []) true) "Build"
    ≡ (contains default_baremetal_additional_capabilities "Build"
        || (contains ("machineapi" ∷ "Console" ∷ "Build" ∷ []) "Build" && is_taken true "Build"))
contains-get_additional_capabilities_example =
    contains-get_additional_capabilities ("machineapi" ∷ "Console" ∷ "Build" ∷ []) true "Build"
