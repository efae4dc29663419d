-- ===== src/ControlPlane/Marks.antt =====
-- The conditions that the reconciler of a control plane sets.
-- From controlplane/internal/controller/openshiftassistedcontrolplane_controller.go.
use cluster_api_agent.Prelude.{String, ◌<>◌, [], ◌∷◌}
use cluster_api_agent.Kube.Errors.{Err, Outcome, ok, exit}
use cluster_api_agent.Kube.Meta.{Severity, warning_severity}
use cluster_api_agent.Kube.Library.{Library}
use cluster_api_agent.ControlPlane.Types.{
  OpenshiftAssistedControlPlane, kubeconfig_available_condition, control_plane_ready_condition,
  machines_created_condition, kubernetes_version_available_condition,
}

module _ (lib : Library) where
  unfoldable pub mark_true : String → OpenshiftAssistedControlPlane → OpenshiftAssistedControlPlane
  mark_true t oacp = record oacp {
    status = record oacp.status { conditions = lib.mark_true t oacp.status.conditions };
  }

  unfoldable pub mark_false :
      String
      → String
      → Severity
      → String
      → OpenshiftAssistedControlPlane
      → OpenshiftAssistedControlPlane
  mark_false t reason severity message oacp = record oacp {
    status = record oacp.status {
      conditions = lib.mark_false t reason severity message oacp.status.conditions;
    };
  }

  unfoldable pub set_summary : OpenshiftAssistedControlPlane → OpenshiftAssistedControlPlane
  set_summary oacp = record oacp {
    status = record oacp.status {
      conditions =
          lib.set_summary
            ("MachinesReady" ∷ kubeconfig_available_condition ∷ control_plane_ready_condition
              ∷ machines_created_condition ∷ [])
            oacp.status.conditions;
    };
  }

  unfoldable pub mark_kubernetes_version_condition :
      Outcome Err String → OpenshiftAssistedControlPlane → OpenshiftAssistedControlPlane
  unfolding mark_true mark_false
  mark_kubernetes_version_condition (ok version) = mark_true kubernetes_version_available_condition
  mark_kubernetes_version_condition (exit e) =
      mark_false kubernetes_version_available_condition "KubernetesVersionUnavailable"
        warning_severity ("failed to get k8s version from release image: " <> e.text)
