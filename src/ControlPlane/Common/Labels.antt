-- ===== src/ControlPlane/Common/Labels.antt =====
-- The labels of what a control plane owns: ControlPlaneMachineLabelsForCluster of util/util.go.
use cluster_api_agent.Prelude.{
  String, false, ◌==◌, ◌≡◌, some, arith, lookup, UniqueKeys, lookup-insert, lookup-insert_all, [],
}
use cluster_api_agent.Kube.Library.{Library}
use cluster_api_agent.ControlPlane.Types.{OpenshiftAssistedControlPlane}
use cluster_api_agent.ControlPlane.Common.{
  cluster_name_label, machine_control_plane_label, machine_control_plane_name_label,
  control_plane_machine_labels_for_cluster,
}

-- The three labels of the control plane are there with its own values, whatever the machine
-- template gives for them; any other key has the value of the template, whose keys are unique.
pub control_plane_machine_labels_win :
    (lib : Library) (acp : OpenshiftAssistedControlPlane) (cluster_name k : String)
    → UniqueKeys acp.spec.machine_template.labels
    → (cluster_name_label == k) ≡ false
    → (machine_control_plane_label == k) ≡ false
    → (machine_control_plane_name_label == k) ≡ false
    → let labels = control_plane_machine_labels_for_cluster lib acp cluster_name in
      (lookup cluster_name_label labels ≡ some cluster_name)
      × (lookup machine_control_plane_label labels ≡ some "")
      × (lookup machine_control_plane_name_label labels ≡ some (lib.format_value acp.meta.name))
      × (lookup k labels ≡ lookup k acp.spec.machine_template.labels)
unfolding control_plane_machine_labels_for_cluster lookup
control_plane_machine_labels_win lib acp cluster_name k unique a b c = (
  simp lookup-insert,
  simp lookup-insert,
  simp lookup-insert,
  rw (lookup-insert, c, lookup-insert, b, lookup-insert, a)
      (ground (arith, lookup-insert_all k acp.spec.machine_template.labels [] unique)),
)
