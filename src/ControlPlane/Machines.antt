-- ===== src/ControlPlane/Machines.antt =====
-- The machines of a control plane: util/failuredomains, and the replica functions of
-- controlplane/internal/controller/openshiftassistedcontrolplane_controller.go. The local object
-- is the control plane.
pub mod Domains
use cluster_api_agent.Prelude.{
  String, Bool, true, false, ◌==◌, ◌&&◌, List, [], ◌∷◌, Option, none, some, lookup, insert_all,
  is_empty, is_some, filterb, nat_eq, if◌then◌else◌,
}
use cluster_api_agent.Kube.Errors.{Err, Outcome, ok, exit, error}
use cluster_api_agent.Kube.Meta.{OwnerReference, Ptr, no_type, named, error_severity}
use cluster_api_agent.Kube.Objects.{Cluster, Machine, MachineSpec}
use cluster_api_agent.Kube.Api.{Exec, TemplateInput}
use cluster_api_agent.Kube.Library.{Library, owned_by}
use cluster_api_agent.Bootstrap.Types.{OpenshiftAssistedConfig}
use cluster_api_agent.ControlPlane.Types.{OpenshiftAssistedControlPlane, machines_created_condition}
use cluster_api_agent.ControlPlane.Common.{control_plane_machine_labels_for_cluster}

abbrev delete_machine_annotation : String
delete_machine_annotation = "cluster.x-k8s.io/delete-machine"

abbrev has_delete_annotation : Machine → Bool
has_delete_annotation m = is_some (lookup delete_machine_annotation m.meta.annotations)

module _ (lib : Library) where
  unfoldable pub next_failure_domain_for_scale_up :
      Cluster → List Machine → List Machine → Option String
  next_failure_domain_for_scale_up cluster machines up_to_date =
      let domains = lib.filter_control_plane cluster.failure_domains in
      if is_empty domains then none else lib.pick_fewest domains machines up_to_date

  unfoldable pub next_failure_domain_for_scale_down : Cluster → List Machine → Option String
  next_failure_domain_for_scale_down cluster machines =
      let domains = lib.filter_control_plane cluster.failure_domains in
      let eligible = filterb has_delete_annotation machines in
      if is_empty domains
      then none
      else lib.pick_most domains machines (if is_empty eligible then machines else eligible)

  unfoldable pub select_machine_for_scale_down : List Machine → Option String → Outcome Err Machine
  select_machine_for_scale_down eligible failure_domain =
      elim (lib.oldest (filterb (lib.in_failure_domain failure_domain) eligible)) [
        | none ↦ exit (error "failed to pick control plane Machine to scale down")
        | some m ↦ ok m
      ]

unfoldable pub get_machine_spec : OpenshiftAssistedControlPlane → Cluster → MachineSpec
get_machine_spec acp cluster = record {
  cluster_name = cluster.meta.name;
  version = none;
  node_drain_timeout = acp.spec.machine_template.node_drain_timeout;
  node_deletion_timeout = acp.spec.machine_template.node_deletion_timeout;
  node_volume_detach_timeout = acp.spec.machine_template.node_volume_detach_timeout;
  failure_domain = none;
  bootstrap_config_ref = none;
  infrastructure_ref = none;
}

-- `expected == actual` compares where the pointers point.
unfoldable pub is_equal_ptr {ℓ} : {A : Type ℓ} → Option (Ptr A) → Option (Ptr A) → Bool
is_equal_ptr none actual = true
is_equal_ptr (some expected) none = false
is_equal_ptr (some expected) (some actual) = nat_eq expected.address actual.address

-- The fields that are compared before the bootstrap configuration is read.
unfoldable pub has_expected_fields : MachineSpec → MachineSpec → Bool
unfolding is_equal_ptr
has_expected_fields expected actual =
    is_equal_ptr expected.version actual.version
    && is_equal_ptr expected.node_drain_timeout actual.node_drain_timeout
    && is_equal_ptr expected.node_deletion_timeout actual.node_deletion_timeout
    && is_equal_ptr expected.node_volume_detach_timeout actual.node_volume_detach_timeout
    && (expected.cluster_name == actual.cluster_name)

unfoldable pub compute_desired_machine :
    Library → OpenshiftAssistedControlPlane → String → Cluster → Option String → Machine
compute_desired_machine lib oacp name cluster failure_domain =
    let owned = owned_by lib oacp.meta (named name oacp.meta.namespace) in
    record {
      type_meta = record { api_version = "cluster.x-k8s.io/v1beta1"; kind = "Machine" };
      meta = record owned {
        labels = control_plane_machine_labels_for_cluster lib oacp cluster.meta.name;
        annotations =
            insert_all (("bmac.agent-install.openshift.io/role", "master") ∷ [])
              (insert_all oacp.spec.machine_template.annotations []);
      };
      spec = record (get_machine_spec oacp cluster) { failure_domain = failure_domain };
      conditions = [];
    }

unfoldable pub generate_openshift_assisted_config :
    Library → OpenshiftAssistedControlPlane → String → String → OpenshiftAssistedConfig
generate_openshift_assisted_config lib acp cluster_name name = record {
  type_meta = no_type;
  meta = owned_by lib acp.meta (record (named name acp.meta.namespace) {
    labels = control_plane_machine_labels_for_cluster lib acp cluster_name;
    annotations = acp.spec.machine_template.annotations;
  });
  spec = acp.spec.openshift_assisted_config_spec;
  status = record {
    infra_env_ref = none;
    agent_ref = none;
    iso_download_url = "";
    ready = false;
    data_secret_name = none;
    conditions = [];
  };
}

abbrev pub Action : Type 0 → Type 0
Action A = Exec OpenshiftAssistedControlPlane Err A

unfoldable pub machines_not_created :
    Library → String → String → OpenshiftAssistedControlPlane → OpenshiftAssistedControlPlane
machines_not_created lib reason message acp = record acp {
  status = record acp.status {
    conditions =
        lib.mark_false machines_created_condition reason error_severity message
          acp.status.conditions;
  };
}

abbrev pub infra_clone_owner : OpenshiftAssistedControlPlane → OwnerReference
infra_clone_owner acp = record {
  api_version = "controlplane.cluster.x-k8s.io/v1alpha2";
  kind = "OpenshiftAssistedControlPlane";
  name = acp.meta.name;
  uid = acp.meta.uid;
  controller = false;
}

abbrev pub template_input :
    Library → OpenshiftAssistedControlPlane → String → String → TemplateInput
template_input lib acp machine_name cluster_name = record {
  template_ref = acp.spec.machine_template.infrastructure_ref;
  namespace = acp.meta.namespace;
  name = machine_name;
  owner_ref = infra_clone_owner acp;
  cluster_name = cluster_name;
  labels = control_plane_machine_labels_for_cluster lib acp cluster_name;
  annotations = acp.spec.machine_template.annotations;
}
