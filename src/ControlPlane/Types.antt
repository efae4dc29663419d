-- ===== src/ControlPlane/Types.antt =====
-- controlplane/api/v1alpha2: the OpenshiftAssistedControlPlane resource and its condition types.
use cluster_api_agent.Prelude.{ℕ, String, Bool, List, Option, Map}
use cluster_api_agent.Prelude.Int.{ℤ}
use cluster_api_agent.Kube.Meta.{
  TypeMeta, ObjectMeta, ObjectReference, LocalObjectReference, Condition, Ptr,
}
use cluster_api_agent.Kube.Objects.{Proxy, DiskEncryption}
use cluster_api_agent.Bootstrap.Types.{OpenshiftAssistedConfigSpec}

pub record MachineTemplate : Type 0 where
  pub labels : Map String
  pub annotations : Map String
  pub infrastructure_ref : ObjectReference
  pub node_drain_timeout : Option (Ptr ℕ)
  pub node_volume_detach_timeout : Option (Ptr ℕ)
  pub node_deletion_timeout : Option (Ptr ℕ)

pub record Capabilities : Type 0 where
  pub baseline_capability : String
  pub additional_enabled_capabilities : List String

pub record ConfigSpec : Type 0 where
  pub api_vips : List String
  pub ingress_vips : List String
  pub manifests_config_map_refs : List String
  pub disk_encryption : Option DiskEncryption
  pub proxy : Option Proxy
  pub masters_schedulable : Bool
  pub ssh_authorized_key : String
  pub cluster_name : String
  pub base_domain : String
  pub pull_secret_ref : Option LocalObjectReference
  pub image_registry_ref : Option LocalObjectReference
  pub capabilities : Capabilities

pub record ControlPlaneSpec : Type 0 where
  pub config : ConfigSpec
  pub machine_template : MachineTemplate
  pub openshift_assisted_config_spec : OpenshiftAssistedConfigSpec
  -- int32
  pub replicas : ℤ
  pub distribution_version : String

-- The numbers of replicas are int32.
pub record ControlPlaneStatus : Type 0 where
  pub cluster_deployment_ref : Option ObjectReference
  pub replicas : ℤ
  pub version : Option String
  pub distribution_version : String
  pub updated_replicas : ℤ
  pub ready_replicas : ℤ
  pub unavailable_replicas : ℤ
  pub initialized : Bool
  pub ready : Bool
  pub conditions : List Condition

pub record OpenshiftAssistedControlPlane : Type 0 where
  pub type_meta : TypeMeta
  pub meta : ObjectMeta
  pub spec : ControlPlaneSpec
  pub status : ControlPlaneStatus

abbrev pub control_plane_ready_condition : String
control_plane_ready_condition = "ControlPlaneReady"

abbrev pub kubeconfig_available_condition : String
kubeconfig_available_condition = "KubeconfigAvailable"

abbrev pub upgrade_completed_condition : String
upgrade_completed_condition = "UpgradeCompleted"

abbrev pub upgrade_available_condition : String
upgrade_available_condition = "UpgradeAvailable"

abbrev pub machines_created_condition : String
machines_created_condition = "MachinesCreated"

abbrev pub kubernetes_version_available_condition : String
kubernetes_version_available_condition = "KubernetesVersionAvailableCondition"

abbrev pub release_image_repository_override_annotation : String
release_image_repository_override_annotation = "cluster.x-k8s.io/release-image-repository-override"

abbrev pub acp_finalizer : String
acp_finalizer = "openshiftassistedcontrolplane.controlplane.cluster.x-k8s.io/deprovision"
