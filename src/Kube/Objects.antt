-- ===== src/Kube/Objects.antt =====
-- The objects of other projects that the controllers read and write, field by field as far as
-- the program uses them.
use cluster_api_agent.Prelude.{ℕ, String, Bool, List, Option, Map}
use cluster_api_agent.Prelude.Int.{ℤ}
use cluster_api_agent.Kube.Errors.{Err, Outcome}
use cluster_api_agent.Kube.Meta.{
  Key, TypeMeta, ObjectMeta, ObjectReference, LocalObjectReference, Condition, Ptr,
}

pub record Secret : Type 0 where
  pub type_meta : TypeMeta
  pub meta : ObjectMeta
  pub contents : Map String
  pub secret_type : String

pub record ConfigMap : Type 0 where
  pub type_meta : TypeMeta
  pub meta : ObjectMeta
  pub contents : Map String

pub record Service : Type 0 where
  pub type_meta : TypeMeta
  pub meta : ObjectMeta
  pub cluster_ip : String
  pub ports : List ℕ

pub record ClusterNetwork : Type 0 where
  pub pods : Option (List String)
  pub services : Option (List String)

pub record ApiEndpoint : Type 0 where
  pub host : String
  pub port : ℕ

pub record FailureDomain : Type 0 where
  pub control_plane : Bool

pub record Cluster : Type 0 where
  pub type_meta : TypeMeta
  pub meta : ObjectMeta
  pub paused : Bool
  pub infrastructure_ready : Bool
  pub control_plane_endpoint : ApiEndpoint
  pub cluster_network : Option ClusterNetwork
  pub failure_domains : Map FailureDomain

-- Durations are numbers behind pointers.
pub record MachineSpec : Type 0 where
  pub cluster_name : String
  pub version : Option (Ptr String)
  pub node_drain_timeout : Option (Ptr ℕ)
  pub node_deletion_timeout : Option (Ptr ℕ)
  pub node_volume_detach_timeout : Option (Ptr ℕ)
  pub failure_domain : Option String
  pub bootstrap_config_ref : Option ObjectReference
  pub infrastructure_ref : Option ObjectReference

pub record Machine : Type 0 where
  pub type_meta : TypeMeta
  pub meta : ObjectMeta
  pub spec : MachineSpec
  pub conditions : List Condition

pub record MachineDeployment : Type 0 where
  pub type_meta : TypeMeta
  pub meta : ObjectMeta
  pub replicas : Option ℤ

pub record ClusterInstallReference : Type 0 where
  pub group : String
  pub version : String
  pub kind : String
  pub name : String

pub record ClusterDeployment : Type 0 where
  pub type_meta : TypeMeta
  pub meta : ObjectMeta
  pub cluster_name : String
  pub base_domain : String
  pub agent_bare_metal : Bool
  pub pull_secret_ref : Option LocalObjectReference
  pub cluster_install_ref : Option ClusterInstallReference

pub record ClusterImageSet : Type 0 where
  pub type_meta : TypeMeta
  pub meta : ObjectMeta
  pub release_image : String

pub record ClusterNetworkEntry : Type 0 where
  pub cidr : String
  pub host_prefix : ℕ

pub record DiskEncryption : Type 0 where
  pub enable_on : Option String
  pub mode : Option String
  pub tang_servers : String

pub record Proxy : Type 0 where
  pub http_proxy : String
  pub https_proxy : String
  pub no_proxy : String

pub data PlatformType : Type 0 where
  none_platform bare_metal_platform unset_platform : PlatformType

pub record AgentClusterInstallSpec : Type 0 where
  pub cluster_deployment_ref : LocalObjectReference
  pub platform_type : PlatformType
  pub control_plane_agents : ℤ
  pub worker_agents : ℤ
  pub disk_encryption : Option DiskEncryption
  pub masters_schedulable : Bool
  pub proxy : Option Proxy
  pub ssh_public_key : String
  pub image_set_ref : Option String
  pub cluster_network : List ClusterNetworkEntry
  pub service_network : List String
  pub manifests_config_map_refs : List String
  pub api_vips : List String
  pub ingress_vips : List String
  -- ClusterMetadata, by the name of its AdminKubeconfigSecretRef
  pub cluster_metadata : Option String

pub record AgentClusterInstall : Type 0 where
  pub type_meta : TypeMeta
  pub meta : ObjectMeta
  pub spec : AgentClusterInstallSpec
  -- Status.DebugInfo.State
  pub state : String

pub record KernelArgument : Type 0 where
  pub operation : String
  pub value : String

pub record LabelRequirement : Type 0 where
  pub key : String
  pub operator : String
  pub values : List String

pub record LabelSelector : Type 0 where
  pub match_labels : Map String
  pub match_expressions : List LabelRequirement

pub record InfraEnvSpec : Type 0 where
  pub additional_ntp_sources : List String
  pub additional_trust_bundle : String
  pub cluster_ref : Option Key
  pub cpu_architecture : String
  pub kernel_arguments : List KernelArgument
  pub nmstate_config_label_selector : LabelSelector
  pub os_image_version : String
  pub proxy : Option Proxy
  pub pull_secret_ref : Option LocalObjectReference
  pub ssh_authorized_key : String
  pub image_type : String

pub record InfraEnv : Type 0 where
  pub type_meta : TypeMeta
  pub meta : ObjectMeta
  pub spec : InfraEnvSpec
  pub iso_download_url : String
  pub events_url : String

pub record Agent : Type 0 where
  pub type_meta : TypeMeta
  pub meta : ObjectMeta
  pub role : String
  pub ignition_config_overrides : String
  pub approved : Bool

-- configv1.ClusterVersion
pub data UpdateState : Type 0 where
  completed_update partial_update unknown_update : UpdateState

pub record UpdateHistory : Type 0 where
  pub state : UpdateState
  pub version : String

pub record Update : Type 0 where
  pub version : String
  pub image : String
  pub force : Bool

pub record ClusterVersion : Type 0 where
  pub type_meta : TypeMeta
  pub meta : ObjectMeta
  pub desired_update : Option Update
  pub history : List UpdateHistory
  pub conditions : List Condition
  pub desired_version : String

-- Credentials for registries: authn.AuthConfig by registry.
pub record AuthConfig : Type 0 where
  pub username : String
  pub password : String

abbrev pub Keychain : Type 0
Keychain = Map AuthConfig

-- An image as its layers, and a layer as the steps of its tar reader, which ends after the last.
pub data TarStep : Type 0 where
  file : (name : String) → (content : Outcome Err String) → TarStep
  symlink : (name target : String) → TarStep
  broken : Err → TarStep

pub record Layer : Type 0 where
  pub steps : Outcome Err (List TarStep)
  pub close : Outcome Err (Unit {0})

pub record Image : Type 0 where
  pub layers : Outcome Err (List Layer)
