-- ===== src/Bootstrap/Types.antt =====
-- bootstrap/api/v1alpha1: the OpenshiftAssistedConfig resource.
use cluster_api_agent.Prelude.{String, Bool, List, Option}
use cluster_api_agent.Kube.Meta.{
  TypeMeta, ObjectMeta, ObjectReference, LocalObjectReference, Condition,
}
use cluster_api_agent.Kube.Objects.{Proxy, LabelSelector, KernelArgument}

pub record NodeRegistrationOptions : Type 0 where
  pub name : String
  pub kubelet_extra_labels : List String

pub record OpenshiftAssistedConfigSpec : Type 0 where
  pub proxy : Option Proxy
  pub pull_secret_ref : Option LocalObjectReference
  pub additional_ntp_sources : List String
  pub ssh_authorized_key : String
  pub nmstate_config_label_selector : LabelSelector
  pub cpu_architecture : String
  pub kernel_arguments : List KernelArgument
  pub additional_trust_bundle : String
  pub os_image_version : String
  pub node_registration : NodeRegistrationOptions

pub record OpenshiftAssistedConfigStatus : Type 0 where
  pub infra_env_ref : Option ObjectReference
  pub agent_ref : Option LocalObjectReference
  pub iso_download_url : String
  pub ready : Bool
  pub data_secret_name : Option String
  pub conditions : List Condition

pub record OpenshiftAssistedConfig : Type 0 where
  pub type_meta : TypeMeta
  pub meta : ObjectMeta
  pub spec : OpenshiftAssistedConfigSpec
  pub status : OpenshiftAssistedConfigStatus
