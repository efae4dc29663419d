-- ===== src/Kube/Meta.antt =====
-- Metadata of objects: names, labels, owners, finalizers, conditions.
-- Of the Kubernetes types only the fields that the program reads or writes are kept.
use cluster_api_agent.Prelude.{ℕ, String, Bool, List, [], Option, none, Map}

pub record Key : Type 0 where
  pub namespace : String
  pub name : String

pub record TypeMeta : Type 0 where
  pub api_version : String
  pub kind : String

pub record OwnerReference : Type 0 where
  pub api_version : String
  pub kind : String
  pub name : String
  pub uid : String
  pub controller : Bool

pub record ObjectReference : Type 0 where
  pub api_version : String
  pub kind : String
  pub namespace : String
  pub name : String

pub record LocalObjectReference : Type 0 where
  pub name : String

pub record ObjectMeta : Type 0 where
  pub name : String
  pub namespace : String
  pub uid : String
  pub labels : Map String
  pub annotations : Map String
  pub finalizers : List String
  pub owner_references : List OwnerReference
  pub deletion_timestamp : Option ℕ

abbrev pub no_meta : ObjectMeta
no_meta = record {
  name = "";
  namespace = "";
  uid = "";
  labels = [];
  annotations = [];
  finalizers = [];
  owner_references = [];
  deletion_timestamp = none;
}

abbrev pub no_type : TypeMeta
no_type = record { api_version = ""; kind = "" }

-- An object literal's metadata: the name and the namespace, all else zero.
abbrev pub named : String → String → ObjectMeta
named name namespace = record no_meta { name = name; namespace = namespace }

pub data ConditionStatus : Type 0 where
  true_status false_status unknown_status : ConditionStatus

pub data Severity : Type 0 where
  error_severity warning_severity info_severity no_severity : Severity

pub record Condition : Type 0 where
  pub type : String
  pub status : ConditionStatus
  pub severity : Severity
  pub reason : String
  pub message : String

-- A pointer that is not nil: where it points, and the value there.
pub record Ptr {ℓ} (A : Type ℓ) : Type ℓ where
  pub address : ℕ
  pub value : A
