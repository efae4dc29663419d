-- ===== src/Bootstrap/Watches.antt =====
-- bootstrap/internal/controller: what the watches of the bootstrap controllers look at. FilterMachine
-- of openshiftassistedconfig_controller.go maps a Machine to the requests that it causes, and the
-- two index functions of infraenv_controller.go give the fields of a configuration by which
-- it is listed.
use cluster_api_agent.Prelude.{
  String, Bool, ◌==◌, ◌&&◌, List, [], ◌∷◌, Option, none, some, if◌then◌else◌,
}
use cluster_api_agent.Kube.Errors.{Err, Outcome, ok, exit, panic}
use cluster_api_agent.Kube.Meta.{Key, ObjectReference}
use cluster_api_agent.Kube.Objects.{Machine}
use cluster_api_agent.Bootstrap.Types.{OpenshiftAssistedConfig}

-- schema.GroupVersionKind
pub record GroupVersionKind : Type 0 where
  pub group : String
  pub version : String
  pub kind : String

-- ObjectReference.GroupVersionKind is a parameter.
module _ (group_version_kind : ObjectReference → GroupVersionKind) where
  unfoldable pub is_assisted_config_ref : ObjectReference → Bool
  is_assisted_config_ref ref =
      let gvk = group_version_kind ref in
      gvk.group == "bootstrap.cluster.x-k8s.io"
      && (gvk.version == "v1alpha1" && gvk.kind == "OpenshiftAssistedConfig")

  requests : Machine → Option ObjectReference → List Key
  unfolding is_assisted_config_ref
  requests m none = []
  requests m (some ref) =
      if is_assisted_config_ref ref
      then record { namespace = m.meta.namespace; name = ref.name } ∷ []
      else []

  -- The object is a Machine, or another object, at which the source panics.
  unfoldable pub filter_machine : Option Machine → Outcome Err (List Key)
  unfolding requests
  filter_machine none = exit panic
  filter_machine (some m) = ok (requests m m.spec.bootstrap_config_ref)

unfoldable pub filter_ref_name : OpenshiftAssistedConfig → List String
filter_ref_name oac = elim oac.status.infra_env_ref [ none ↦ [] | some ref ↦ ref.name ∷ [] ]

unfoldable pub filter_ref_namespace : OpenshiftAssistedConfig → List String
filter_ref_namespace oac = elim oac.status.infra_env_ref [
  | none ↦ []
  | some ref ↦ ref.namespace ∷ []
]
