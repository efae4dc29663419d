-- ===== src/ControlPlane/Common.antt =====
-- What the controllers share: util/util.go, controlplane/internal/auth, and the architecture and
-- release image of a control plane.
pub mod Labels
pub mod Writes
pub mod Owners
use cluster_api_agent.Prelude.{
  String, Bool, true, false, not, ◌==◌, ◌&&◌, ◌<>◌, List, [], ◌∷◌, Option, none, some, Map, lookup,
  insert, insert_all, if◌then◌else◌, map,
}
use cluster_api_agent.Kube.Errors.{
  Err, Outcome, ok, exit, error, join_errors, panic, not_found, has_reason,
}
use cluster_api_agent.Kube.Meta.{
  ObjectMeta, OwnerReference, LocalObjectReference, Condition, no_type, named,
}
use cluster_api_agent.Kube.Objects.{Secret}
use cluster_api_agent.Kube.Kinds.{Kind, Obj, meta_of, type_of, key_of, assisted_config, secret}
use cluster_api_agent.Kube.Api.{Api, Exec, pure, fail, lift, catch, attempt, ◌>>=◌, ◌>>◌}
use cluster_api_agent.Kube.Calls.{get, list, create, update}
use cluster_api_agent.Kube.Library.{Library}
use cluster_api_agent.Bootstrap.Types.{OpenshiftAssistedConfig}
use cluster_api_agent.ControlPlane.Types.{
  OpenshiftAssistedControlPlane, release_image_repository_override_annotation,
}
use cluster_api_agent.ControlPlane.Release.{SemVer, get_release_image}

abbrev pub cluster_name_label : String
cluster_name_label = "cluster.x-k8s.io/cluster-name"

abbrev pub machine_control_plane_label : String
machine_control_plane_label = "cluster.x-k8s.io/control-plane"

abbrev pub machine_control_plane_name_label : String
machine_control_plane_name_label = "cluster.x-k8s.io/control-plane-name"

unfoldable pub control_plane_machine_labels_for_cluster :
    Library → OpenshiftAssistedControlPlane → String → Map String
control_plane_machine_labels_for_cluster lib acp cluster_name =
    insert machine_control_plane_name_label (lib.format_value acp.meta.name) (
      insert machine_control_plane_label ""
        (insert cluster_name_label cluster_name (insert_all acp.spec.machine_template.labels [])))

-- The tests on what GetTypedOwner has fetched for one owner reference.
abbrev is_owner : (k : Kind) → OwnerReference → Obj k → Bool
is_owner k ref o = ref.api_version == (type_of k o).api_version && ref.kind == (type_of k o).kind

unfoldable pub extract_kubeconfig_from_secret : Secret → String → Outcome Err String
extract_kubeconfig_from_secret s key = elim (lookup key s.contents) [
  | some kubeconfig ↦ ok kubeconfig
  | none ↦ exit (error "kubeconfig not found in secret")
]

unfoldable pub find_status_condition : List Condition → String → Option Condition
find_status_condition [] condition_to_find = none
find_status_condition (c ∷ cs) condition_to_find =
    if c.type == condition_to_find then some c else find_status_condition cs condition_to_find

module _ {L : Type 0} (api : Api) where
  -- The loop of GetTypedOwner; a reference that cannot be fetched is skipped.
  unfoldable pub typed_owner_loop : (k : Kind) → String → List OwnerReference → Exec L Err (Obj k)
  typed_owner_loop k namespace [] = fail (error "couldn't find owner")
  typed_owner_loop k namespace (ref ∷ refs) = do
    fetched ← attempt (get api k (record { namespace = namespace; name = ref.name }))
    elim fetched [
      | exit e ↦ typed_owner_loop k namespace refs
      | ok o ↦ elim (is_owner k ref o) [ true ↦ pure o | false ↦ typed_owner_loop k namespace refs ]
    ]

  unfoldable pub get_typed_owner : (k : Kind) → ObjectMeta → Exec L Err (Obj k)
  unfolding typed_owner_loop
  get_typed_owner k m = typed_owner_loop k m.namespace m.owner_references

  -- The result is the object as Get leaves it: a copy of the argument is what is written.
  unfoldable pub create_or_update : (k : Kind) → Obj k → Exec L Err (Obj k)
  create_or_update k o = do
    found ← attempt (get api k (key_of (meta_of k o)))
    elim found [
      | ok o' ↦ (do update api k o; pure o')
      | exit e ↦ if has_reason not_found e then (do create api k o; pure o) else fail e
    ]

  unfoldable pub get_cluster_kubeconfig_secret : String → String → Exec L Err Secret
  get_cluster_kubeconfig_secret cluster_name namespace =
      get api secret (record { namespace = namespace; name = cluster_name <> "-kubeconfig" })

  unfoldable pub get_workload_kubeconfig : String → String → Exec L Err String
  unfolding get_cluster_kubeconfig_secret extract_kubeconfig_from_secret
  get_workload_kubeconfig cluster_name cluster_namespace = do
    s ←
        catch (get_cluster_kubeconfig_secret cluster_name cluster_namespace)
          (λ e. fail (join_errors e (error "failed to get cluster kubeconfig secret")))
    catch (lift (extract_kubeconfig_from_secret s "value")) (λ e.
        fail (join_errors e (error ("failed to extract kubeconfig from secret " <> s.meta.name))))

abbrev pub pullsecret_data_key : String
pullsecret_data_key = ".dockerconfigjson"

unfoldable pub generate_fake_pull_secret : String → String → Secret
generate_fake_pull_secret name namespace = record {
  type_meta = no_type;
  meta = named name namespace;
  contents =
      (
        pullsecret_data_key,
        "{\"auths\":{\"fake-pull-secret\":{\"auth\":\"cGxhY2Vob2xkZXI6c2VjcmV0Cg==\"}}}",
      )
      ∷ [];
  secret_type = "";
}

module _ {L : Type 0} (api : Api) where
  -- The name of the secret is read through a pointer.
  pull_secret_at : String → Option LocalObjectReference → Exec L Err Secret
  pull_secret_at namespace none = fail panic
  pull_secret_at namespace (some ref) =
      get api secret (record { namespace = namespace; name = ref.name })

  unfoldable pub get_pull_secret : OpenshiftAssistedControlPlane → Exec L Err String
  unfolding pull_secret_at
  get_pull_secret oacp = do
    s ← pull_secret_at oacp.meta.namespace oacp.spec.config.pull_secret_ref
    elim (lookup pullsecret_data_key s.contents) [
      | some pull_secret ↦ pure pull_secret
      | none ↦ fail (error ("pullsecret secret does not have key " <> pullsecret_data_key))
    ]

all_equal : String → List String → Bool
all_equal first [] = true
all_equal first (arch ∷ rest) = if arch == first then all_equal first rest else false

unfoldable pub get_architecture : List String → String → String
unfolding all_equal
get_architecture [] default_architecture = default_architecture
get_architecture (arch ∷ []) default_architecture = arch
get_architecture (first ∷ (second ∷ rest)) default_architecture =
    if all_equal first (first ∷ (second ∷ rest)) && not (first == "")
    then first
    else default_architecture

abbrev cpu_architectures : List OpenshiftAssistedConfig → List String
cpu_architectures configs = map (λ c. c.spec.cpu_architecture) configs

module _ {L : Type 0} (api : Api) where
  unfoldable pub get_architecture_from_bootstrap_configs :
      OpenshiftAssistedControlPlane → Exec L Err String
  unfolding get_architecture
  get_architecture_from_bootstrap_configs oacp = elim (lookup cluster_name_label oacp.meta.labels) [
    | none ↦ pure "multi"
    | some cluster_name ↦ (do
      configs ← list api assisted_config (record {
        namespace = some oacp.meta.namespace;
        labels = (cluster_name_label, cluster_name) ∷ [];
        fields = [];
      })
      pure (get_architecture (cpu_architectures configs) "multi"))
  ]

abbrev pub or_empty : Option String → String
or_empty none = ""
or_empty (some s) = s

-- getReleaseImage of the controllers.
unfoldable pub release_image_of :
    (String → Option SemVer) → OpenshiftAssistedControlPlane → String → String
release_image_of parse_tolerant oacp architecture =
    get_release_image parse_tolerant oacp.spec.distribution_version
      (or_empty (lookup release_image_repository_override_annotation oacp.meta.annotations))
      architecture
