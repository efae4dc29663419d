-- ===== src/ControlPlane/Version.antt =====
-- controlplane/internal/version: the Kubernetes version that a release image carries.
pub mod Reasons
pub mod Tags
pub mod Agreement
use cluster_api_agent.Prelude.{
  String, ◌==◌, ◌<>◌, List, [], ◌∷◌, Option, none, some, Map, lookup, split, contains, Bool, false,
  true, if◌then◌else◌,
}
use cluster_api_agent.Kube.Errors.{Err, Outcome, ok, exit, error}
use cluster_api_agent.Kube.Objects.{ClusterVersion}
use cluster_api_agent.Kube.Kinds.{cluster_version}
use cluster_api_agent.Kube.Api.{Api, Exec, pure, fail, lift, catch, ◌>>=◌, ◌>>◌}
use cluster_api_agent.Kube.Calls.{update}
use cluster_api_agent.ControlPlane.Upgrade.{same_version, same_image}
use cluster_api_agent.Containers.{Codecs, pull_secret_keychain, get_image, extract_file_from_image}
use cluster_api_agent.ControlPlane.Types.{
  OpenshiftAssistedControlPlane, release_image_repository_override_annotation,
}
use cluster_api_agent.ControlPlane.Release.{SemVer, ocp_repository, okd_repository, is_ga}

abbrev pub annotation_build_versions : String
annotation_build_versions = "io.openshift.build.versions"

abbrev image_references_path : String
image_references_path = "/release-manifests/image-references"

-- A tag of an image stream, by its annotations.
abbrev pub Tag : Type 0
Tag = Map String

-- `kubernetes=VERSION`, in two parts at the equals sign.
unfoldable pub kubernetes_of : Option String → Option String
kubernetes_of none = none
kubernetes_of (some versions) = elim (split b'=' versions) [
  | name ∷ (version ∷ []) ↦ if name == "kubernetes" then some version else none
  | _ ↦ none
]

unfoldable pub find_kubernetes_version : List Tag → Option String
find_kubernetes_version [] = none
find_kubernetes_version (tag ∷ tags) = elim (kubernetes_of (lookup annotation_build_versions tag)) [
  | some version ↦ some version
  | none ↦ find_kubernetes_version tags
]

unfoldable pub get_k8s_version_from_image_stream : List Tag → Outcome Err String
unfolding find_kubernetes_version
get_k8s_version_from_image_stream tags = elim (find_kubernetes_version tags) [
  | some version ↦ ok version
  | none ↦ exit (error "unable to find kubernetes version")
]

-- fmt.Errorf(s + "%v", err): the text of the error, and none of its reasons.
abbrev told : {L A : Type 0} → String → Err → Exec L Err A
told s e = fail (error (s <> e.text))

module _ {L : Type 0} (api : Api) (codecs : Codecs)
    (unmarshal : String → Outcome Err (List Tag)) where
  -- NewImageInspector, between the image and the file, has no error to return.
  unfoldable pub get_kubernetes_version : String → String → Exec L Err String
  get_kubernetes_version image_ref pull_secret = do
    auth ←
        catch (lift (pull_secret_keychain codecs pull_secret))
          (told "unable to load auth from pull-secret: ")
    image ← catch (get_image api codecs image_ref auth) (told "unable to get image: ")
    content ← catch (lift (extract_file_from_image codecs image image_references_path)) (
        told (
          "unable to extract file " <> image_references_path <> " from imageRef " <> image_ref
          <> " : "))
    tags ← catch (lift (unmarshal content)) (told "unable to load release image-references: ")
    catch (lift (get_k8s_version_from_image_stream tags))
        (told "unable to extract k8s from release image-references: ")

-- isGARelease of this package: no annotation counts as the default repositories.
unfoldable pub is_ga_release : (String → Option SemVer) → OpenshiftAssistedControlPlane → Bool
is_ga_release parse_tolerant oacp =
    elim (lookup release_image_repository_override_annotation oacp.meta.annotations) [
      | some override ↦
          if contains (ocp_repository ∷ okd_repository ∷ []) override
          then is_ga parse_tolerant oacp.spec.distribution_version
          else false
      | none ↦ is_ga parse_tolerant oacp.spec.distribution_version
    ]

module _ {L : Type 0} (api : Api) where
  unfoldable pub do_update : ClusterVersion → Exec L Err Unit
  do_update cv = do update api cluster_version cv; pure tt

  module _ (parse_tolerant : String → Option SemVer) where
    -- UpdateClusterVersionDesiredUpdate of this package, which nothing calls.
    unfoldable pub update_cluster_version_desired_update :
        OpenshiftAssistedControlPlane → ClusterVersion → String → Exec L Err Unit
    unfolding is_ga_release do_update
    update_cluster_version_desired_update oacp cv release_image_with_digest =
        let version = oacp.spec.distribution_version in
        if is_ga_release parse_tolerant oacp
        then (if same_version version cv.desired_update
            then pure tt
            else do_update (record cv {
              desired_update = some (record { version = version; image = ""; force = false });
            }))
        else if same_image release_image_with_digest cv.desired_update
        then pure tt
        else do_update (record cv {
          desired_update =
              some (record { version = ""; image = release_image_with_digest; force = true });
        })
