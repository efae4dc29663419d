-- ===== src/Examples/Upgrading.antt =====
-- Moving a workload cluster to another version, and finding the version of a release.
use cluster_api_agent.Prelude.{
  true, ◌∷◌, contains, split, if◌then◌else◌, ◌≡◌, ◌<>◌, refl, String, [], some, Option, arith,
  eq_iff,
}
use cluster_api_agent.Kube.Errors.{Err, Outcome, ok, exit, error}
use cluster_api_agent.Kube.Kinds.{Kind, Obj, cluster_version}
use cluster_api_agent.Kube.Api.{Api, Call, Env}
use cluster_api_agent.Containers.{get_digest, Codecs, get_image, pull_secret_keychain}
use cluster_api_agent.ControlPlane.Release.{SemVer, get_release_image}
use cluster_api_agent.ControlPlane.Upgrade.{
  is_ga_release, get_option, get_repo_image, same_image, update_cluster_version_desired_update,
}
use cluster_api_agent.ControlPlane.Upgrade.Images.{get_repo_image-get_release_image}
use cluster_api_agent.ControlPlane.Upgrade.Updates.{wanted_image, update_cluster_version_forces}
use cluster_api_agent.ControlPlane.Types.{OpenshiftAssistedControlPlane}
use cluster_api_agent.ControlPlane.Version.{get_kubernetes_version}
use cluster_api_agent.ControlPlane.Version.Reasons.{reasons-get_kubernetes_version}
use cluster_api_agent.Examples.Objects.{acp, version_object}
use cluster_api_agent.Examples.World.{nothing, missing, at_start}

abbrev as_release : String → Option SemVer
as_release s = some (record { major = 4; minor = 16; patch = 0; pre = []; build = [] })

abbrev codecs : Codecs
codecs = record {
  unmarshal_auths = λ s. ok [];
  decode_base64 = λ s. ok s;
  parse_reference = λ s. ok s;
  join_dir = λ p l. l;
}

abbrev workload : (k : Kind) → Outcome Err (Obj k)
workload Kind.cluster_version = ok version_object
workload k = exit missing

abbrev upgradable : Api
upgradable = record nothing {
  get_answer = λ k key h. workload k;
  update_answer = λ k o h. ok o;
  remote_digest_answer = λ s k h. ok "sha256:0";
}

-- The image with digest that the workload cluster is moved to.
abbrev image_with_digest : Outcome Err String × Env OpenshiftAssistedControlPlane
image_with_digest = wanted_image upgradable codecs as_release "4.16.0" "x86_64" [] (at_start acp)

update_cluster_version_forces_example :
    (image : String) × (image_with_digest.0 ≡ ok image)
    × ((update_cluster_version_desired_update upgradable codecs as_release "4.16.0" "x86_64" []
          (at_start acp)).1.calls
        ≡ (if same_image image version_object.desired_update
            then image_with_digest.1.calls
            else Call.update cluster_version (record version_object {
              desired_update = some (record { version = ""; image = image; force = true });
            })
              ∷ image_with_digest.1.calls))
unfolding get_option update_cluster_version_desired_update is_ga_release contains
    pull_secret_keychain get_digest get_repo_image split get_release_image
update_cluster_version_forces_example =
    update_cluster_version_forces upgradable codecs as_release "4.16.0" "x86_64" [] (at_start acp)
      version_object refl refl refl

get_repo_image-get_release_image_example :
    (get_repo_image (get_release_image as_release "4.16.0" "quay.io/mine" "x86_64")
      ≡ ok "quay.io/mine")
    × (get_repo_image
          (get_release_image as_release "4.16.0" ("registry" <> ":" <> "5000/mine") "x86_64")
        ≡ ok "registry")
get_repo_image-get_release_image_example =
    get_repo_image-get_release_image as_release "4.16.0" "quay.io/mine" "registry" "5000/mine"
      "x86_64" (ground (arith, eq_iff "quay.io/mine" "")) (ground arith) (ground arith)
      (ground (arith, eq_iff ("registry" <> ":" <> "5000/mine") ""))

-- The image of the release is not found, and the error does not say so.
reasons-get_kubernetes_version_example :
    (error "unable to get image: image not found\nnot found").reasons ≡ []
unfolding get_kubernetes_version get_image pull_secret_keychain
reasons-get_kubernetes_version_example =
    reasons-get_kubernetes_version upgradable codecs (λ s. ok []) "image" "pull" (at_start acp)
      {e = error "unable to get image: image not found\nnot found"} refl
