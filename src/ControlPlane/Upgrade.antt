-- ===== src/ControlPlane/Upgrade.antt =====
-- controlplane/internal/upgrade: reading and moving the ClusterVersion of the workload cluster.
-- Its objects are read and written through the workload cluster's own client; those calls stand in
-- the same history as the others.
pub mod Images
pub mod Updates
use cluster_api_agent.Prelude.{
  String, Bool, true, false, ◌==◌, ◌&&◌, ◌||◌, ◌<>◌, List, [], ◌∷◌, Option, none, some, contains,
  has_prefix, split, if◌then◌else◌,
}
use cluster_api_agent.Kube.Errors.{Err, Outcome, ok, exit, error}
use cluster_api_agent.Kube.Meta.{Key, Condition, true_status}
use cluster_api_agent.Kube.Objects.{
  ClusterVersion, UpdateHistory, completed_update, partial_update, Update,
}
use cluster_api_agent.Kube.Kinds.{cluster_version}
use cluster_api_agent.Kube.Api.{Api, Exec, pure, fail, lift, ◌>>=◌, ◌>>◌}
use cluster_api_agent.Kube.Calls.{get, update}
use cluster_api_agent.Containers.{Codecs, pull_secret_keychain, get_digest}
use cluster_api_agent.ControlPlane.Release.{
  SemVer, ocp_repository, okd_repository, is_ga, get_release_image,
}

pub record ClusterUpgradeOption : Type 0 where
  pub name : String
  pub value : String

abbrev pub release_image_repository_override_option : String
release_image_repository_override_option = "ReleaseImageRepositoryOverride"

abbrev pub release_image_pull_secret_option : String
release_image_pull_secret_option = "ReleaseImagePullSecret"

abbrev pub cluster_version_key : Key
cluster_version_key = record { namespace = ""; name = "version" }

any_partial : List UpdateHistory → Bool
any_partial [] = false
any_partial (h ∷ hs) = (elim h.state [ partial_update ↦ true | _ ↦ false ]) || any_partial hs

any_progressing : List Condition → Bool
any_progressing [] = false
any_progressing (c ∷ cs) =
    (c.type == "Progressing" && (elim c.status [ true_status ↦ true | _ ↦ false ]))
    || any_progressing cs

unfoldable pub is_update_in_progress : ClusterVersion → Bool
unfolding any_partial any_progressing
is_update_in_progress cv = if any_partial cv.history then true else any_progressing cv.conditions

unfoldable pub first_completed : List UpdateHistory → Option String
first_completed [] = none
first_completed (h ∷ hs) = elim h.state [
  | completed_update ↦ some h.version
  | _ ↦ first_completed hs
]

unfoldable pub get_option : String → List ClusterUpgradeOption → String
get_option name [] = ""
get_option name (opt ∷ opts) = if opt.name == name then opt.value else get_option name opts

-- strings.Split gives at least one part, so the error is never met.
unfoldable pub get_repo_image : String → Outcome Err String
get_repo_image image = elim (split b':' image) [
  | [] ↦ exit (error ("could not parse image " <> image))
  | part ∷ parts ↦ ok part
]

module _ (parse_tolerant : String → Option SemVer) where
  unfoldable pub is_ga_release : String → String → Bool
  is_ga_release desired_version repository_override =
      if contains (ocp_repository ∷ okd_repository ∷ []) repository_override
      then is_ga parse_tolerant desired_version
      else false

abbrev pub same_version : String → Option Update → Bool
same_version version none = false
same_version version (some u) = u.version == version

abbrev pub same_image : String → Option Update → Bool
same_image image none = false
same_image image (some u) = u.image == image

module _ {L : Type 0} (api : Api) where
  unfoldable pub get_cluster_version : Exec L Err ClusterVersion
  get_cluster_version = get api cluster_version cluster_version_key

  unfoldable pub is_upgrade_in_progress : Exec L Err Bool
  unfolding get_cluster_version
  is_upgrade_in_progress = do cv ← get_cluster_version; pure (is_update_in_progress cv)

  unfoldable pub get_current_version : Exec L Err String
  unfolding get_cluster_version
  get_current_version = do
    cv ← get_cluster_version
    elim (first_completed cv.history) [
      | some version ↦ pure version
      | none ↦ fail (error "no completed update found in ClusterVersion history")
    ]

  unfoldable pub is_desired_version_updated : String → Exec L Err Bool
  unfolding get_cluster_version
  is_desired_version_updated desired_version = do
    cv ← get_cluster_version
    pure (has_prefix desired_version cv.desired_version)

  set_desired_update : ClusterVersion → Update → Exec L Err Unit
  set_desired_update cv target = do
    update api cluster_version (record cv { desired_update = some target })
    pure tt

  module _ (codecs : Codecs) where
    unfoldable pub get_release_image_with_digest : String → String → Exec L Err String
    get_release_image_with_digest image pull_secret = do
      keychain ← lift (pull_secret_keychain codecs pull_secret)
      digest ← get_digest api codecs image keychain
      repo_image ← lift (get_repo_image image)
      pure (repo_image <> "@" <> digest)

    module _ (parse_tolerant : String → Option SemVer) where
      unfoldable pub update_cluster_version_desired_update :
          String → String → List ClusterUpgradeOption → Exec L Err Unit
      unfolding get_cluster_version set_desired_update get_release_image_with_digest
      update_cluster_version_desired_update desired_version architecture options = do
        let repository_override = get_option release_image_repository_override_option options
        cv ← get_cluster_version
        if is_ga_release parse_tolerant desired_version repository_override
            then (if same_version desired_version cv.desired_update
                then pure tt
                else set_desired_update cv
                    (record { version = desired_version; image = ""; force = false }))
            else (do
              image ←
                  get_release_image_with_digest
                    (get_release_image parse_tolerant desired_version repository_override
                      architecture)
                    (get_option release_image_pull_secret_option options)
              if same_image image cv.desired_update
                  then pure tt
                  else set_desired_update cv (record { version = ""; image = image; force = true }))
