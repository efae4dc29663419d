-- ===== src/ControlPlane/Upgrade/Updates.antt =====
-- What the upgrader writes to the ClusterVersion.
use cluster_api_agent.Prelude.{
  ◌+◌, ◌≤◌, String, true, false, ◌≡◌, List, ◌∷◌, Option, some, arith, contains, ◌&&◌, if◌then◌else◌,
  inl, inr,
}
use cluster_api_agent.Kube.Errors.{Err, Outcome, ok, Outcome-cases}
use cluster_api_agent.Kube.Objects.{ClusterVersion}
use cluster_api_agent.Kube.Kinds.{cluster_version}
use cluster_api_agent.Kube.Api.{Api, Call, Env, update}
use cluster_api_agent.Kube.Counts.{count, is_write}
use cluster_api_agent.Containers.{Codecs, get_digest}
use cluster_api_agent.ControlPlane.Release.{SemVer, get_release_image}
use cluster_api_agent.ControlPlane.Upgrade.{
  ClusterUpgradeOption, get_option, release_image_repository_override_option, cluster_version_key,
  is_ga_release, same_version, same_image, get_release_image_with_digest,
  release_image_pull_secret_option, update_cluster_version_desired_update,
}

-- The image with its digest that the upgrader computes for the version, with the key of the
-- ClusterVersion read before.
abbrev pub wanted_image :
    {L : Type 0}
    → Api
    → Codecs
    → (String → Option SemVer)
    → String
    → String
    → List ClusterUpgradeOption
    → Env L
    → Outcome Err String × Env L
wanted_image api codecs parse_tolerant version architecture options env =
    get_release_image_with_digest api codecs
      (get_release_image parse_tolerant version "" architecture)
      (get_option release_image_pull_secret_option options)
      (record env { calls = Call.get cluster_version cluster_version_key ∷ env.calls })

not_ga :
    (parse_tolerant : String → Option SemVer) (version : String)
    → is_ga_release parse_tolerant version "" ≡ false
unfolding is_ga_release contains
not_ga parse_tolerant version = ground arith

module _ {L : Type 0} (api : Api) (codecs : Codecs) (parse_tolerant : String → Option SemVer) where
  -- A run updates the ClusterVersion at most once, and not at all where the version is a GA release
  -- at a default repository and is desired already.
  pub update_cluster_version_writes :
      (version architecture : String) (options : List ClusterUpgradeOption) (env : Env L)
      (cv : ClusterVersion)
      → api.get_answer cluster_version cluster_version_key env.calls ≡ ok cv
      → let env' =
          (update_cluster_version_desired_update api codecs parse_tolerant version architecture
            options env).1 in
        let settled =
          is_ga_release parse_tolerant version
            (get_option release_image_repository_override_option options)
          && same_version version cv.desired_update in
        count is_write env'.calls ≤ count is_write env.calls + (if settled then 0 else 1)
  unfolding update_cluster_version_desired_update get_digest count
  update_cluster_version_writes version architecture options env cv h = ground arith

  -- Without an overriding repository among the options, also for a GA release, a run that succeeds
  -- leaves a ClusterVersion alone that desires the image with digest, and else makes one more call,
  -- an update that forces it to that image and gives no version.
  pub update_cluster_version_forces :
      (version architecture : String) (options : List ClusterUpgradeOption) (env : Env L)
      (cv : ClusterVersion)
      → get_option release_image_repository_override_option options ≡ ""
      → api.get_answer cluster_version cluster_version_key env.calls ≡ ok cv
      → (update_cluster_version_desired_update api codecs parse_tolerant version architecture
          options env).0
        ≡ ok tt
      → let env' =
          (update_cluster_version_desired_update api codecs parse_tolerant version architecture
            options env).1 in
        let (wanted, env2) =
          wanted_image api codecs parse_tolerant version architecture options env in
        (image : String) × (wanted ≡ ok image)
        × (env'.calls ≡ (
            if same_image image cv.desired_update
            then env2.calls
            else update cluster_version (record cv {
              desired_update = some (record { version = ""; image = image; force = true });
            })
              ∷ env2.calls))
  unfolding update_cluster_version_desired_update
  update_cluster_version_forces version architecture options env cv plain got h =
      elim (Outcome-cases
        (wanted_image api codecs parse_tolerant version architecture options env).0) [
          | inl (e, failed) ↦
              absurd (ground (arith, plain, not_ga parse_tolerant version, got, failed))
          | inr (image, wanted) ↦
              (image, wanted, ground (arith, plain, not_ga parse_tolerant version, got, wanted))
        ]
