-- ===== src/ControlPlane/Version/Agreement.antt =====
-- The two tests for a GA release, of this package and of the upgrader.
use cluster_api_agent.Prelude.{
  String, ◌≡◌, ◌&&◌, Option, is_some, lookup, arith, contains, Option-cases, inl, inr,
}
use cluster_api_agent.ControlPlane.Types.{
  OpenshiftAssistedControlPlane, release_image_repository_override_annotation,
}
use cluster_api_agent.ControlPlane.Release.{SemVer}
use cluster_api_agent.ControlPlane.Upgrade
use cluster_api_agent.ControlPlane.Upgrade.{get_option, release_image_repository_override_option}
use cluster_api_agent.ControlPlane.Version.{is_ga_release}
use cluster_api_agent.ControlPlane.WorkloadUpgrade.{get_upgrade_options}

-- The upgrader, given the options that the reconciler makes, takes a release for GA exactly where
-- this package does and the repository annotation is there: with no annotation it never does.
pub is_ga_release_agreement :
    (parse_tolerant : String → Option SemVer) (oacp : OpenshiftAssistedControlPlane)
    (pull_secret : String)
    → Upgrade.is_ga_release parse_tolerant oacp.spec.distribution_version
        (get_option release_image_repository_override_option (get_upgrade_options oacp pull_secret))
      ≡ (is_ga_release parse_tolerant oacp
          && is_some (lookup release_image_repository_override_annotation oacp.meta.annotations))
unfolding Upgrade.is_ga_release is_ga_release get_option get_upgrade_options contains
is_ga_release_agreement parse_tolerant oacp pull_secret =
    elim (Option-cases
      (lookup release_image_repository_override_annotation oacp.meta.annotations)) [
        | inl none_there ↦ rw none_there (ground arith)
        | inr (a, there) ↦ rw there (ground arith)
      ]
