-- ===== src/ControlPlane/Release.antt =====
-- controlplane/internal/release: which versions are OKD or GA, and the image of a release.
use cluster_api_agent.Prelude.{
  ℕ, String, Bool, true, false, ◌==◌, ◌&&◌, ◌||◌, ◌<>◌, List, [], ◌∷◌, Option, none, some,
  has_prefix, is_empty, if◌then◌else◌,
}

pub record PreVersion : Type 0 where
  pub version_str : String
  pub version_num : ℕ
  pub is_num : Bool

-- semver.Version
pub record SemVer : Type 0 where
  pub major : ℕ
  pub minor : ℕ
  pub patch : ℕ
  pub pre : List PreVersion
  pub build : List String

abbrev pub ocp_repository : String
ocp_repository = "quay.io/openshift-release-dev/ocp-release"

abbrev pub okd_repository : String
okd_repository = "quay.io/okd/scos-release"

abbrev pub okd_pre_str : String
okd_pre_str = "okd-scos"

any_okd : List PreVersion → Bool
any_okd [] = false
any_okd (p ∷ ps) = has_prefix p.version_str okd_pre_str || any_okd ps

abbrev is_okd_ga_pre : List PreVersion → Bool
is_okd_ga_pre (p ∷ (q ∷ [])) = (p.version_str == okd_pre_str) && q.is_num
is_okd_ga_pre _ = false

-- semver.ParseTolerant is a parameter.
module _ (parse_tolerant : String → Option SemVer) where
  unfoldable pub is_okd : String → Bool
  unfolding any_okd
  is_okd version = elim (parse_tolerant version) [ none ↦ false | some v ↦ any_okd v.pre ]

  unfoldable pub is_okd_ga : String → Bool
  unfolding is_okd
  is_okd_ga version =
      if is_okd version
      then (elim (parse_tolerant version) [ none ↦ false | some v ↦ is_okd_ga_pre v.pre ])
      else false

  unfoldable pub is_ga : String → Bool
  unfolding is_okd_ga
  is_ga version = elim (parse_tolerant version) [
    | none ↦ false
    | some v ↦ if is_empty v.build && is_empty v.pre then true else is_okd_ga version
  ]

  unfoldable pub get_release_image : String → String → String → String
  unfolding is_okd
  get_release_image desired_version repository_override architecture =
      if repository_override == ""
      then (if is_okd desired_version then okd_repository else ocp_repository)
        <> ":"
        <> desired_version
        <> "-"
        <> architecture
      else repository_override <> ":" <> desired_version <> "-" <> architecture
