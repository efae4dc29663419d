-- ===== src/ControlPlane/Upgrade/Images.antt =====
-- The repository of a release image: getRepoImage of controlplane/internal/upgrade/upgrade.go, and
-- GetReleaseImage of controlplane/internal/release/release.go.
use text.Mathlib.TextLemmas.{nil-append, cons-append, append_assoc}
use cluster_api_agent.Prelude.{String, ◌<>◌, ◌≡◌, ◌≢◌, ap, ◌∙◌, Option, arith, split, eq_iff, ◌∷◌}
use cluster_api_agent.Prelude.Splits.{Lacks, split-append}
use cluster_api_agent.Kube.Errors.{ok}
use cluster_api_agent.ControlPlane.Release.{SemVer, get_release_image}
use cluster_api_agent.ControlPlane.Upgrade.{get_repo_image}

colon-append : (t : String) → ":" <> t ≡ String.◌∷◌ ":" t
colon-append t = cons-append ":" "" t ∙ ap (String.◌∷◌ ":") (nil-append t)

split_colon : (s t : String) → Lacks b':' s → split b':' (s <> ":" <> t) ≡ s ∷ split b':' t
split_colon s t h = rw colon-append (split-append ":" s t h)

-- The repository of an image whose part before some colon has no colon is that part.
get_repo_image_colon : (s t : String) → Lacks b':' s → get_repo_image (s <> ":" <> t) ≡ ok s
unfolding get_repo_image
get_repo_image_colon s t h = ground (arith, split_colon s t h)

get_release_image_override :
    (parse_tolerant : String → Option SemVer) (version override architecture : String)
    → override ≢ ""
    → get_release_image parse_tolerant version override architecture
      ≡ override <> ":" <> version <> "-" <> architecture
unfolding get_release_image
get_release_image_override parse_tolerant version override architecture h =
    ground (arith, eq_iff override "")

-- Of the release image at an overriding repository, getRepoImage gives back the repository, where
-- it has no colon; of a repository at a host and a port it gives the host alone.
pub get_repo_image-get_release_image :
    (parse_tolerant : String → Option SemVer)
    (version repository host port_and_path architecture : String)
    → repository ≢ ""
    → Lacks b':' repository
    → Lacks b':' host
    → (host <> ":" <> port_and_path) ≢ ""
    → (get_repo_image (get_release_image parse_tolerant version repository architecture)
        ≡ ok repository)
      × (get_repo_image
            (get_release_image parse_tolerant version (host <> ":" <> port_and_path) architecture)
          ≡ ok host)
get_repo_image-get_release_image parse_tolerant version repository host port_and_path architecture
      ne lacks host_lacks host_ne =
    (
      rw (get_release_image_override parse_tolerant version repository architecture ne)
          (get_repo_image_colon repository (version <> "-" <> architecture) lacks),
      rw
          (get_release_image_override parse_tolerant version (host <> ":" <> port_and_path)
            architecture host_ne)
          (rw (append_assoc, append_assoc)
            (get_repo_image_colon host (port_and_path <> ":" <> version <> "-" <> architecture)
              host_lacks)),
    )
