-- ===== src/ControlPlane/Version/Reasons.antt =====
-- What is left of an error on its way out of GetKubernetesVersion.
use cluster_api_agent.Prelude.{String, ◌≡◌, List, [], arith}
use cluster_api_agent.Kube.Errors.{Err, Outcome, exit}
use cluster_api_agent.Kube.Api.{Api, Env}
use cluster_api_agent.Containers.{Codecs}
use cluster_api_agent.ControlPlane.Version.{Tag, get_kubernetes_version}

-- Every error of GetKubernetesVersion has lost the reasons of its cause: errors.Is finds none, not
-- even that the image was not found.
pub reasons-get_kubernetes_version :
    {L : Type 0} (api : Api) (codecs : Codecs) (unmarshal : String → Outcome Err (List Tag))
    (image_ref pull_secret : String) (env : Env L) {e : Err}
    → (get_kubernetes_version api codecs unmarshal image_ref pull_secret env).0 ≡ exit e
    → e.reasons ≡ []
unfolding get_kubernetes_version
reasons-get_kubernetes_version api codecs unmarshal image_ref pull_secret env h = ground arith
