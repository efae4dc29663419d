-- ===== src/ControlPlane/AgentClusterInstall/Kubeconfig.antt =====
-- The kubeconfig that the AgentClusterInstall controller hands to the workload client: createKubeconfig,
-- against GetWorkloadKubeconfig of util/util.go.
use cluster_api_agent.Prelude.{◌≡◌, ◌∷◌}
use cluster_api_agent.Kube.Errors.{ok}
use cluster_api_agent.Kube.Kinds.{key_of, secret}
use cluster_api_agent.Kube.Objects.{Secret}
use cluster_api_agent.Kube.Api.{Api, Call, History}
use cluster_api_agent.Kube.Library.{Library}

-- A secret that was just written is there.
pub record Remembers (api : Api) : Type 0 where
  pub created :
      (s : Secret) (h : History)
      → api.get_answer secret (key_of s.meta) (Call.create secret s ∷ h) ≡ ok s
  pub updated :
      (s : Secret) (h : History)
      → api.get_answer secret (key_of s.meta) (Call.update secret s ∷ h) ≡ ok s
