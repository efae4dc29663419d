-- ===== src/Examples/Handing.antt =====
-- A server that remembers the last secret that was written.
use cluster_api_agent.Prelude.{[], ◌∷◌}
use cluster_api_agent.Kube.Errors.{Err, Outcome, ok, exit}
use cluster_api_agent.Kube.Meta.{named, no_type}
use cluster_api_agent.Kube.Objects.{Secret}
use cluster_api_agent.Kube.Kinds.{Kind, Obj}
use cluster_api_agent.Kube.Api.{Api, Call, History}
use cluster_api_agent.Examples.World.{nothing, missing}

abbrev last_secret : History → Outcome Err Secret
last_secret (Call.create Kind.secret s ∷ h) = ok s
last_secret (Call.update Kind.secret s ∷ h) = ok s
last_secret _ = exit missing

abbrev remembered : (k : Kind) → History → Outcome Err (Obj k)
remembered Kind.secret h = last_secret h
remembered k h = exit missing

abbrev remembering : Api
remembering = record nothing {
  get_answer = λ k key h. remembered k h;
  create_answer = λ k o h. ok o;
}

-- The secret of the installation.
abbrev admin : Secret
admin = record {
  type_meta = no_type;
  meta = named "admin-kubeconfig" "ns";
  contents = ("kubeconfig", "clusters: []") ∷ [];
  secret_type = "";
}
