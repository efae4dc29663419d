-- ===== src/Examples/Deploying.antt =====
-- The first run on a ClusterDeployment: nothing is there but its cluster.
use cluster_api_agent.Prelude.{◌≡◌, refl, some, none, lookup, arith}
use cluster_api_agent.Kube.Errors.{ok}
use cluster_api_agent.Kube.Objects.{AgentClusterInstall}
use cluster_api_agent.Kube.Api.{Api}
use cluster_api_agent.ControlPlane.Common.{
  create_or_update, get_architecture_from_bootstrap_configs,
}
use cluster_api_agent.ControlPlane.Capabilities.{set_aci_capabilities}
use cluster_api_agent.ControlPlane.ClusterDeployment.{
  Tools, ensure_agent_cluster_install, get_worker_nodes_count, compute_agent_cluster_install,
  agent_cluster_install_of,
}
use cluster_api_agent.ControlPlane.ClusterDeployment.Installing.{
  Keyed, Leaves, IsOf, ensure_agent_cluster_install-Leaves,
}
use cluster_api_agent.Examples.Objects.{acp, cluster, cluster_deployment}
use cluster_api_agent.Examples.World.{plain, nothing, at_start}

abbrev storing : Api
storing = record nothing {
  owner_cluster_answer = λ m h. ok (some cluster);
  create_answer = λ k o h. ok o;
  update_answer = λ k o h. ok o;
}

abbrev tools : Tools
tools = record {
  api = storing;
  lib = plain;
  parse_tolerant = λ s. none;
  encoders = record {
    load_toml = λ s. ok none;
    marshal_digest_mirror_set = λ m. ok "";
    marshal_tag_mirror_set = λ m. ok "";
    marshal_config_map = λ m. ok "";
    marshal_image_config = λ m. ok "";
  };
  marshal = λ c. ok "";
}

keyed : Keyed storing
keyed k key h o found = absurd (ground arith)

ensure_agent_cluster_install-Leaves_example :
    (aci : AgentClusterInstall) × Leaves cluster_deployment aci
      (ensure_agent_cluster_install tools cluster_deployment acp (at_start tt)).1.calls
    × (aci.spec.image_set_ref ≡ some "cp")
    × IsOf cluster_deployment acp aci
unfolding ensure_agent_cluster_install create_or_update get_architecture_from_bootstrap_configs
    get_worker_nodes_count compute_agent_cluster_install set_aci_capabilities
    agent_cluster_install_of lookup
ensure_agent_cluster_install-Leaves_example =
    ensure_agent_cluster_install-Leaves tools keyed cluster_deployment acp (at_start tt) refl
