-- ===== src/Bootstrap/Lifecycle/Path.antt =====
-- The way of a configuration to a machine that can boot.
use cluster_api_agent.Prelude.{String}
use cluster_api_agent.Kube.Api.{History}
use cluster_api_agent.Bootstrap.InfraEnvController.{with_iso}
use cluster_api_agent.Bootstrap.ConfigController.{Tools, run_body}
use cluster_api_agent.Bootstrap.ConfigController.Keeping.{NameLaws}
use cluster_api_agent.Bootstrap.ConfigController.Completing.{Installs}
use cluster_api_agent.Bootstrap.Lifecycle.{Config}

module _ (tools : Tools) (laws : NameLaws tools.api tools.lib) (there : Installs tools)
    (before after : History) (url : String) (c : Config) where
  -- The runs: one that refers to an InfraEnv, the URL of its live ISO, and a second one.
  abbrev referred : Config
  referred = (run_body tools (record { local = c; calls = before })).1.local

  abbrev pub completed : Config
  completed = (run_body tools (record { local = with_iso url referred; calls = after })).1.local
