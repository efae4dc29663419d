-- ===== src/Bootstrap/Secrets/Deletion.antt =====
-- How a configuration is let go.
use cluster_api_agent.Prelude.{true, false, ◌≡◌, none, arith}
use cluster_api_agent.Kube.Errors.{ok}
use cluster_api_agent.Kube.Api.{Api, Env, ConfigOwner}
use cluster_api_agent.Kube.Library.{Library, FinalizerLaws}
use cluster_api_agent.Bootstrap.Types.{OpenshiftAssistedConfig}
use cluster_api_agent.Bootstrap.Secrets.{handle_deletion, openshift_assisted_config_finalizer}

module _ (api : Api) (lib : Library) where
  -- A deletion that succeeds on a configuration with the finalizer has removed it, and both the
  -- references to the Agent and to the InfraEnv.
  pub handle_deletion_clears :
      (laws : FinalizerLaws lib) (owner : ConfigOwner) (env : Env OpenshiftAssistedConfig)
      → lib.contains_finalizer env.local.meta openshift_assisted_config_finalizer ≡ true
      → (handle_deletion api lib owner env).0 ≡ ok tt
      → let c = (handle_deletion api lib owner env).1.local in
        (lib.contains_finalizer c.meta openshift_assisted_config_finalizer ≡ false)
        × (c.status.agent_ref ≡ none)
        × (c.status.infra_env_ref ≡ none)
  unfolding handle_deletion
  handle_deletion_clears laws owner env held h =
      ground (arith, laws.contains-remove env.local.meta openshift_assisted_config_finalizer)
