-- ===== src/Bootstrap/ConfigController/Panics.antt =====
-- Where a run reads through a nil pointer.
use cluster_api_agent.Prelude.{◌∷◌, true, ◌≡◌, some, arith}
use cluster_api_agent.Kube.Errors.{Err, exit, panic, not_found, has_reason}
use cluster_api_agent.Kube.Kinds.{assisted_config}
use cluster_api_agent.Kube.Api.{Call, Env}
use cluster_api_agent.Kube.Reconcile.{done}
use cluster_api_agent.Bootstrap.Types.{OpenshiftAssistedConfig}
use cluster_api_agent.Bootstrap.ConfigController.{
  set_summary, run_body, finish, Tools, reconcile_body,
}

module _ (tools : Tools) where
  -- Where the owner of a configuration is not found, for instance since it is deleted already, the
  -- run does not wait for one: it reads through the nil owner, after which the deferred function still
  -- patches, with the observed generation of a run without error, and nothing else is called.
  pub run_body_panics :
      (env : Env OpenshiftAssistedConfig) (e : Err)
      → tools.api.config_owner_answer env.local.meta env.calls ≡ exit e
      → has_reason not_found e ≡ true
      → let summed = set_summary tools.lib env.local in
        ((reconcile_body tools env).0 ≡ exit (done, some panic))
        × ((run_body tools env).1.calls
            ≡ Call.patch assisted_config summed true
              ∷ Call.get_typed_config_owner env.local.meta
              ∷ env.calls)
  unfolding reconcile_body run_body finish
  run_body_panics env e answered missing = rw (answered, missing) (ground arith)
