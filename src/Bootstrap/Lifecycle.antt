-- ===== src/Bootstrap/Lifecycle.antt =====
-- The life of an OpenshiftAssistedConfig under the three controllers of the bootstrap provider, in
-- any order: each step is a run that reads the stored object and stores what it made of it.
-- The runs follow one another: runs that overlap on one object are not modelled.
pub mod Serving
pub mod Path
use cluster_api_agent.Prelude.{ℕ, String, true, false, ◌==◌, ◌≡◌, some, is_some}
use cluster_api_agent.Kube.Errors.{Err, Outcome, ok}
use cluster_api_agent.Kube.Meta.{ObjectReference}
use cluster_api_agent.Kube.Kinds.{assisted_config, Obj}
use cluster_api_agent.Kube.Api.{Env, History}
use cluster_api_agent.Bootstrap.Types.{OpenshiftAssistedConfig}
use cluster_api_agent.Bootstrap.Ignition.{IgnitionConfig}
use cluster_api_agent.Bootstrap.AgentController.{ensure_bootstrap_config_reference}
use cluster_api_agent.Bootstrap.InfraEnvController.{with_iso}
use cluster_api_agent.Bootstrap.ConfigController.{Tools, run_body}

abbrev pub Config : Type 0
Config = OpenshiftAssistedConfig

module _ (tools : Tools) where
  pub data Step : Config → Config → Type 0 where
    -- its own reconciler
    run :
        (h : History) (c : Config)
        → Step c (run_body tools (record { local = c; calls = h })).1.local
    -- the InfraEnv controller, which stores a URL that is not empty where an InfraEnv is referred to
    iso_attached :
        (c : Config) (url : String)
        → is_some c.status.infra_env_ref ≡ true
        → (url == "") ≡ false
        → Step c (with_iso url c)
    -- the Agent controller, which finds the configuration c and goes on with c'
    agent_seen :
        (marshal : IgnitionConfig → Outcome Err String) (encode_base64 : String → String)
        (ref : ObjectReference) (agent_name : String) (env : Env (Unit {0})) {c c' : Config}
        → tools.api.get_answer assisted_config
            (record { namespace = ref.namespace; name = ref.name })
            env.calls
          ≡ ok c
        → (ensure_bootstrap_config_reference tools.api marshal encode_base64 ref agent_name env).0
          ≡ ok c'
        → Step c c'
    -- a user, or the owner that goes
    deletion_requested :
        (c : Config) (t : ℕ)
        → Step c (record c { meta = record c.meta { deletion_timestamp = some t } })

  pub data Reach (c0 : Config) : Config → Type 0 where
    here : Reach c0 c0
    next : {c c' : Config} → Reach c0 c → Step c c' → Reach c0 c'
