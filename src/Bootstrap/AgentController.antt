-- ===== src/Bootstrap/AgentController.antt =====
-- bootstrap/internal/controller/agent_controller.go: an Agent gets its role, its ignition and its
-- approval from the machine that it boots.
pub mod Approval
use cluster_api_agent.Prelude.{String, true, ◌<>◌, none, some, lookup, is_some, if◌then◌else◌}
use cluster_api_agent.Kube.Errors.{Err, Outcome, error}
use cluster_api_agent.Kube.Meta.{Key, ObjectReference}
use cluster_api_agent.Kube.Objects.{Agent, Machine}
use cluster_api_agent.Kube.Kinds.{agent, assisted_config, infra_env, machine}
use cluster_api_agent.Kube.Api.{Api, Exec, pure, fail, lift, ◌>>=◌, ◌>>◌}
use cluster_api_agent.Kube.Calls.{get, update, update_status}
use cluster_api_agent.Kube.Reconcile.{Body, done, stop, or_return, get_or_ignore}
use cluster_api_agent.ControlPlane.Common.{machine_control_plane_label, get_typed_owner}
use cluster_api_agent.Bootstrap.Types.{OpenshiftAssistedConfig}
use cluster_api_agent.Bootstrap.Ignition.{IgnitionConfig, get_ignition_config}

abbrev infra_env_name_label : String
infra_env_name_label = "infraenvs.agent-install.openshift.io"

-- The role that the labels of the machine give.
unfoldable pub role_of : Machine → String
role_of m =
    if is_some (lookup machine_control_plane_label m.meta.labels) then "master" else "worker"

module _ {L : Type 0} (api : Api) (marshal : IgnitionConfig → Outcome Err String)
    (encode_base64 : String → String) where
  unfoldable pub get_machine_from_agent : Agent → Exec L Err Machine
  get_machine_from_agent a = elim (lookup infra_env_name_label a.meta.labels) [
    | none ↦ fail (
        error (
          "no " <> infra_env_name_label <> " label on Agent " <> a.meta.namespace <> "/"
          <> a.meta.name))
    | some name ↦ (do
      env ← get api infra_env (record { namespace = a.meta.namespace; name = name })
      get_typed_owner api machine env.meta)
  ]

  -- The first agent that is seen is recorded; its name stays.
  refer_to : String → OpenshiftAssistedConfig → Exec L Err OpenshiftAssistedConfig
  refer_to agent_name config = elim config.status.agent_ref [
    | some ref ↦ pure config
    | none ↦ update_status api assisted_config (record config {
      status = record config.status { agent_ref = some (record { name = agent_name }) };
    })
  ]

  unfoldable pub ensure_bootstrap_config_reference :
      ObjectReference → String → Exec L Err OpenshiftAssistedConfig
  unfolding refer_to
  ensure_bootstrap_config_reference ref agent_name = do
    config ← get api assisted_config (record { namespace = ref.namespace; name = ref.name })
    refer_to agent_name config

  unfoldable pub set_agent_fields : Agent → Machine → OpenshiftAssistedConfig → Exec L Err Unit
  unfolding role_of
  set_agent_fields a m config = do
    overrides ← lift (get_ignition_config marshal encode_base64 config)
    update api agent
        (record a { role = role_of m; ignition_config_overrides = overrides; approved = true })
    pure tt

  unfoldable pub reconcile : Key → Body L
  reconcile key = do
    a ← get_or_ignore api agent key
    m ← or_return (get_machine_from_agent a)
    elim m.spec.bootstrap_config_ref [
      | none ↦ stop done
      | some ref ↦ (do
        config ← or_return (ensure_bootstrap_config_reference ref a.meta.name)
        or_return (set_agent_fields a m config)
        pure done)
    ]
