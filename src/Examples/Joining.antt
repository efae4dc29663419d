-- ===== src/Examples/Joining.antt =====
-- Machines that join a cluster.
use cluster_api_agent.Prelude.{
  Bool, Option, arith, is_some, true, false, ◌≡◌, ◌&&◌, refl, List, [], ◌∷◌, some, none, contains,
  lookup,
}
use cluster_api_agent.Kube.Errors.{Err, Outcome, ok, exit, is_ok, panic}
use cluster_api_agent.Kube.Meta.{ObjectMeta, Key}
use cluster_api_agent.Kube.Objects.{Machine, AgentClusterInstall}
use cluster_api_agent.Kube.Kinds.{Kind}
use cluster_api_agent.Kube.Api.{Call, History, Api}
use cluster_api_agent.Kube.Reconcile.{done}
use cluster_api_agent.AssistedInstaller.{get_ignition_url_from_infra_env}
use cluster_api_agent.Bootstrap.Types.{OpenshiftAssistedConfig}
use cluster_api_agent.ControlPlane.Common.{machine_control_plane_label, get_typed_owner}
use cluster_api_agent.Bootstrap.Ignition.{get_ignition_config, get_ignition_config_overrides}
use cluster_api_agent.Bootstrap.AgentController.{
  get_machine_from_agent, ensure_bootstrap_config_reference, set_agent_fields,
}
use cluster_api_agent.Bootstrap.AgentController
use cluster_api_agent.Bootstrap.AgentController.Approval.{Approves, reconcile-Approves}
use cluster_api_agent.Bootstrap.InfraEnvController.{attach_loop}
use cluster_api_agent.Bootstrap.InfraEnvController.Attach.{
  all_refer, attached, attach_loop_attaches,
}
use cluster_api_agent.Bootstrap.Secrets.{
  create_user_data_secret, ensure_infra_env, get_agent_cluster_install, get_cluster_deployment,
  get_ignition,
}
use cluster_api_agent.Bootstrap.ConfigController.{
  available, may_join, reconcile_body, run_body, set_summary,
}
use cluster_api_agent.Bootstrap.ConfigController.Panics.{run_body_panics}
use cluster_api_agent.Bootstrap.ConfigController.Waiting.{Idle, run_body_waits}
use cluster_api_agent.Examples.Objects.{config, installation, machine_named}
use cluster_api_agent.Examples.World.{plain, nothing, missing, at_start}
use cluster_api_agent.Examples.Installing.{urls, service, tools_at, installed, installing, with_url}

-- That run gets to the end, and the configuration is ready.
ready_at_the_end :
    (reconcile_body (tools_at installing) (at_start with_url)).1.local.status.ready ≡ true
unfolding reconcile_body get_cluster_deployment get_agent_cluster_install lookup ensure_infra_env
    contains get_ignition get_ignition_url_from_infra_env create_user_data_secret available
ready_at_the_end = refl

-- The machine is a worker, and the installation is under way.
abbrev with_worker : Api
with_worker = record installing { owner_machine_answer = λ m h. ok (some (machine_named "w0")) }

-- Whatever is found as an installation is the one that is under way.
found_installation :
    (aci : AgentClusterInstall) → installed Kind.agent_cluster_install ≡ ok aci → installation ≡ aci
found_installation aci h = ground arith

abbrev found : Outcome Err (Option Machine)
found = ok (some (machine_named "w0"))

found_worker : (m : Machine) → found ≡ ok (some m) → machine_named "w0" ≡ m
found_worker m h = ground arith

installing_closed :
    (key : Key) (h : History) (aci : AgentClusterInstall)
    → with_worker.get_answer Kind.agent_cluster_install key h ≡ ok aci
    → may_join aci.state ≡ false
unfolding may_join
installing_closed key h aci there = rw (← found_installation aci there) refl

only_workers :
    (meta : ObjectMeta) (h : History) (m : Machine)
    → with_worker.owner_machine_answer meta h ≡ ok (some m)
    → is_some (lookup machine_control_plane_label m.meta.labels) ≡ false
unfolding lookup
only_workers meta h m there = rw (← found_worker m there) refl

run_body_waits_example :
    let env' = (run_body (tools_at with_worker) (at_start with_url)).1 in
    (h : History) × (observed : Bool) × (env'.calls
      ≡ Call.patch Kind.assisted_config env'.local observed ∷ h)
    × Idle (at_start with_url) (record { local = env'.local; calls = h })
run_body_waits_example =
    run_body_waits (tools_at with_worker) installing_closed only_workers (at_start with_url) refl

-- A worker's configuration.
abbrev worker_config : OpenshiftAssistedConfig
worker_config = record config { meta = record config.meta { labels = [] } }

abbrev orphaned : Api
orphaned = record nothing { config_owner_answer = λ m h. exit missing }

run_body_panics_example :
    let summed = set_summary plain config in
    ((reconcile_body (tools_at orphaned) (at_start config)).0 ≡ exit (done, some panic))
    × ((run_body (tools_at orphaned) (at_start config)).1.calls
        ≡ Call.patch Kind.assisted_config summed true
          ∷ Call.get_typed_config_owner config.meta
          ∷ [])
run_body_panics_example = run_body_panics (tools_at orphaned) (at_start config) missing refl refl

abbrev storing : Api
storing = record nothing { update_status_answer = λ k o h. ok o }

-- The second configuration refers to no InfraEnv.
abbrev configs : List OpenshiftAssistedConfig
configs =
    config
    ∷ record config { status = record config.status { infra_env_ref = none } }
    ∷ worker_config
    ∷ []

attach_loop_attaches_example :
    let (r, env') =
      attach_loop storing urls none (λ n. "0") "http://iso" configs none (at_start service) in
    (env'.calls ≡ attached "http://iso" configs [])
    × (env'.local ≡ service)
    × (is_ok r ≡ (all_refer configs && true))
attach_loop_attaches_example =
    attach_loop_attaches storing urls none (λ n. "0") "http://iso" configs none (at_start service)
      (λ c h. refl)

abbrev agent_key : Key
agent_key = record { namespace = "ns"; name = "agent" }

reconcile-Approves_example :
    Approves installing
      (λ c. ok "")
      (λ s. s)
      agent_key
      (at_start tt)
      (AgentController.reconcile installing (λ c. ok "") (λ s. s) agent_key (at_start tt)).1
unfolding AgentController.reconcile lookup get_machine_from_agent get_typed_owner
    ensure_bootstrap_config_reference set_agent_fields get_ignition_config
    get_ignition_config_overrides
reconcile-Approves_example =
    reconcile-Approves installing (λ c. ok "") (λ s. s) agent_key (at_start tt) refl
