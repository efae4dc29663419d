-- ===== src/Bootstrap/ConfigController/Waiting.antt =====
-- Workers that come while a cluster is being installed.
use cluster_api_agent.Prelude.{Bool, ◌∷◌, false, ◌≡◌, refl, none, some, arith}
use cluster_api_agent.Kube.Errors.{ok}
use cluster_api_agent.Kube.Meta.{Key, ObjectMeta}
use cluster_api_agent.Kube.Objects.{AgentClusterInstall, ClusterDeployment, Machine, Cluster}
use cluster_api_agent.Kube.Kinds.{agent_cluster_install, assisted_config}
use cluster_api_agent.Kube.Api.{Call, Env, History}
use cluster_api_agent.Kube.Reconcile.{returned, succeeded}
use cluster_api_agent.Kube.Counts.{count, is_write}
use cluster_api_agent.Bootstrap.Types.{OpenshiftAssistedConfig}
use cluster_api_agent.Bootstrap.Secrets.{get_agent_cluster_install, get_cluster_deployment}
use cluster_api_agent.Bootstrap.ConfigController.{
  Tools, unavailable, wait_for, or_wait, may_join, is_control_plane_machine, reconcile_installing,
  reconcile_cluster, reconcile_live, reconcile_body, run_body, finish, set_summary,
}
use cluster_api_agent.Bootstrap.ConfigController.Joining.{reconcile_installing_waits}

-- Nothing is written, and readiness and the references to an InfraEnv and a secret stay.
abbrev pub Idle : Env OpenshiftAssistedConfig → Env OpenshiftAssistedConfig → Type 0
Idle env env' =
    (count is_write env'.calls ≡ count is_write env.calls)
    × (env'.local.status.ready ≡ env.local.status.ready)
    × (env'.local.status.infra_env_ref ≡ env.local.status.infra_env_ref)
    × (env'.local.status.data_secret_name ≡ env.local.status.data_secret_name)

module _ (tools : Tools)
    (closed : (key : Key) (h : History) (aci : AgentClusterInstall)
      → tools.api.get_answer agent_cluster_install key h ≡ ok aci
      → may_join aci.state ≡ false)
    (workers : (meta : ObjectMeta) (h : History) (m : Machine)
      → tools.api.owner_machine_answer meta h ≡ ok (some m)
      → is_control_plane_machine m ≡ false) where
  installing-Idle :
      (m : Machine) (cd : ClusterDeployment) (aci : AgentClusterInstall)
      (env : Env OpenshiftAssistedConfig)
      → is_control_plane_machine m ≡ false
      → may_join aci.state ≡ false
      → Idle env (reconcile_installing tools (some m) cd aci env).1
  installing-Idle m cd aci env worker shut =
      let (_, calls, ready, env_ref, name) =
        reconcile_installing_waits tools m cd aci env worker shut in
      (rw calls refl, ready, env_ref, name)

  missing-Idle :
      (cd : ClusterDeployment) (aci : AgentClusterInstall) (env : Env OpenshiftAssistedConfig)
      → Idle env (reconcile_installing tools none cd aci env).1
  unfolding reconcile_installing
  missing-Idle cd aci env = (refl, refl, refl, refl)

  cluster-Idle :
      (cluster : Cluster) (env : Env OpenshiftAssistedConfig)
      → Idle env (reconcile_cluster tools cluster env).1
  unfolding reconcile_cluster get_agent_cluster_install get_cluster_deployment wait_for or_wait
      unavailable count
  cluster-Idle cluster env = grind (arith, closed, workers, installing-Idle, missing-Idle)

  reconcile_body-Idle :
      (env : Env OpenshiftAssistedConfig)
      → env.local.meta.deletion_timestamp ≡ none
      → Idle env (reconcile_body tools env).1
  unfolding reconcile_body reconcile_live count
  reconcile_body-Idle env live = grind (arith, cluster-Idle)

  -- While no installation that is found is in a state in which workers may join, and every machine
  -- that is found is a worker, the only write of a run on a configuration that is not being deleted
  -- is the deferred patch of that configuration, its last call, and the configuration stays as ready
  -- as it was and refers to the InfraEnv and the data secret that it did: none is made.
  pub run_body_waits :
      (env : Env OpenshiftAssistedConfig)
      → env.local.meta.deletion_timestamp ≡ none
      → let env' = (run_body tools env).1 in
        (h : History) × (observed : Bool) × (env'.calls
          ≡ Call.patch assisted_config env'.local observed ∷ h)
        × Idle env (record { local = env'.local; calls = h })
  unfolding run_body finish set_summary
  run_body_waits env live =
      let (r, env1) = reconcile_body tools env in
      let idle = reconcile_body-Idle env live in
      (env1.calls, succeeded (returned r).1, ground arith, ground (arith, idle))
