-- ===== src/Bootstrap/ConfigController/Joining.antt =====
-- When a configuration becomes ready.
use cluster_api_agent.Prelude.{
  String, Bool, true, false, not, ◌≡◌, ◌||◌, ◌&&◌, Option, none, some, is_some, arith, Bool-cases,
  inl, inr,
}
use cluster_api_agent.Kube.Errors.{exit}
use cluster_api_agent.Kube.Objects.{AgentClusterInstall, ClusterDeployment, Machine, Cluster}
use cluster_api_agent.Kube.Api.{Env, ConfigOwner}
use cluster_api_agent.Kube.Reconcile.{after}
use cluster_api_agent.Bootstrap.Types.{OpenshiftAssistedConfig}
use cluster_api_agent.Bootstrap.Secrets.{
  ensure_infra_env, get_agent_cluster_install, get_cluster_deployment, create_user_data_secret,
  handle_deletion, get_ignition,
}
use cluster_api_agent.Bootstrap.ConfigController.{
  Tools, unavailable, wait_for, or_wait, or_failed, may_join, is_control_plane_machine, available,
  publish, reconcile_machine, reconcile_installing, reconcile_cluster, reconcile_live,
  reconcile_body,
}

-- A configuration that is ready names its secret.
abbrev pub names_secret : OpenshiftAssistedConfig → Bool
names_secret c = not c.status.ready || is_some c.status.data_secret_name

module _ (tools : Tools) where
  -- A worker that may not join waits: nothing is called, and readiness and the references stay.
  pub reconcile_installing_waits :
      (m : Machine) (cd : ClusterDeployment) (aci : AgentClusterInstall)
      (env : Env OpenshiftAssistedConfig)
      → is_control_plane_machine m ≡ false
      → may_join aci.state ≡ false
      → let (r, env') = reconcile_installing tools (some m) cd aci env in
        (r ≡ exit (after 60, none))
        × (env'.calls ≡ env.calls)
        × (env'.local.status.ready ≡ env.local.status.ready)
        × (env'.local.status.infra_env_ref ≡ env.local.status.infra_env_ref)
        × (env'.local.status.data_secret_name ≡ env.local.status.data_secret_name)
  unfolding reconcile_installing wait_for unavailable
  reconcile_installing_waits m cd aci env worker closed = rw (worker, closed) (ground arith)

  infra_env_names_secret :
      (m : Machine) (cd : ClusterDeployment) (env : Env OpenshiftAssistedConfig)
      → names_secret env.local ≡ true
      → names_secret (ensure_infra_env tools.api tools.lib m cd env).1.local ≡ true
  unfolding ensure_infra_env
  infra_env_names_secret m cd env h = ground arith

  pub ignition_keeps_local :
      (m : Machine) (env : Env OpenshiftAssistedConfig)
      → (get_ignition tools.api tools.urls tools.decimal tools.config tools.http_client m
          env).1.local
        ≡ env.local
  unfolding get_ignition
  ignition_keeps_local m env = ground arith

  pub secret_keeps_local :
      (ignition : String) (env : Env OpenshiftAssistedConfig)
      → (create_user_data_secret tools.api tools.lib ignition env).1.local ≡ env.local
  unfolding create_user_data_secret
  secret_keeps_local ignition env = ground arith

  publish-names_secret :
      (m : Machine) (env : Env OpenshiftAssistedConfig)
      → names_secret env.local ≡ true
      → names_secret (publish tools m env).1.local ≡ true
  unfolding publish available or_failed unavailable
  publish-names_secret m env h = grind (arith, ignition_keeps_local, secret_keeps_local)

  machine_names_secret :
      (m : Machine) (cd : ClusterDeployment) (env : Env OpenshiftAssistedConfig)
      → names_secret env.local ≡ true
      → names_secret (reconcile_machine tools m cd env).1.local ≡ true
  unfolding reconcile_machine wait_for or_failed unavailable
  machine_names_secret m cd env h =
      let env' = (ensure_infra_env tools.api tools.lib m cd env).1 in
      let kept = infra_env_names_secret m cd env h in
      ground (arith, publish-names_secret m env' kept)

  installing_names_secret :
      (m : Option Machine) (cd : ClusterDeployment) (aci : AgentClusterInstall)
      (env : Env OpenshiftAssistedConfig)
      → names_secret env.local ≡ true
      → names_secret (reconcile_installing tools m cd aci env).1.local ≡ true
  unfolding reconcile_installing wait_for unavailable
  installing_names_secret none cd aci env h = h
  installing_names_secret (some m) cd aci env h =
      elim (Bool-cases (not (is_control_plane_machine m) && not (may_join aci.state))) [
        | inl waits ↦ rw waits (ground arith)
        | inr joins ↦ rw joins (machine_names_secret m cd env h)
      ]

  cluster_names_secret :
      (cluster : Cluster) (env : Env OpenshiftAssistedConfig)
      → names_secret env.local ≡ true
      → names_secret (reconcile_cluster tools cluster env).1.local ≡ true
  unfolding reconcile_cluster get_agent_cluster_install get_cluster_deployment wait_for or_wait
      unavailable
  cluster_names_secret cluster env h = grind (arith, installing_names_secret)

  deletion_names_secret :
      (owner : ConfigOwner) (env : Env OpenshiftAssistedConfig)
      → names_secret env.local ≡ true
      → names_secret (handle_deletion tools.api tools.lib owner env).1.local ≡ true
  unfolding handle_deletion
  deletion_names_secret owner env h = ground arith

  -- No run makes a configuration ready without naming its secret.
  pub reconcile_body-names_secret :
      (env : Env OpenshiftAssistedConfig)
      → names_secret env.local ≡ true
      → names_secret (reconcile_body tools env).1.local ≡ true
  unfolding reconcile_body reconcile_live
  reconcile_body-names_secret env h = grind (arith, cluster_names_secret, deletion_names_secret)
