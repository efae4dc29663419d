-- ===== src/Bootstrap/ConfigController/Completing.antt =====
-- Runs against a server that has what they ask for.
use cluster_api_agent.Prelude.{
  String, Bool, true, false, ◌==◌, ◌≡◌, [], ◌∷◌, none, some, is_some, nat_eq, arith, Bool-cases,
  inl, inr,
}
use cluster_api_agent.Kube.Errors.{Err, Outcome, ok, exit, is_ok, not_found, has_reason}
use cluster_api_agent.Kube.Meta.{Key, TypeMeta, ObjectMeta, ObjectReference}
use cluster_api_agent.Kube.Objects.{
  AgentClusterInstall, Cluster, ClusterInstallReference, ClusterDeployment, InfraEnv, Machine,
  Secret,
}
use cluster_api_agent.Kube.Kinds.{
  agent_cluster_install, assisted_config, cluster_deployment, infra_env, secret,
}
use cluster_api_agent.Kube.Api.{Call, ConfigOwner, Env, History, HttpResponse, Selector}
use cluster_api_agent.Kube.Reconcile.{Result, Returned, done}
use cluster_api_agent.AssistedInstaller.{Url, get_ignition_url_from_infra_env}
use cluster_api_agent.Bootstrap.Secrets.{
  get_infra_env_name, ensure_infra_env, get_agent_cluster_install, get_cluster_deployment,
  create_user_data_secret, get_ignition, openshift_assisted_config_finalizer,
}
use cluster_api_agent.Bootstrap.ConfigController.{
  Tools, available, set_summary, is_control_plane_machine, publish, reconcile_machine,
  reconcile_installing, reconcile_cluster, reconcile_live, reconcile_body, run_body, finish,
  wait_for, or_wait, or_failed, unavailable, reconcile_named,
}
use cluster_api_agent.Bootstrap.ConfigController.Keeping.{NameLaws}
use cluster_api_agent.Bootstrap.Types.{OpenshiftAssistedConfig}

abbrev Config : Type 0
Config = OpenshiftAssistedConfig

-- What a run asks for is there, for a machine of the control plane: its owner and its cluster, with
-- infrastructure; the one ClusterDeployment, and its installation; an InfraEnv, with an ignition that
-- can be fetched; and new objects are stored.
pub record Installs (tools : Tools) : Type 0 where
  pub owner : ConfigOwner
  pub cluster : Cluster
  pub node : Machine
  pub deployment : ClusterDeployment
  pub installation : ClusterInstallReference
  pub aci : AgentClusterInstall
  pub env : InfraEnv
  pub url : Url
  pub request : String
  pub response : HttpResponse
  pub ignition : String
  pub absent : Err
  pub owned : ObjectMeta → ObjectMeta → ObjectMeta
  pub reference : TypeMeta → ObjectMeta → ObjectReference
  pub owner_found :
      (m : ObjectMeta) (h : History) → tools.api.config_owner_answer m h ≡ ok (some owner)
  pub cluster_found :
      (ns n : String) (h : History) → tools.api.cluster_by_name_answer ns n h ≡ ok cluster
  pub infrastructure : cluster.infrastructure_ready ≡ true
  pub machine_found :
      (m : ObjectMeta) (h : History) → tools.api.owner_machine_answer m h ≡ ok (some node)
  pub of_control_plane : is_control_plane_machine node ≡ true
  pub machine_named : (get_infra_env_name node == "") ≡ false
  pub deployment_found :
      (s : Selector) (h : History)
      → tools.api.list_answer cluster_deployment s h ≡ ok (deployment ∷ [])
  pub installing : deployment.cluster_install_ref ≡ some installation
  pub installation_found :
      (key : Key) (h : History) → tools.api.get_answer agent_cluster_install key h ≡ ok aci
  pub env_created : (o : InfraEnv) (h : History) → tools.api.create_answer infra_env o h ≡ ok o
  pub env_found : (key : Key) (h : History) → tools.api.get_answer infra_env key h ≡ ok env
  pub referenced :
      (t : TypeMeta) (m : ObjectMeta) → tools.lib.get_reference t m ≡ ok (reference t m)
  pub ignition_url : get_ignition_url_from_infra_env tools.urls tools.config env ≡ ok url
  pub requested : tools.urls.new_request (tools.urls.print url) ≡ ok request
  pub client : tools.http_client ≡ true
  pub answered : (u : String) (h : History) → tools.api.http_answer u h ≡ ok response
  pub good : nat_eq response.status_code 200 ≡ true
  pub readable : response.body ≡ ok ignition
  pub secret_absent : (key : Key) (h : History) → tools.api.get_answer secret key h ≡ exit absent
  pub is_absent : has_reason not_found absent ≡ true
  pub ownable : (o m : ObjectMeta) → tools.lib.set_owner_reference o m ≡ ok (owned o m)
  pub patched :
      (o : OpenshiftAssistedConfig) (observed : Bool) (h : History)
      → tools.api.patch_answer assisted_config o observed h ≡ ok tt
  pub secret_created : (o : Secret) (h : History) → tools.api.create_answer secret o h ≡ ok o

-- A run refers to an InfraEnv, and with the URL of a live ISO it ends well and the configuration is
-- ready.
abbrev Serves : Env Config → Outcome Returned Result × Env Config → Type 0
Serves env (r, env') =
    (is_some env'.local.status.infra_env_ref ≡ true)
    × (env'.local.meta.deletion_timestamp ≡ env.local.meta.deletion_timestamp)
    × ((env.local.status.iso_download_url == "") ≡ false
        → (r ≡ ok done) × (env'.local.status.ready ≡ true))

module _ (tools : Tools) (there : Installs tools) where
  open tools use {api, lib, urls, decimal, config, http_client}
  open there use {node, deployment, cluster, owner}

  ignition_fetched :
      (env : Env Config)
      → let (r, env') = get_ignition api urls decimal config http_client node env in
        (r ≡ ok there.ignition) × (env'.local ≡ env.local)
  unfolding get_ignition
  ignition_fetched env = grind (
    arith, there.env_found, there.ignition_url, there.requested, there.client, there.answered,
    there.good, there.readable,
  )

  secret_made :
      (env : Env Config)
      → let (r, env') = create_user_data_secret api lib there.ignition env in
        (is_ok r ≡ true) × (env'.local ≡ env.local)
  unfolding create_user_data_secret
  secret_made env =
      grind (arith, there.secret_absent, there.is_absent, there.ownable, there.secret_created)

  infra_env_made :
      (env : Env Config)
      → let (r, env') = ensure_infra_env api lib node deployment env in
        (r ≡ ok tt)
        × (is_some env'.local.status.infra_env_ref ≡ true)
        × (env'.local.status.iso_download_url ≡ env.local.status.iso_download_url)
        × (env'.local.meta ≡ env.local.meta)
  unfolding ensure_infra_env
  infra_env_made env = grind (arith, there.machine_named, there.env_created, there.referenced)

  publish_serves :
      (env : Env Config)
      → let (r, env') = publish tools node env in
        (r ≡ ok done)
        × (env'.local.status.ready ≡ true)
        × (env'.local.status.infra_env_ref ≡ env.local.status.infra_env_ref)
        × (env'.local.meta ≡ env.local.meta)
  unfolding publish or_failed available
  publish_serves env = grind (arith, ignition_fetched, secret_made)

  machine-Serves : (env : Env Config) → Serves env (reconcile_machine tools node deployment env)
  unfolding reconcile_machine or_failed wait_for unavailable
  machine-Serves env = grind (arith, infra_env_made, publish_serves)

  installing-Serves :
      (env : Env Config)
      → Serves env (reconcile_installing tools (some node) deployment there.aci env)
  unfolding reconcile_installing
  installing-Serves env = rw there.of_control_plane (machine-Serves env)

  deployment_got :
      (env : Env Config)
      → let (r, env') = get_cluster_deployment api lib cluster.meta.name env in
        (r ≡ ok deployment) × (env'.local ≡ env.local)
  unfolding get_cluster_deployment
  deployment_got env = grind (arith, there.deployment_found)

  installation_got :
      (env : Env Config)
      → let (r, env') = get_agent_cluster_install api lib deployment env in
        (r ≡ ok there.aci) × (env'.local ≡ env.local)
  unfolding get_agent_cluster_install
  installation_got env = grind (arith, there.installing, there.installation_found)

  cluster-Serves : (env : Env Config) → Serves env (reconcile_cluster tools cluster env)
  unfolding reconcile_cluster wait_for or_wait unavailable
  cluster-Serves env =
      let env1 = record env { calls = Call.get_owner_machine env.local.meta ∷ env.calls } in
      let (r2, env2) = get_cluster_deployment api lib cluster.meta.name env1 in
      let (r3, env3) = get_agent_cluster_install api lib deployment env2 in
      let (found2, same2) = deployment_got env1 in
      let (found3, same3) = installation_got env2 in
      rw (there.infrastructure, there.machine_found env.local.meta env.calls, found2, found3)
        (ground (arith, same2, same3, installing-Serves env3))

  named-Serves : (env : Env Config) → Serves env (reconcile_named tools owner env)
  unfolding reconcile_named
  named-Serves env =
      let env1 = record env {
        calls = Call.get_cluster_by_name owner.meta.namespace owner.cluster_name ∷ env.calls;
      } in
      rw (there.cluster_found owner.meta.namespace owner.cluster_name env.calls)
        (ground (arith, cluster-Serves env1))

  module _ (laws : NameLaws api lib) where
    live-Serves : (env : Env Config) → Serves env (reconcile_live tools owner env)
    unfolding reconcile_live
    live-Serves env =
        let f = openshift_assisted_config_finalizer in
        let env1 = record env {
          local = record env.local { meta = lib.add_finalizer env.local.meta f };
        } in
        elim (Bool-cases (lib.contains_finalizer env.local.meta f)) [
          | inl old ↦ rw old (named-Serves env)
          | inr new ↦
              rw new (ground (arith, laws.add_finalizer-rest env.local.meta f, named-Serves env1))
        ]

    body-Serves :
        (env : Env Config)
        → env.local.meta.deletion_timestamp ≡ none
        → Serves env (reconcile_body tools env)
    unfolding reconcile_body
    body-Serves env alive =
        let env1 = record env { calls = Call.get_typed_config_owner env.local.meta ∷ env.calls } in
        let undeleted : is_some env.local.meta.deletion_timestamp ≡ false = ground arith in
        rw (there.owner_found env.local.meta env.calls, undeleted) (live-Serves env1)

    -- A run on a configuration that is not being deleted leaves it with an InfraEnv; with the URL of
    -- a live ISO it also makes it ready, and asks for nothing more.
    pub run_body_serves :
        (env : Env Config)
        → env.local.meta.deletion_timestamp ≡ none
        → let (r, env') = run_body tools env in
          (is_some env'.local.status.infra_env_ref ≡ true)
          × (env'.local.meta.deletion_timestamp ≡ none)
          × ((env.local.status.iso_download_url == "") ≡ false
              → (r ≡ ok (done, none)) × (env'.local.status.ready ≡ true))
    unfolding run_body finish set_summary
    run_body_serves env alive = grind (arith, body-Serves, there.patched)
