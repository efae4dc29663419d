-- ===== src/Bootstrap/ConfigController/Keeping.antt =====
-- What a run of the reconciler keeps of an OpenshiftAssistedConfig, and what it adds.
use cluster_api_agent.Prelude.{
  String, true, false, ◌≡◌, ◌==◌, ◌&&◌, not, Option, none, some, is_some, arith, Bool-cases, inl,
  inr,
}
use cluster_api_agent.Kube.Errors.{ok}
use cluster_api_agent.Kube.Meta.{Key, ObjectMeta}
use cluster_api_agent.Kube.Objects.{
  AgentClusterInstall, ClusterDeployment, Machine, Cluster, Secret,
}
use cluster_api_agent.Kube.Kinds.{secret}
use cluster_api_agent.Kube.Api.{Api, Env, History, ConfigOwner}
use cluster_api_agent.Kube.Library.{Library}
use cluster_api_agent.Bootstrap.Types.{OpenshiftAssistedConfig}
use cluster_api_agent.Bootstrap.Secrets.{
  ensure_infra_env, get_agent_cluster_install, get_cluster_deployment, create_user_data_secret,
  handle_deletion, openshift_assisted_config_finalizer,
}
use cluster_api_agent.Bootstrap.ConfigController.{
  Tools, unavailable, wait_for, or_wait, or_failed, may_join, is_control_plane_machine, available,
  publish, reconcile_machine, reconcile_installing, reconcile_cluster, reconcile_named,
  reconcile_live, reconcile_body, finish, run_body, set_summary,
}
use cluster_api_agent.Bootstrap.ConfigController.Joining.{ignition_keeps_local, secret_keeps_local}

abbrev Config : Type 0
Config = OpenshiftAssistedConfig

-- An object is stored under the name that it is asked or created by, an owner reference and a
-- finalizer change nothing else of the metadata.
pub record NameLaws (api : Api) (lib : Library) : Type 0 where
  pub name-get :
      (key : Key) (h : History) (s : Secret)
      → api.get_answer secret key h ≡ ok s
      → s.meta.name ≡ key.name
  pub name-create :
      (o : Secret) (h : History) (s : Secret)
      → api.create_answer secret o h ≡ ok s
      → s.meta.name ≡ o.meta.name
  pub name-set_owner_reference :
      (o m m' : ObjectMeta) → lib.set_owner_reference o m ≡ ok m' → m'.name ≡ m.name
  pub add_finalizer-rest :
      (m : ObjectMeta) (f : String)
      → lib.add_finalizer m f ≡ record m { finalizers = (lib.add_finalizer m f).finalizers }
  pub remove_finalizer-rest :
      (m : ObjectMeta) (f : String)
      → lib.remove_finalizer m f ≡ record m { finalizers = (lib.remove_finalizer m f).finalizers }

-- A configuration that is ready names its own secret, and has the URL of a live ISO.
pub record IsServed (c : Config) : Type 0 where
  pub named : c.status.ready ≡ true → c.status.data_secret_name ≡ some c.meta.name
  pub imaged : c.status.ready ≡ true → (c.status.iso_download_url == "") ≡ false

-- From c0, on the way to c, in a run.
pub record Keeps (c0 c : Config) : Type 0 where
  pub name : c.meta.name ≡ c0.meta.name
  pub deleted : c.meta.deletion_timestamp ≡ c0.meta.deletion_timestamp
  pub iso : c.status.iso_download_url ≡ c0.status.iso_download_url
  pub stays : c0.status.ready ≡ true → c.status.ready ≡ true
  pub served : IsServed c

-- The references are kept too.
pub record KeepsReferences (c0 c : Config) : Type 0 where
  pub agent : c.status.agent_ref ≡ c0.status.agent_ref
  pub infra :
      is_some c0.status.infra_env_ref ≡ true → c.status.infra_env_ref ≡ c0.status.infra_env_ref

abbrev Live : Config → Config → Type 0
Live c0 c = Keeps c0 c × KeepsReferences c0 c

module _ (tools : Tools) (laws : NameLaws tools.api tools.lib) (c0 : Config) where
  open tools use {api, lib, urls, decimal, config, http_client}

  infra_env-Live :
      (m : Machine) (cd : ClusterDeployment) (env : Env Config)
      → Live c0 env.local
      → Live c0 (ensure_infra_env api lib m cd env).1.local
  unfolding ensure_infra_env
  infra_env-Live m cd env h = ground arith

  secret_name :
      (ignition : String) (env : Env Config) (s : Secret)
      → (create_user_data_secret api lib ignition env).0 ≡ ok s
      → s.meta.name ≡ env.local.meta.name
  unfolding create_user_data_secret
  secret_name ignition env s h =
      grind (arith, laws.name-get, laws.name-create, laws.name-set_owner_reference)

  publish-Live :
      (m : Machine) (env : Env Config)
      → (env.local.status.iso_download_url == "") ≡ false
      → Live c0 env.local
      → Live c0 (publish tools m env).1.local
  unfolding publish available or_failed unavailable
  publish-Live m env there h = grind (arith, ignition_keeps_local, secret_keeps_local, secret_name)

  machine-Live :
      (m : Machine) (cd : ClusterDeployment) (env : Env Config)
      → Live c0 env.local
      → Live c0 (reconcile_machine tools m cd env).1.local
  unfolding reconcile_machine wait_for or_failed unavailable
  machine-Live m cd env h = grind (arith, publish-Live, infra_env-Live)

  installing-Live :
      (m : Option Machine) (cd : ClusterDeployment) (aci : AgentClusterInstall) (env : Env Config)
      → Live c0 env.local
      → Live c0 (reconcile_installing tools m cd aci env).1.local
  unfolding reconcile_installing wait_for unavailable
  installing-Live none cd aci env h = h
  installing-Live (some m) cd aci env h =
      elim (Bool-cases (not (is_control_plane_machine m) && not (may_join aci.state))) [
        | inl waits ↦ rw waits (ground arith)
        | inr joins ↦ rw joins (machine-Live m cd env h)
      ]

  cluster-Live :
      (cluster : Cluster) (env : Env Config)
      → Live c0 env.local
      → Live c0 (reconcile_cluster tools cluster env).1.local
  unfolding reconcile_cluster get_agent_cluster_install get_cluster_deployment wait_for or_wait
      unavailable
  cluster-Live cluster env h = grind (arith, installing-Live)

  finalizer-Live :
      (c : Config) (f : String)
      → Live c0 c
      → Live c0 (record c { meta = lib.add_finalizer c.meta f })
  finalizer-Live c f h = rw (laws.add_finalizer-rest c.meta f) (ground arith)

  released-Keeps :
      (c : Config) (f : String)
      → Keeps c0 c
      → Keeps c0 (record c { meta = lib.remove_finalizer c.meta f })
  released-Keeps c f h = rw (laws.remove_finalizer-rest c.meta f) (ground arith)

  named-Live :
      (owner : ConfigOwner) (env : Env Config)
      → Live c0 env.local
      → Live c0 (reconcile_named tools owner env).1.local
  unfolding reconcile_named
  named-Live owner env h = grind (arith, cluster-Live)

  reconcile_live-Live :
      (owner : ConfigOwner) (env : Env Config)
      → Live c0 env.local
      → Live c0 (reconcile_live tools owner env).1.local
  unfolding reconcile_live
  reconcile_live-Live owner env h =
      elim (Bool-cases
        (lib.contains_finalizer env.local.meta openshift_assisted_config_finalizer)) [
          | inl there ↦ rw there (named-Live owner env h)
          | inr missing ↦ rw missing (
              named-Live owner
                (record env {
                  local = record env.local {
                    meta = lib.add_finalizer env.local.meta openshift_assisted_config_finalizer;
                  };
                })
                (finalizer-Live env.local openshift_assisted_config_finalizer h))
        ]

  deletion-Keeps :
      (owner : ConfigOwner) (env : Env Config)
      → Keeps c0 env.local
      → Keeps c0 (handle_deletion api lib owner env).1.local
  unfolding handle_deletion
  deletion-Keeps owner env h =
      ground (arith, laws.remove_finalizer-rest env.local.meta openshift_assisted_config_finalizer)

module _ (tools : Tools) (laws : NameLaws tools.api tools.lib) where
  start-Live : (c : Config) → IsServed c → Live c c
  start-Live c h = ground arith

  body-Keeps :
      (env : Env Config) → IsServed env.local → Keeps env.local (reconcile_body tools env).1.local
  unfolding reconcile_body
  body-Keeps env h =
      grind (arith, reconcile_live-Live tools laws env.local, deletion-Keeps tools laws env.local)

  body-KeepsReferences :
      (env : Env Config)
      → IsServed env.local
      → env.local.meta.deletion_timestamp ≡ none
      → KeepsReferences env.local (reconcile_body tools env).1.local
  unfolding reconcile_body
  body-KeepsReferences env h live = grind (arith, reconcile_live-Live tools laws env.local)

  -- A whole run.
  pub run_body-Keeps :
      (env : Env Config) → IsServed env.local → Keeps env.local (run_body tools env).1.local
  unfolding run_body finish set_summary
  run_body-Keeps env h = ground (arith, body-Keeps env h)

  pub run_body-KeepsReferences :
      (env : Env Config)
      → IsServed env.local
      → env.local.meta.deletion_timestamp ≡ none
      → KeepsReferences env.local (run_body tools env).1.local
  unfolding run_body finish set_summary
  run_body-KeepsReferences env h live = ground (arith, body-KeepsReferences env h live)
