-- ===== src/ControlPlane/AgentClusterInstall.antt =====
-- controlplane/internal/controller/agentclusterinstall_controller.go: the kubeconfig of an
-- installed cluster and the status of its control plane. The local object is the control plane.
pub mod Status
pub mod Reports
pub mod Kubeconfig
use cluster_api_agent.Prelude.{
  String, Bool, true, false, not, ◌==◌, ◌<>◌, [], ◌∷◌, none, some, lookup, insert, if◌then◌else◌,
}
use cluster_api_agent.Kube.Errors.{
  Err, ok, exit, error, panic, not_found, already_exists, has_reason,
}
use cluster_api_agent.Kube.Meta.{Key, OwnerReference, no_type, named, info_severity}
use cluster_api_agent.Kube.Objects.{Secret, AgentClusterInstall}
use cluster_api_agent.Kube.Kinds.{control_plane, agent_cluster_install, secret}
use cluster_api_agent.Kube.Api.{Api, Exec, pure, fail, catch, attempt, read, modify, ◌>>=◌, ◌>>◌}
use cluster_api_agent.Kube.Calls.{get, create, update, update_status}
use cluster_api_agent.Kube.Library.{Library}
use cluster_api_agent.Kube.Reconcile.{Body, done, or_return, get_or_ignore}
use cluster_api_agent.ControlPlane.Types.{
  OpenshiftAssistedControlPlane, kubeconfig_available_condition, control_plane_ready_condition,
}
use cluster_api_agent.ControlPlane.Common.{cluster_name_label, get_typed_owner, or_empty}

abbrev pub kubeconfig_secret_key : String
kubeconfig_secret_key = "kubeconfig"

unfoldable pub has_kubeconfig_ref : AgentClusterInstall → Bool
has_kubeconfig_ref aci = elim aci.spec.cluster_metadata [
  | none ↦ false
  | some name ↦ not (name == "")
]

unfoldable pub is_installed : AgentClusterInstall → Bool
is_installed aci = aci.state == "adding-hosts"

unfoldable pub generate_secret_with_owner : Key → String → OwnerReference → Secret
generate_secret_with_owner cluster_name contents owner = record {
  type_meta = no_type;
  meta = record (named (cluster_name.name <> "-kubeconfig") cluster_name.namespace) {
    labels = (cluster_name_label, cluster_name.name) ∷ [];
    owner_references = owner ∷ [];
  };
  contents = ("value", contents) ∷ [];
  secret_type = "cluster.x-k8s.io/secret";
}

abbrev pub Action : Type 0 → Type 0
Action A = Exec OpenshiftAssistedControlPlane Err A

module _ (lib : Library) where
  unfoldable pub kubeconfig_available :
      OpenshiftAssistedControlPlane → OpenshiftAssistedControlPlane
  kubeconfig_available acp = record acp {
    status = record acp.status {
      conditions = lib.mark_true kubeconfig_available_condition acp.status.conditions;
    };
  }

  unfoldable pub kubeconfig_unavailable :
      String → OpenshiftAssistedControlPlane → OpenshiftAssistedControlPlane
  kubeconfig_unavailable message acp = record acp {
    status = record acp.status {
      conditions =
          lib.mark_false kubeconfig_available_condition "KubeconfigUnavailable" info_severity
            message acp.status.conditions;
    };
  }

  unfoldable pub control_plane_ready : OpenshiftAssistedControlPlane → OpenshiftAssistedControlPlane
  control_plane_ready acp = record acp {
    status = record acp.status {
      ready = true;
      conditions = lib.mark_true control_plane_ready_condition acp.status.conditions;
    };
  }

  unfoldable pub control_plane_installing :
      String → OpenshiftAssistedControlPlane → OpenshiftAssistedControlPlane
  control_plane_installing state acp = record acp {
    status = record acp.status {
      conditions =
          lib.mark_false control_plane_ready_condition "ControlPlaneInstalling" info_severity
            ("Controlplane installing, status: " <> state) acp.status.conditions;
    };
  }

abbrev initialized : OpenshiftAssistedControlPlane → OpenshiftAssistedControlPlane
initialized acp = record acp { status = record acp.status { initialized = true } }

module _ {L : Type 0} (api : Api) where
  unfoldable pub get_aci_kubeconfig :
      AgentClusterInstall → OpenshiftAssistedControlPlane → Exec L Err Secret
  get_aci_kubeconfig aci acp = elim aci.spec.cluster_metadata [
    | none ↦ fail panic
    | some name ↦ get api secret (record { namespace = acp.meta.namespace; name = name })
  ]

  unfoldable pub update_labels : Secret → String → Exec L Err Secret
  update_labels s cluster_name = update api secret (record s {
    meta = record s.meta { labels = insert cluster_name_label cluster_name s.meta.labels };
  })

  -- Any error but a missing secret counts as existing.
  unfoldable pub cluster_kubeconfig_secret_exists : String → String → Exec L Err Bool
  cluster_kubeconfig_secret_exists cluster_name namespace = do
    found ←
        attempt
          (get api secret (record { namespace = namespace; name = cluster_name <> "-kubeconfig" }))
    pure (elim found [ ok _ ↦ true | exit e ↦ not (has_reason not_found e) ])

module _ {L : Type 0} (api : Api) (lib : Library) where
  -- Created, or updated where it exists.
  unfoldable put_secret : Secret → Exec L Err Unit
  put_secret s = do
    created ← attempt (create api secret s)
    elim created [
      | ok _ ↦ pure tt
      | exit e ↦ if has_reason already_exists e then (do update api secret s; pure tt) else fail e
    ]

  unfoldable pub create_kubeconfig :
      Secret → String → OpenshiftAssistedControlPlane → Exec L Err Unit
  unfolding put_secret
  create_kubeconfig s cluster_name acp = elim (lookup kubeconfig_secret_key s.contents) [
    | none ↦ fail (
        error (
          "kubeconfig with key `" <> kubeconfig_secret_key <> "` not found in secret "
          <> s.meta.name))
    | some kubeconfig ↦ put_secret (
        generate_secret_with_owner (record { namespace = acp.meta.namespace; name = cluster_name })
          kubeconfig (lib.new_controller_ref acp.meta "OpenshiftAssistedControlPlane"))
  ]

module _ (api : Api) (lib : Library) where
  -- if err != nil { conditions.MarkFalse(...); return err }
  or_unavailable : {A : Type 0} → String → Action A → Action A
  or_unavailable text m =
      catch m (λ e. do modify (kubeconfig_unavailable lib (text <> e.text)); fail e)

  -- The server's answer overwrites the object.
  unfoldable pub update_controlplane_status : Action Unit
  update_controlplane_status = do
    acp ← read
    stored ← update_status api control_plane acp
    modify (λ _. stored)

  ensure_kubeconfig : Secret → String → OpenshiftAssistedControlPlane → Action Unit
  ensure_kubeconfig s cluster_name acp = do
    exists ← cluster_kubeconfig_secret_exists api cluster_name acp.meta.namespace
    if exists
        then pure tt
        else or_unavailable "error creating Kubeconfig secret: "
            (create_kubeconfig api lib s cluster_name acp)

  unfoldable pub reconcile_kubeconfig : AgentClusterInstall → Action Unit
  unfolding or_unavailable ensure_kubeconfig update_controlplane_status
  reconcile_kubeconfig aci =
      if has_kubeconfig_ref aci
      then (do
        acp ← read
        s ← or_unavailable "error retrieving Kubeconfig " (get_aci_kubeconfig api aci acp)
        let cluster_name = or_empty (lookup cluster_name_label acp.meta.labels)
        s' ←
            or_unavailable "error updating Kubeconfig secret labels "
              (update_labels api s cluster_name)
        ensure_kubeconfig s' cluster_name acp
        modify (λ o. initialized (kubeconfig_available lib o))
        update_controlplane_status)
      else modify (kubeconfig_unavailable lib "Kubeconfig not available")

  -- From reconcileKubeconfig on.
  reconcile_owned : AgentClusterInstall → Body OpenshiftAssistedControlPlane
  reconcile_owned aci = do
    or_return (reconcile_kubeconfig aci)
    modify (
        if is_installed aci
        then control_plane_ready lib
        else control_plane_installing lib aci.state)
    or_return update_controlplane_status
    pure done

  unfoldable pub reconcile : Key → Body OpenshiftAssistedControlPlane
  unfolding reconcile_owned update_controlplane_status
  reconcile key = do
    aci ← get_or_ignore api agent_cluster_install key
    acp ← or_return (get_typed_owner api control_plane aci.meta)
    modify (λ _. acp)
    reconcile_owned aci
