-- ===== src/ControlPlane/ClusterDeployment.antt =====
-- controlplane/internal/controller/clusterdeployment_controller.go: a ClusterDeployment gets its
-- ClusterImageSet and its AgentClusterInstall.
pub mod Installing
use cluster_api_agent.Prelude.{
  String, not, ◌&&◌, List, [], ◌∷◌, ◌++◌, Option, none, some, lookup, is_empty, map, if◌then◌else◌,
}
use cluster_api_agent.Prelude.Int.{ℤ, pos, ◌+ℤ◌}
use cluster_api_agent.Kube.Errors.{Err, Outcome, ok, exit, panic}
use cluster_api_agent.Kube.Meta.{Key, no_type, no_meta, named}
use cluster_api_agent.Kube.Objects.{
  Cluster, ClusterNetwork, ClusterNetworkEntry, MachineDeployment, ClusterDeployment,
  ClusterImageSet, AgentClusterInstall, none_platform, bare_metal_platform,
}
use cluster_api_agent.Kube.Kinds.{
  control_plane, machine_deployment, cluster_deployment, cluster_image_set, agent_cluster_install,
  config_map,
}
use cluster_api_agent.Kube.Api.{Api, Exec, pure, fail, lift, attempt, ◌>>=◌, ◌>>◌}
use cluster_api_agent.Kube.Calls.{get, list, update, get_owner_cluster}
use cluster_api_agent.Kube.Library.{Library}
use cluster_api_agent.Kube.Reconcile.{Body, done, stop, or_return, get_or_ignore}
use cluster_api_agent.ControlPlane.Types.{OpenshiftAssistedControlPlane}
use cluster_api_agent.ControlPlane.Release.{SemVer}
use cluster_api_agent.ControlPlane.ImageRegistry.Manifests.{
  Encoders, generate_image_registry_configmap, image_config_map_name,
}
use cluster_api_agent.ControlPlane.Capabilities.{CapabilitiesSpec, set_aci_capabilities}
use cluster_api_agent.ControlPlane.Common.{
  cluster_name_label, control_plane_machine_labels_for_cluster, get_typed_owner, create_or_update,
  get_architecture_from_bootstrap_configs, release_image_of, or_empty,
}

unfoldable pub compute_cluster_image_set : String → String → ClusterImageSet
compute_cluster_image_set name image = record {
  type_meta = no_type;
  meta = record no_meta { name = name };
  release_image = image;
}

-- The loop that dereferences each number of replicas.
unfoldable pub count_replicas : List MachineDeployment → ℤ → Outcome Err ℤ
count_replicas [] count = ok count
count_replicas (md ∷ mds) count = elim md.replicas [
  | none ↦ exit panic
  | some replicas ↦ count_replicas mds (count +ℤ replicas)
]

abbrev pods_of : Option ClusterNetwork → List String
pods_of none = []
pods_of (some n) = elim n.pods [ none ↦ [] | some blocks ↦ blocks ]

abbrev services_of : Option ClusterNetwork → List String
services_of none = []
services_of (some n) = elim n.services [ none ↦ [] | some blocks ↦ blocks ]

abbrev network_entry : String → ClusterNetworkEntry
network_entry cidr = record { cidr = cidr; host_prefix = 23 }

-- The literal of the AgentClusterInstall.
unfoldable pub agent_cluster_install_of :
    Library
    → ClusterDeployment
    → OpenshiftAssistedControlPlane
    → ClusterImageSet
    → Cluster
    → ℤ
    → List String
    → AgentClusterInstall
agent_cluster_install_of lib cd acp image_set cluster worker_replicas refs =
    let config = acp.spec.config in
    let vips = not (is_empty config.api_vips) && not (is_empty config.ingress_vips) in
    record {
      type_meta = no_type;
      meta = record (named cd.meta.name cd.meta.namespace) {
        labels =
            control_plane_machine_labels_for_cluster lib acp
              (or_empty (lookup cluster_name_label cd.meta.labels));
        owner_references = lib.new_controller_ref acp.meta "OpenshiftAssistedControlPlane" ∷ [];
      };
      spec = record {
        cluster_deployment_ref = record { name = cd.meta.name };
        platform_type = if vips then bare_metal_platform else none_platform;
        control_plane_agents = acp.spec.replicas;
        worker_agents = worker_replicas;
        disk_encryption = config.disk_encryption;
        masters_schedulable = config.masters_schedulable;
        proxy = config.proxy;
        ssh_public_key = config.ssh_authorized_key;
        image_set_ref = some image_set.meta.name;
        cluster_network = map network_entry (pods_of cluster.cluster_network);
        service_network = services_of cluster.cluster_network;
        manifests_config_map_refs = refs;
        api_vips = if vips then config.api_vips else [];
        ingress_vips = if vips then config.ingress_vips else [];
        cluster_metadata = none;
      };
      state = "";
    }

-- What a run works with: the API, the libraries, and the encodings.
pub record Tools : Type 0 where
  pub api : Api
  pub lib : Library
  pub parse_tolerant : String → Option SemVer
  pub encoders : Encoders
  pub marshal : CapabilitiesSpec → Outcome Err String

module _ {L : Type 0} (tools : Tools) where
  open tools use {api, lib, parse_tolerant, encoders, marshal}

  -- A failed List counts as none; the cluster is read through a pointer.
  unfoldable pub get_worker_nodes_count : Option Cluster → Exec L Err ℤ
  unfolding count_replicas
  get_worker_nodes_count none = fail panic
  get_worker_nodes_count (some cluster) = do
    mds ← attempt (
        list api machine_deployment (record {
          namespace = none;
          labels = (cluster_name_label, cluster.meta.name) ∷ [];
          fields = [];
        }))
    elim mds [ exit e ↦ pure (pos 0) | ok items ↦ lift (count_replicas items (pos 0)) ]

  unfoldable pub create_image_registry : String → String → Exec L Err Unit
  create_image_registry name namespace = do
    registry ← get api config_map (record { namespace = namespace; name = name })
    spoke ← lift (generate_image_registry_configmap encoders registry namespace)
    create_or_update api config_map spoke
    pure tt

  -- The manifests of the specification, and the one of the image registry, if there is one.
  additional_manifests : OpenshiftAssistedControlPlane → Exec L Err (List String)
  unfolding create_image_registry
  additional_manifests acp = elim acp.spec.config.image_registry_ref [
    | none ↦ pure acp.spec.config.manifests_config_map_refs
    | some ref ↦ (do
      create_image_registry ref.name acp.meta.namespace
      pure (acp.spec.config.manifests_config_map_refs ++ image_config_map_name ∷ []))
  ]

  unfoldable pub compute_agent_cluster_install :
      ClusterDeployment
      → OpenshiftAssistedControlPlane
      → ClusterImageSet
      → Cluster
      → ℤ
      → Exec L Err AgentClusterInstall
  unfolding additional_manifests
  compute_agent_cluster_install cd acp image_set cluster worker_replicas = do
    refs ← additional_manifests acp
    lift (
        set_aci_capabilities marshal acp
          (agent_cluster_install_of lib cd acp image_set cluster worker_replicas refs))

  unfoldable pub update_cluster_deployment_ref :
      ClusterDeployment → AgentClusterInstall → Exec L Err Unit
  update_cluster_deployment_ref cd aci = do
    update api cluster_deployment (record cd {
      cluster_install_ref = some (record {
        group = "extensions.hive.openshift.io";
        version = "v1beta1";
        kind = "AgentClusterInstall";
        name = aci.meta.name;
      });
    })
    pure tt

  -- From computeAgentClusterInstall on. The cluster is a pointer, and has been dereferenced by then.
  write_agent_cluster_install :
      ClusterDeployment
      → OpenshiftAssistedControlPlane
      → ClusterImageSet
      → ℤ
      → Option Cluster
      → Exec L Err Unit
  unfolding update_cluster_deployment_ref
  write_agent_cluster_install cd oacp image_set workers none = fail panic
  write_agent_cluster_install cd oacp image_set workers (some cluster) = do
    aci ← compute_agent_cluster_install cd oacp image_set cluster workers
    aci' ← create_or_update api agent_cluster_install aci
    update_cluster_deployment_ref cd aci'

  unfoldable pub ensure_agent_cluster_install :
      ClusterDeployment → OpenshiftAssistedControlPlane → Exec L Err Unit
  unfolding write_agent_cluster_install
  ensure_agent_cluster_install cd oacp = do
    cluster ← get_owner_cluster api oacp.meta
    arch ← get_architecture_from_bootstrap_configs api oacp
    image_set ←
        create_or_update api cluster_image_set
          (compute_cluster_image_set cd.meta.name (release_image_of parse_tolerant oacp arch))
    workers ← get_worker_nodes_count cluster
    write_agent_cluster_install cd oacp image_set workers cluster

  unfoldable pub reconcile : Key → Body L
  reconcile key = do
    cd ← get_or_ignore api cluster_deployment key
    owner ← attempt (get_typed_owner api control_plane cd.meta)
    elim owner [
      | exit e ↦ stop done
      | ok acp ↦ (do or_return (ensure_agent_cluster_install cd acp); pure done)
    ]
