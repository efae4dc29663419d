-- ===== src/Examples/Objects.antt =====
-- The objects of a small cluster.
use cluster_api_agent.Prelude.{String, false, true, [], ◌∷◌, none, some}
use cluster_api_agent.Prelude.Int.{pos}
use cluster_api_agent.Kube.Meta.{ObjectReference, named, no_meta, no_type}
use cluster_api_agent.Kube.Objects.{
  AgentClusterInstall, Cluster, ClusterDeployment, ClusterVersion, Machine, none_platform,
  completed_update,
}
use cluster_api_agent.Kube.Api.{ConfigOwner}
use cluster_api_agent.Bootstrap.Types.{OpenshiftAssistedConfig, OpenshiftAssistedConfigSpec}
use cluster_api_agent.ControlPlane.Types.{OpenshiftAssistedControlPlane, acp_finalizer}
use cluster_api_agent.ControlPlane.Common.{cluster_name_label, machine_control_plane_label}

abbrev pub reference : String → ObjectReference
reference name = record { api_version = "v1"; kind = "Any"; namespace = "ns"; name = name }

abbrev pub config_spec : OpenshiftAssistedConfigSpec
config_spec = record {
  proxy = none;
  pull_secret_ref = none;
  additional_ntp_sources = [];
  ssh_authorized_key = "";
  nmstate_config_label_selector = record { match_labels = []; match_expressions = [] };
  cpu_architecture = "";
  kernel_arguments = [];
  additional_trust_bundle = "";
  os_image_version = "";
  node_registration = record { name = ""; kubelet_extra_labels = [] };
}

-- A control plane of three replicas, with its finalizer.
abbrev pub acp : OpenshiftAssistedControlPlane
acp = record {
  type_meta = record { api_version = "v1alpha2"; kind = "OpenshiftAssistedControlPlane" };
  meta = record (named "cp" "ns") {
    labels = (cluster_name_label, "prod") ∷ [];
    finalizers = acp_finalizer ∷ [];
  };
  spec = record {
    config = record {
      api_vips = [];
      ingress_vips = [];
      manifests_config_map_refs = [];
      disk_encryption = none;
      proxy = none;
      masters_schedulable = false;
      ssh_authorized_key = "";
      cluster_name = "";
      base_domain = "example.com";
      pull_secret_ref = none;
      image_registry_ref = none;
      capabilities = record { baseline_capability = ""; additional_enabled_capabilities = [] };
    };
    machine_template = record {
      labels = ("zone", "a") ∷ [];
      annotations = [];
      infrastructure_ref = reference "template";
      node_drain_timeout = some (record { address = 1; value = 30 });
      node_volume_detach_timeout = none;
      node_deletion_timeout = none;
    };
    openshift_assisted_config_spec = config_spec;
    replicas = pos 3;
    distribution_version = "4.16.0";
  };
  status = record {
    cluster_deployment_ref = some (reference "cp");
    replicas = pos 0;
    version = none;
    distribution_version = "4.15.0";
    updated_replicas = pos 0;
    ready_replicas = pos 0;
    unavailable_replicas = pos 0;
    initialized = false;
    ready = false;
    conditions = [];
  };
}

abbrev pub cluster : Cluster
cluster = record {
  type_meta = no_type;
  meta = named "prod" "ns";
  paused = false;
  infrastructure_ready = true;
  control_plane_endpoint = record { host = "10.0.0.1"; port = 6443 };
  cluster_network = none;
  failure_domains = [];
}

-- A machine whose drain timeout has the value, and not the place, of the control plane's.
abbrev pub machine_named : String → Machine
machine_named name = record {
  type_meta = record { api_version = "v1beta1"; kind = "Machine" };
  meta = named name "ns";
  spec = record {
    cluster_name = "prod";
    version = none;
    node_drain_timeout = some (record { address = 2; value = 30 });
    node_deletion_timeout = none;
    node_volume_detach_timeout = none;
    failure_domain = none;
    bootstrap_config_ref = some (reference name);
    infrastructure_ref = none;
  };
  conditions = [];
}

-- The configuration of a machine of the control plane, with its Agent and its InfraEnv.
abbrev pub config : OpenshiftAssistedConfig
config = record {
  type_meta = no_type;
  meta = record (named "m0" "ns") {
    labels = (machine_control_plane_label, "") ∷ [];
    finalizers = "openshiftassistedconfig.bootstrap.cluster.x-k8s.io/deprovision" ∷ [];
  };
  spec = config_spec;
  status = record {
    infra_env_ref = some (reference "m0");
    agent_ref = some (record { name = "agent" });
    iso_download_url = "";
    ready = false;
    data_secret_name = none;
    conditions = [];
  };
}

abbrev pub owner : ConfigOwner
owner = record { meta = named "m0" "ns"; cluster_name = "prod" }

abbrev pub cluster_deployment : ClusterDeployment
cluster_deployment = record {
  type_meta = no_type;
  meta = named "cp" "ns";
  cluster_name = "prod";
  base_domain = "example.com";
  agent_bare_metal = true;
  pull_secret_ref = none;
  cluster_install_ref = none;
}

-- An installation that has written its kubeconfig.
abbrev pub installation : AgentClusterInstall
installation = record {
  type_meta = no_type;
  meta = named "cp" "ns";
  spec = record {
    cluster_deployment_ref = record { name = "cp" };
    platform_type = none_platform;
    control_plane_agents = pos 3;
    worker_agents = pos 0;
    disk_encryption = none;
    masters_schedulable = false;
    proxy = none;
    ssh_public_key = "";
    image_set_ref = none;
    cluster_network = [];
    service_network = [];
    manifests_config_map_refs = [];
    api_vips = [];
    ingress_vips = [];
    cluster_metadata = some "admin-kubeconfig";
  };
  state = "installing";
}

-- A cluster that runs 4.15.0, and is to run 4.16.0.
abbrev pub version_object : ClusterVersion
version_object = record {
  type_meta = no_type;
  meta = record no_meta { name = "version" };
  desired_update = none;
  history = record { state = completed_update; version = "4.15.0" } ∷ [];
  conditions = [];
  desired_version = "4.15.0";
}
