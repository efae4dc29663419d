-- ===== src/Kube/Kinds.antt =====
-- The kinds of objects, and what each kind holds.
use cluster_api_agent.Kube.Meta.{TypeMeta, ObjectMeta, Key}
use cluster_api_agent.Kube.Objects.{
  Secret, ConfigMap, Service, Cluster, Machine, MachineDeployment, ClusterDeployment,
  ClusterImageSet, AgentClusterInstall, InfraEnv, Agent, ClusterVersion,
}
use cluster_api_agent.Bootstrap.Types.{OpenshiftAssistedConfig}
use cluster_api_agent.ControlPlane.Types.{OpenshiftAssistedControlPlane}

pub data Kind : Type 0 where
  control_plane assisted_config cluster machine machine_deployment cluster_deployment : Kind
  cluster_image_set agent_cluster_install infra_env agent secret config_map service
        cluster_version :
      Kind

abbrev pub Obj : Kind → Type 0
Obj control_plane = OpenshiftAssistedControlPlane
Obj assisted_config = OpenshiftAssistedConfig
Obj cluster = Cluster
Obj machine = Machine
Obj machine_deployment = MachineDeployment
Obj cluster_deployment = ClusterDeployment
Obj cluster_image_set = ClusterImageSet
Obj agent_cluster_install = AgentClusterInstall
Obj infra_env = InfraEnv
Obj agent = Agent
Obj secret = Secret
Obj config_map = ConfigMap
Obj service = Service
Obj cluster_version = ClusterVersion

abbrev pub meta_of : (k : Kind) → Obj k → ObjectMeta
meta_of control_plane o = o.meta
meta_of assisted_config o = o.meta
meta_of cluster o = o.meta
meta_of machine o = o.meta
meta_of machine_deployment o = o.meta
meta_of cluster_deployment o = o.meta
meta_of cluster_image_set o = o.meta
meta_of agent_cluster_install o = o.meta
meta_of infra_env o = o.meta
meta_of agent o = o.meta
meta_of secret o = o.meta
meta_of config_map o = o.meta
meta_of service o = o.meta
meta_of cluster_version o = o.meta

abbrev pub type_of : (k : Kind) → Obj k → TypeMeta
type_of control_plane o = o.type_meta
type_of assisted_config o = o.type_meta
type_of cluster o = o.type_meta
type_of machine o = o.type_meta
type_of machine_deployment o = o.type_meta
type_of cluster_deployment o = o.type_meta
type_of cluster_image_set o = o.type_meta
type_of agent_cluster_install o = o.type_meta
type_of infra_env o = o.type_meta
type_of agent o = o.type_meta
type_of secret o = o.type_meta
type_of config_map o = o.type_meta
type_of service o = o.type_meta
type_of cluster_version o = o.type_meta

-- client.ObjectKeyFromObject
abbrev pub key_of : ObjectMeta → Key
key_of m = record { namespace = m.namespace; name = m.name }
