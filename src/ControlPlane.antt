-- ===== src/ControlPlane.antt =====
-- The control plane provider.
pub mod Types
pub mod Release
pub mod Upgrade
pub mod Version
pub mod ImageRegistry
pub mod Capabilities
pub mod Common
pub mod ClusterDeployment
pub mod AgentClusterInstall
pub mod Machines
pub mod Replicas
pub mod Marks
pub mod Resources
pub mod WorkloadUpgrade
pub mod Reconciler
pub mod WorkloadClient
