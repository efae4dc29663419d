-- ===== src/Bootstrap.antt =====
-- The bootstrap provider.
pub mod Types
pub mod Ignition
pub mod AgentController
pub mod InfraEnvController
pub mod Secrets
pub mod ConfigController
pub mod Lifecycle
pub mod Watches
