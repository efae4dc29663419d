-- ===== src/Examples.antt =====
-- Concrete clusters, API servers and inputs, at which the theorems are applied.
mod Objects
mod World
mod Scaling
mod Running
mod Upgrading
mod Shared
mod Joining
mod Files
mod Installing
mod Serving
mod Converging
mod Deploying
mod Queries
mod Naming
mod Handing
