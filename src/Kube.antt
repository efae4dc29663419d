-- ===== src/Kube.antt =====
-- The Kubernetes objects that the controllers exchange, the API through which they do so, and
-- the libraries that they call.
pub mod Errors
pub mod Meta
pub mod Objects
pub mod Kinds
pub mod Api
pub mod Library
pub mod Calls
pub mod Reconcile
pub mod Counts
