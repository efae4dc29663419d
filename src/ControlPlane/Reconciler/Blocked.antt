-- ===== src/ControlPlane/Reconciler/Blocked.antt =====
-- Runs that may not go on yet.
use cluster_api_agent.Prelude.{Bool, true, not, ◌||◌, Option, none, some, if◌then◌else◌}
use cluster_api_agent.Kube.Meta.{ObjectMeta}
use cluster_api_agent.Kube.Objects.{Cluster}
use cluster_api_agent.Kube.Library.{Library}
use cluster_api_agent.ControlPlane.Types.{acp_finalizer}

-- The metadata, with the finalizer.
abbrev pub held : Library → ObjectMeta → ObjectMeta
held lib m = if lib.contains_finalizer m acp_finalizer then m else lib.add_finalizer m acp_finalizer

-- There is no cluster yet, it is paused, or it has no infrastructure or no endpoint.
abbrev pub cluster_blocks : Library → ObjectMeta → Option Cluster → Bool
cluster_blocks lib m none = true
cluster_blocks lib m (some cluster) =
    lib.is_paused cluster m
    || not cluster.infrastructure_ready
    || not (lib.endpoint_is_valid cluster.control_plane_endpoint)
