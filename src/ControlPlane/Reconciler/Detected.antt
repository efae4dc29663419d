-- ===== src/ControlPlane/Reconciler/Detected.antt =====
-- The version that a run leaves in the status.
use cluster_api_agent.Prelude.{String, ◌≡◌, refl, List, [], ◌∷◌, Option, none, arith, inl, inr}
use cluster_api_agent.Kube.Errors.{Err, Outcome, ok, exit, Outcome-cases}
use cluster_api_agent.Kube.Objects.{Cluster, Machine}
use cluster_api_agent.Kube.Api.{Env}
use cluster_api_agent.Kube.Reconcile.{Result}
use cluster_api_agent.ControlPlane.Machines.{machines_not_created}
use cluster_api_agent.ControlPlane.Replicas.{
  reconcile_replicas, has_expected_specs, up_to_date_machines, scale, scale_up_control_plane,
  scale_down_control_plane, update_replica_status,
}
use cluster_api_agent.ControlPlane.Resources.{Acp}
use cluster_api_agent.ControlPlane.WorkloadUpgrade.{Tools}
use cluster_api_agent.ControlPlane.Common.{release_image_of}
use cluster_api_agent.ControlPlane.Marks.{mark_kubernetes_version_condition}
use cluster_api_agent.ControlPlane.Version.{get_kubernetes_version}
use cluster_api_agent.ControlPlane.Version.Reasons.{reasons-get_kubernetes_version}
use cluster_api_agent.ControlPlane.WorkloadUpgrade.{value_of}
use cluster_api_agent.ControlPlane.WorkloadUpgrade.Untouched.{upgrade_workload_cluster-Untouched}
use cluster_api_agent.ControlPlane.Reconciler.{
  or_stop, upgrade_if_reachable, with_replicas, upgrade_and_scale, upgrade_unavailable,
  image_missing, reconcile_version, set_version,
}

abbrev version_of : Env Acp → Option String
version_of env = env.local.status.version

module _ (tools : Tools) where
  open tools use {api, lib, codecs, parse_tolerant, unmarshal, deep_derivative}

  specs_version :
      (m : Machine) (acp : Acp) (cluster : Cluster) (env : Env Acp)
      → version_of (has_expected_specs api lib deep_derivative m acp cluster env).1 ≡ version_of env
  unfolding has_expected_specs
  specs_version m acp cluster env = ground arith

  up_to_date_version :
      (ms : List Machine) (acp : Acp) (cluster : Cluster) (env : Env Acp)
      → version_of (up_to_date_machines api lib deep_derivative ms acp cluster env).1
        ≡ version_of env
  unfolding up_to_date_machines
  up_to_date_version [] acp cluster env = refl
  up_to_date_version (m ∷ ms) acp cluster env = ground (
    arith,
    specs_version m acp cluster env,
    up_to_date_version ms acp cluster
        (has_expected_specs api lib deep_derivative m acp cluster env).1,
  )

  scale_version :
      (acp : Acp) (cluster : Cluster) (ms up_to_date : List Machine) (env : Env Acp)
      → version_of (scale api lib deep_derivative acp cluster ms up_to_date env).1 ≡ version_of env
  unfolding scale scale_up_control_plane scale_down_control_plane machines_not_created
  scale_version acp cluster ms up_to_date env = ground arith

  status_version :
      (ms up_to_date : List Machine) (acp : Acp)
      → (update_replica_status lib ms up_to_date acp).status.version ≡ acp.status.version
  unfolding update_replica_status
  status_version ms up_to_date acp = ground arith

  replicas_version :
      (cluster : Cluster) (env : Env Acp)
      → version_of (reconcile_replicas api lib deep_derivative cluster env).1 ≡ version_of env
  unfolding reconcile_replicas
  replicas_version cluster env = grind (arith, up_to_date_version, scale_version, status_version)

  reachable_version :
      (cluster : Cluster) (architecture pull_secret : String) (acp : Acp) (env : Env Acp)
      → version_of (upgrade_if_reachable tools cluster architecture pull_secret acp env).1
        ≡ version_of env
  unfolding upgrade_if_reachable or_stop
  reachable_version cluster architecture pull_secret acp env =
      grind (arith, upgrade_workload_cluster-Untouched)

  with_replicas_version :
      (cluster : Cluster) (result : Result) (env : Env Acp)
      → version_of (with_replicas tools cluster result env).1 ≡ version_of env
  unfolding with_replicas
  with_replicas_version cluster result env = grind (arith, replicas_version)

  scaled_version :
      (cluster : Cluster) (architecture pull_secret : String) (env : Env Acp)
      → version_of (upgrade_and_scale tools cluster architecture pull_secret env).1 ≡ version_of env
  unfolding upgrade_and_scale
  scaled_version cluster architecture pull_secret env =
      grind (arith, reachable_version, with_replicas_version)

  marked_local :
      (version : Outcome Err String) (acp : Acp)
      → (mark_kubernetes_version_condition lib version acp).status.version ≡ acp.status.version
  unfolding mark_kubernetes_version_condition
  marked_local (ok version) acp = refl
  marked_local (exit e) acp = refl

  -- With the outcome of GetKubernetesVersion written down.
  abbrev recorded : Outcome Err String → Env Acp → Env Acp
  recorded version env = record env {
    local =
        set_version (value_of version) (mark_kubernetes_version_condition lib version env.local);
  }

  -- However the rest of the run ends, the version in the status is then the one that
  -- GetKubernetesVersion has given, and none where that has failed, whatever was known before.
  pub reconcile_version_detects :
      (cluster : Cluster) (acp : Acp) (pull_secret architecture : String) (env : Env Acp)
      → version_of (reconcile_version tools cluster acp pull_secret architecture env).1
        ≡ value_of
            (get_kubernetes_version api codecs unmarshal
              (release_image_of parse_tolerant acp architecture)
              pull_secret
              env).0
  unfolding reconcile_version upgrade_unavailable image_missing
  reconcile_version_detects cluster acp pull_secret architecture env =
      let image = release_image_of parse_tolerant acp architecture in
      let (r, env') = get_kubernetes_version api codecs unmarshal image pull_secret env in
      elim (Outcome-cases r) [
        | inl (e, failed) ↦
            let lost : e.reasons ≡ [] =
              reasons-get_kubernetes_version api codecs unmarshal image pull_secret env failed in
            let unseen : image_missing tools (exit e) ≡ none = ground (arith, lost) in
            rw (failed, unseen)
              (scaled_version cluster architecture pull_secret (recorded (exit e) env'))
        | inr (v, found) ↦
            rw found (scaled_version cluster architecture pull_secret (recorded (ok v) env'))
      ]
