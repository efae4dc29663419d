-- ===== src/Examples/Running.antt =====
-- Runs of the reconciler of a control plane.
use cluster_api_agent.Prelude.{
  eq_iff, ◌≤◌, true, false, ◌≡◌, ◌&&◌, refl, [], ◌∷◌, some, none, arith, is_nil, is_some, contains,
  lookup, has_prefix,
}
use cluster_api_agent.Kube.Errors.{Err, Outcome, ok, exit, is_ok}
use cluster_api_agent.Kube.Kinds.{Kind, Obj, control_plane, secret}
use cluster_api_agent.Kube.Meta.{Key, named}
use cluster_api_agent.Kube.Objects.{Secret}
use cluster_api_agent.Kube.Api.{Api, Call, History}
use cluster_api_agent.Kube.Reconcile.{returned, succeeded}
use cluster_api_agent.Kube.Counts.{count, creates_machine, deletes_machine}
use cluster_api_agent.ControlPlane.Types.{acp_finalizer}
use cluster_api_agent.ControlPlane.Release.{SemVer}
use cluster_api_agent.ControlPlane.Common.{get_workload_kubeconfig, pullsecret_data_key}
use cluster_api_agent.ControlPlane.Upgrade.{
  first_completed, get_current_version, is_desired_version_updated, is_update_in_progress,
  is_upgrade_in_progress,
}
use cluster_api_agent.ControlPlane.Marks.{set_summary}
use cluster_api_agent.ControlPlane.Resources.{Acp, handle_deletion, ensure_pull_secret}
use cluster_api_agent.ControlPlane.Resources.Deletion.{
  handle_deletion_releases, handle_deletion_holds, ensure_pull_secret_outcome,
}
use cluster_api_agent.ControlPlane.WorkloadClient.{get_workload_cluster_client}
use cluster_api_agent.ControlPlane.WorkloadUpgrade.{
  Tools, upgrade_workload_cluster, is_workload_cluster_running_desired_version,
}
use cluster_api_agent.ControlPlane.WorkloadUpgrade.Settled.{
  Settles, upgrade_workload_cluster-Settles,
}
use cluster_api_agent.ControlPlane.Reconciler.{
  reconcile_body, reconcile_version, run_body, reconcile,
}
use cluster_api_agent.ControlPlane.Version.{get_kubernetes_version}
use cluster_api_agent.Containers.{pull_secret_keychain, get_image}
use cluster_api_agent.ControlPlane.Reconciler.Detected.{reconcile_version_detects}
use cluster_api_agent.ControlPlane.Reconciler.Machines.{reconcile_machines}
use cluster_api_agent.ControlPlane.Reconciler.Patches.{
  is_patched, returns_no_error, run_body_patches,
}
use cluster_api_agent.Examples.Objects.{acp, cluster, reference, version_object}
use cluster_api_agent.Examples.World.{plain, plain_finalizers, nothing, missing, refused, at_start}

-- Every version is read as 4.16.0.
abbrev release : SemVer
release = record { major = 4; minor = 16; patch = 0; pre = []; build = [] }

abbrev pub tools_at : Api → Tools
tools_at api = record {
  api = api;
  lib = plain;
  codecs = record {
    unmarshal_auths = λ s. ok [];
    decode_base64 = λ s. ok s;
    parse_reference = λ s. ok s;
    join_dir = λ p l. l;
  };
  parse_tolerant = λ s. some release;
  below_minimum = λ v. false;
  unmarshal = λ s. ok [];
  deep_derivative = λ a b. true;
  client_configs = record {
    new_client_config_from_bytes = λ s. ok s;
    client_config = λ s. ok s;
    install = ok tt;
  };
}

abbrev pull_secret : Secret
pull_secret = record {
  type_meta = record { api_version = "v1"; kind = "Secret" };
  meta = named "pull-secret" "ns";
  contents = (pullsecret_data_key, "{}") ∷ [];
  secret_type = "Opaque";
}

abbrev pub acp_and_secrets : (k : Kind) → Key → History → Outcome Err (Obj k)
acp_and_secrets secret key h = ok pull_secret
acp_and_secrets control_plane key h = ok acp
acp_and_secrets _ key h = exit missing

abbrev acp_key : Key
acp_key = record { namespace = "ns"; name = "cp" }

-- The cluster has its infrastructure, and no machine yet.
abbrev provisioning : Api
provisioning = record nothing {
  get_answer = acp_and_secrets;
  owner_cluster_answer = λ m h. ok (some cluster);
  create_answer = λ k o h. ok o;
  template_answer = λ i h. ok (reference "infra");
}

reconcile_machines_example :
    let env' = (reconcile (tools_at provisioning) acp_key (at_start acp)).1 in
    (count creates_machine env'.calls ≤ 1) × (count deletes_machine env'.calls ≤ 1)
unfolding count
reconcile_machines_example = reconcile_machines (tools_at provisioning) acp_key (at_start acp)

-- The release image is not found: the version that was known is gone.
reconcile_version_detects_example :
    (reconcile_version
      (tools_at nothing)
      cluster
      acp
      "{}"
      "x86_64"
      (at_start acp)).1.local.status.version
    ≡ none
unfolding get_kubernetes_version pull_secret_keychain get_image
reconcile_version_detects_example =
    reconcile_version_detects (tools_at nothing) cluster acp "{}" "x86_64" (at_start acp)

run_body_patches_example :
    let (r, env') = reconcile_body (tools_at nothing) (at_start acp) in
    let (r', env'') = run_body (tools_at nothing) (at_start acp) in
    let summed = set_summary plain env'.local in
    (env''.calls ≡ Call.patch control_plane summed (succeeded (returned r).1) ∷ env'.calls)
    × (env''.local ≡ summed)
    × (returns_no_error r' ≡ (is_nil (returned r).1 && is_patched (ok tt)))
run_body_patches_example = run_body_patches (tools_at nothing) (at_start acp)

handle_deletion_releases_example :
    let (r, env') = handle_deletion nothing plain (at_start acp) in
    (r ≡ ok tt)
    × (contains env'.local.meta.finalizers acp_finalizer ≡ false)
    × (env'.local.status.cluster_deployment_ref ≡ none)
unfolding contains
handle_deletion_releases_example =
    handle_deletion_releases nothing plain plain_finalizers (at_start acp) refl refl

abbrev stubborn : Api
stubborn = record nothing { delete_answer = λ k key h. exit refused }

handle_deletion_holds_example :
    let (r, env') = handle_deletion stubborn plain (at_start acp) in
    (is_ok r ≡ false) × (env'.local ≡ acp)
unfolding contains
handle_deletion_holds_example = handle_deletion_holds stubborn plain (at_start acp) refl refl

ensure_pull_secret_outcome_example :
    let (r, env') = ensure_pull_secret nothing plain (at_start acp) in
    (is_ok r ≡ false) × (is_some env'.local.spec.config.pull_secret_ref ≡ is_ok r)
ensure_pull_secret_outcome_example = ensure_pull_secret_outcome nothing plain (at_start acp) _ refl

-- The kubeconfig is there, and the workload cluster runs the version that is desired.
abbrev workload : (k : Kind) → Outcome Err (Obj k)
workload Kind.secret = ok (record {
  type_meta = record { api_version = "v1"; kind = "Secret" };
  meta = acp.meta;
  contents = ("value", "kubeconfig") ∷ [];
  secret_type = "";
})
workload Kind.cluster_version = ok version_object
workload k = exit missing

abbrev settled_acp : Acp
settled_acp = record acp { spec = record acp.spec { distribution_version = "4.15.0" } }

abbrev running : Api
running = record nothing { get_answer = λ k key h. workload k }

upgrade_workload_cluster-Settles_example :
    let env' =
      (upgrade_workload_cluster
        (tools_at running)
        cluster
        "x86_64"
        "pull"
        (at_start settled_acp)).1 in
    Settles running "4.15.0" env'.calls
    × (is_workload_cluster_running_desired_version env'.local ≡ true)
unfolding upgrade_workload_cluster get_workload_kubeconfig lookup is_upgrade_in_progress
    is_desired_version_updated has_prefix get_current_version first_completed is_update_in_progress
    is_workload_cluster_running_desired_version get_workload_cluster_client
upgrade_workload_cluster-Settles_example =
    upgrade_workload_cluster-Settles (tools_at running) cluster "x86_64" "pull"
      (at_start settled_acp) refl (ground (arith, eq_iff "4.15.0" ""))
