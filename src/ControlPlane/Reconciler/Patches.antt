-- ===== src/ControlPlane/Reconciler/Patches.antt =====
-- How a run of the reconciler ends.
use cluster_api_agent.Prelude.{Bool, true, false, ◌≡◌, ◌&&◌, ◌∷◌, none, is_nil, arith}
use cluster_api_agent.Kube.Errors.{Err, Outcome, ok, exit}
use cluster_api_agent.Kube.Kinds.{control_plane}
use cluster_api_agent.Kube.Api.{Call, Env}
use cluster_api_agent.Kube.Reconcile.{returned, succeeded, Returned}
use cluster_api_agent.ControlPlane.Resources.{Acp}
use cluster_api_agent.ControlPlane.Marks.{set_summary}
use cluster_api_agent.ControlPlane.WorkloadUpgrade.{Tools}
use cluster_api_agent.ControlPlane.Reconciler.{reconcile_body, run_body, finish}

-- No error is returned.
abbrev pub returns_no_error : Outcome Returned Returned → Bool
returns_no_error (ok (result, none)) = true
returns_no_error _ = false

abbrev pub is_patched : Outcome Err Unit → Bool
is_patched (ok _) = true
is_patched (exit e) = false

-- However the body ends, the run then makes exactly one more call, the patch of the control plane
-- as it stands with its summary, with the observed generation where the body ended without an
-- error; and it returns no error exactly where neither the body nor the patch has one.
pub run_body_patches :
    (tools : Tools) (env : Env Acp)
    → let (r, env') = reconcile_body tools env in
      let (r', env'') = run_body tools env in
      let summed = set_summary tools.lib env'.local in
      let observed = succeeded (returned r).1 in
      (env''.calls ≡ Call.patch control_plane summed observed ∷ env'.calls)
      × (env''.local ≡ summed)
      × (returns_no_error r' ≡ (
          is_nil (returned r).1
          && is_patched (tools.api.patch_answer control_plane summed observed env'.calls)))
unfolding run_body finish
run_body_patches tools env = ground arith
