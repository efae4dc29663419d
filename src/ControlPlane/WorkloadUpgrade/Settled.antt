-- ===== src/ControlPlane/WorkloadUpgrade/Settled.antt =====
-- A run of the upgrade that asks for no further run.
use cluster_api_agent.Prelude.{
  String, Bool, true, false, ◌==◌, ◌≡◌, ◌≢◌, refl, ap, ◌∙◌, ◌∷◌, none, some, arith, eq_iff,
  Option-cases, inl, inr,
}
use cluster_api_agent.Kube.Errors.{Err, Outcome, ok, exit, error, Outcome-cases}
use cluster_api_agent.Kube.Objects.{Cluster, ClusterVersion}
use cluster_api_agent.Kube.Api.{Api, Call, Env, History}
use cluster_api_agent.Kube.Reconcile.{Returned, done}
use cluster_api_agent.ControlPlane.Resources.{Acp}
use cluster_api_agent.ControlPlane.WorkloadUpgrade.{
  Tools, Upgraded, upgrade_if_needed, upgrade_with_client, upgrade_steps, finish_upgrade,
  upgrade_workload_cluster, set_distribution_version, value_of,
  is_workload_cluster_running_desired_version, mark_upgrade,
}
use cluster_api_agent.ControlPlane.Upgrade.{
  is_desired_version_updated, is_upgrade_in_progress, is_update_in_progress, get_current_version,
  first_completed, cluster_version_key,
}
use cluster_api_agent.ControlPlane.Common.{or_empty, get_workload_kubeconfig}
use cluster_api_agent.ControlPlane.WorkloadClient.{get_workload_cluster_client}
use cluster_api_agent.ControlPlane.WorkloadUpgrade.Untouched.{client_local, kubeconfig_local}
use cluster_api_agent.Kube.Kinds.{cluster_version}
use cluster_api_agent.ControlPlane.Marks.{mark_true, mark_false}

abbrev result_of : Outcome Upgraded Upgraded → Returned
result_of (ok (in_progress, r)) = r
result_of (exit (in_progress, r)) = r

abbrev asks : Call
asks = Call.get cluster_version cluster_version_key

-- The last three calls read the ClusterVersion: first without an update in progress, then with the
-- version as its newest completed update.
pub record Settles (api : Api) (version : String) (calls : History) : Type 0 where
  pub before : History
  pub idle : ClusterVersion
  pub running : ClusterVersion
  pub trace : calls ≡ asks ∷ asks ∷ asks ∷ before
  pub got_idle : api.get_answer cluster_version cluster_version_key before ≡ ok idle
  pub no_update : is_update_in_progress idle ≡ false
  pub got_running : api.get_answer cluster_version cluster_version_key (asks ∷ before) ≡ ok running
  pub completed : first_completed running.history ≡ some version

-- The newest completed version of a ClusterVersion that is read.
abbrev current_of : Outcome Err ClusterVersion → Outcome Err String
current_of (exit e) = exit e
current_of (ok cv) = elim (first_completed cv.history) [
  | some version ↦ ok version
  | none ↦ exit (error "no completed update found in ClusterVersion history")
]

module _ (tools : Tools) where
  open tools use {api}

  needed_settles :
      (in_progress : Bool) (architecture pull_secret : String) (env : Env Acp)
      → result_of (upgrade_if_needed tools in_progress architecture pull_secret env).0
        ≡ (done, none)
      → let env' = (upgrade_if_needed tools in_progress architecture pull_secret env).1 in
        (in_progress ≡ false)
        × (is_workload_cluster_running_desired_version env.local ≡ true)
        × (env'.calls ≡ asks ∷ env.calls)
        × (env'.local ≡ env.local)
  unfolding upgrade_if_needed is_desired_version_updated
  needed_settles in_progress architecture pull_secret env h = ground arith

  -- The version that is recorded is the newest completed one, or empty.
  recorded :
      (cv : Outcome Err ClusterVersion) (version : String)
      → (version == or_empty (value_of (current_of cv))) ≡ true
      → version ≢ ""
      → (running : ClusterVersion) × (cv ≡ ok running)
        × (first_completed running.history ≡ some version)
  recorded (exit e) version same some_version = absurd (ground (arith, eq_iff version ""))
  recorded (ok running) version same some_version =
      elim (Option-cases (first_completed running.history)) [
        | inl never ↦ absurd (ground (arith, never, eq_iff version ""))
        | inr (v, completed) ↦ (running, refl, ground (arith, completed, eq_iff version v))
      ]

  -- Whatever is marked, the versions stay.
  mark_upgrade_keeps_versions :
      (in_progress : Bool) (oacp : Acp)
      → is_workload_cluster_running_desired_version (mark_upgrade tools in_progress oacp)
        ≡ is_workload_cluster_running_desired_version oacp
  unfolding mark_upgrade mark_true mark_false is_workload_cluster_running_desired_version
  mark_upgrade_keeps_versions in_progress oacp = ground arith

  progress_read :
      (idle : ClusterVersion) (env : Env Acp)
      → api.get_answer cluster_version cluster_version_key env.calls ≡ ok idle
      → is_upgrade_in_progress api env
        ≡ (ok (is_update_in_progress idle), record env { calls = asks ∷ env.calls })
  unfolding is_upgrade_in_progress
  progress_read idle env got = rw got refl

  current_read :
      (env : Env Acp)
      → get_current_version api env ≡ (
        current_of (api.get_answer cluster_version cluster_version_key env.calls),
        record env { calls = asks ∷ env.calls },
      )
  unfolding get_current_version
  current_read env =
      elim (Outcome-cases (api.get_answer cluster_version cluster_version_key env.calls)) [
        | inl (e, failed) ↦ rw failed refl
        | inr (cv, got) ↦ elim (Option-cases (first_completed cv.history)) [
          | inl never ↦ ground (arith, got, never)
          | inr (v, completed) ↦ ground (arith, got, completed)
        ]
      ]

  with_client_reads :
      (idle : ClusterVersion) (architecture pull_secret : String) (env : Env Acp)
      → api.get_answer cluster_version cluster_version_key env.calls ≡ ok idle
      → let second = api.get_answer cluster_version cluster_version_key (asks ∷ env.calls) in
        upgrade_with_client tools architecture pull_secret env
        ≡ upgrade_if_needed tools (is_update_in_progress idle) architecture pull_secret (record {
          local = set_distribution_version (or_empty (value_of (current_of second))) env.local;
          calls = asks ∷ asks ∷ env.calls;
        })
  unfolding upgrade_with_client
  with_client_reads idle architecture pull_secret env got =
      rw (progress_read idle env got, current_read (record env { calls = asks ∷ env.calls })) refl

  with_client-Settles :
      (architecture pull_secret : String) (env : Env Acp)
      → result_of (upgrade_with_client tools architecture pull_secret env).0 ≡ (done, none)
      → env.local.spec.distribution_version ≢ ""
      → let env' = (upgrade_with_client tools architecture pull_secret env).1 in
        Settles api env.local.spec.distribution_version env'.calls
        × (env'.local.spec ≡ env.local.spec)
        × (is_workload_cluster_running_desired_version env'.local ≡ true)
  unfolding upgrade_with_client is_upgrade_in_progress get_current_version
      is_workload_cluster_running_desired_version
  with_client-Settles architecture pull_secret env h some_version =
      let calls1 = asks ∷ env.calls in
      let second = api.get_answer cluster_version cluster_version_key calls1 in
      elim (Outcome-cases (api.get_answer cluster_version cluster_version_key env.calls)) [
        | inl (e, failed) ↦ absurd (ground (arith, failed))
        | inr (idle, got) ↦
            let env1 : Env Acp = record {
              local = set_distribution_version (or_empty (value_of (current_of second))) env.local;
              calls = asks ∷ calls1;
            } in
            let (r, env2) =
              upgrade_if_needed tools (is_update_in_progress idle) architecture pull_secret env1 in
            let same : upgrade_with_client tools architecture pull_secret env ≡ (r, env2) =
              with_client_reads idle architecture pull_secret env got in
            let (no_update, runs, trace, kept) =
              needed_settles (is_update_in_progress idle) architecture pull_secret env1
                (rw same at h) in
            let (running, got', completed) =
              recorded second env.local.spec.distribution_version runs some_version in
            (
              rw same (record {
                before = env.calls;
                idle = idle;
                running = running;
                trace = trace;
                got_idle = got;
                no_update = no_update;
                got_running = got';
                completed = completed;
              }),
              rw same (ap (λ o. o.spec) kept),
              rw (same, kept) runs,
            )
      ]

  steps-Settles :
      (cluster : Cluster) (architecture pull_secret : String) (env : Env Acp)
      → result_of (upgrade_steps tools cluster architecture pull_secret env).0 ≡ (done, none)
      → env.local.spec.distribution_version ≢ ""
      → let env' = (upgrade_steps tools cluster architecture pull_secret env).1 in
        Settles api env.local.spec.distribution_version env'.calls
        × (is_workload_cluster_running_desired_version env'.local ≡ true)
  unfolding upgrade_steps
  steps-Settles cluster architecture pull_secret env h some_version =
      let name = cluster.meta.name in
      let (k, env1) = get_workload_kubeconfig api name cluster.meta.namespace env in
      elim (Outcome-cases k) [
        | inl (e, failed) ↦ absurd (ground (arith, failed))
        | inr (kubeconfig, got) ↦
            let (c, env2) = get_workload_cluster_client api tools.client_configs kubeconfig env1 in
            elim (Outcome-cases c) [
              | inl (e, failed) ↦ absurd (ground (arith, got, failed))
              | inr (u, made) ↦
                  let kept : env2.local ≡ env.local =
                    client_local tools kubeconfig env1
                    ∙ kubeconfig_local tools name cluster.meta.namespace env in
                  let well : result_of (upgrade_with_client tools architecture pull_secret env2).0
                      ≡ (done, none) =
                    ground (arith, got, made) in
                  let (settled, _, runs) =
                    with_client-Settles architecture pull_secret env2 well (rw kept some_version) in
                  rw (got, made) (rw kept at settled, runs)
            ]
      ]

  finish-Settles :
      (r : Outcome Upgraded Upgraded) (version : String) (env : Env Acp)
      → Settles api version env.calls
      → is_workload_cluster_running_desired_version env.local ≡ true
      → (finish_upgrade tools r env).0 ≡ ok (done, none)
      → Settles api version (finish_upgrade tools r env).1.calls
        × (is_workload_cluster_running_desired_version (finish_upgrade tools r env).1.local ≡ true)
  unfolding finish_upgrade
  finish-Settles (ok (in_progress, r)) version env settled runs h =
      (settled, mark_upgrade_keeps_versions in_progress env.local ∙ runs)
  finish-Settles (exit (in_progress, r)) version env settled runs h =
      (settled, mark_upgrade_keeps_versions in_progress env.local ∙ runs)

  returned_by :
      (r : Outcome Upgraded Upgraded) (env : Env Acp)
      → (finish_upgrade tools r env).0 ≡ ok (done, none)
      → result_of r ≡ (done, none)
  unfolding finish_upgrade
  returned_by (ok (in_progress, r)) env h = ground arith
  returned_by (exit (in_progress, r)) env h = ground arith

  -- Where upgradeWorkloadCluster returns no error and asks for no further run, for a desired version
  -- that is not empty, the ClusterVersion of the workload cluster has shown no update in progress,
  -- and, read again, the desired version as its newest completed update, which is the version that
  -- the status then gives.
  pub upgrade_workload_cluster-Settles :
      (cluster : Cluster) (architecture pull_secret : String) (env : Env Acp)
      → (upgrade_workload_cluster tools cluster architecture pull_secret env).0 ≡ ok (done, none)
      → env.local.spec.distribution_version ≢ ""
      → let env' = (upgrade_workload_cluster tools cluster architecture pull_secret env).1 in
        Settles api env.local.spec.distribution_version env'.calls
        × (is_workload_cluster_running_desired_version env'.local ≡ true)
  unfolding upgrade_workload_cluster
  upgrade_workload_cluster-Settles cluster architecture pull_secret env h some_version =
      let (r, env1) = upgrade_steps tools cluster architecture pull_secret env in
      let (settled, runs) =
        steps-Settles cluster architecture pull_secret env (returned_by r env1 h) some_version in
      finish-Settles r env.local.spec.distribution_version env1 settled runs h
