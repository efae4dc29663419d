-- ===== src/ControlPlane/WorkloadUpgrade/Completion.antt =====
-- When an upgrade counts as completed.
use cluster_api_agent.Prelude.{Bool, not, ◌||◌, ◌<>◌, eq_refl, ◌≡◌, arith}
use cluster_api_agent.Kube.Meta.{info_severity}
use cluster_api_agent.Kube.Library.{ConditionLaws, is_false}
use cluster_api_agent.ControlPlane.Types.{upgrade_completed_condition}
use cluster_api_agent.ControlPlane.Resources.{Acp}
use cluster_api_agent.ControlPlane.WorkloadUpgrade.{
  Tools, mark_upgrade, is_workload_cluster_running_desired_version,
}

module _ (tools : Tools) (laws : ConditionLaws tools.lib) where
  -- The condition UpgradeCompleted is False after a run exactly where an update is in progress or
  -- the cluster does not run the desired version.
  pub is_false-mark_upgrade :
      (in_progress : Bool) (oacp : Acp)
      → is_false tools.lib upgrade_completed_condition
          (mark_upgrade tools in_progress oacp).status.conditions
        ≡ (in_progress || not (is_workload_cluster_running_desired_version oacp))
  unfolding mark_upgrade
  is_false-mark_upgrade in_progress oacp = ground (
    arith,
    eq_refl upgrade_completed_condition,
    laws.get-mark_true upgrade_completed_condition upgrade_completed_condition
        oacp.status.conditions,
    laws.get-mark_false upgrade_completed_condition "UpgradeInProgress" info_severity
        ("upgrade to version " <> oacp.spec.distribution_version <> " in progress")
        upgrade_completed_condition oacp.status.conditions,
  )
