-- ===== src/Examples/Scaling.antt =====
-- Scaling a control plane of three replicas.
use cluster_api_agent.Prelude.{◌≤◌, true, ◌≡◌, refl, [], ◌∷◌, none, arith, length, filterb}
use cluster_api_agent.Prelude.Int.{pos, ◌-ℤ◌, ◌+ℤ◌}
use cluster_api_agent.Kube.Errors.{Err, Outcome, ok, exit}
use cluster_api_agent.Kube.Kinds.{Kind, Obj, machine}
use cluster_api_agent.Kube.Api.{Api, History}
use cluster_api_agent.Kube.Counts.{count, creates_machine, deletes_machine, is_write}
use cluster_api_agent.ControlPlane.Replicas.{
  Derivative, reconcile_replicas, scale_up_control_plane, update_replica_status, has_expected_specs,
  up_to_date_machines,
}
use cluster_api_agent.ControlPlane.Machines.{has_expected_fields, get_machine_spec}
use cluster_api_agent.ControlPlane.Replicas.Bounds.{reconcile_replicas_bounds}
use cluster_api_agent.ControlPlane.Replicas.Rollback.{
  RollsBack, stops_at_config, scale_up_control_plane-RollsBack, scale_up_leaks,
}
use cluster_api_agent.ControlPlane.Replicas.Status.{
  update_replica_status_counts, reconcile_replicas_outdates,
}
use cluster_api_agent.Examples.Objects.{acp, cluster, machine_named, reference}
use cluster_api_agent.Examples.World.{plain, nothing, refused, at_start}

abbrev always : Derivative
always = λ a b. true

-- Everything is created, and one machine is owned.
abbrev generous : Api
generous = record nothing {
  owned_machines_answer = λ c m h. ok (machine_named "m0" ∷ []);
  template_answer = λ i h. ok (reference "infra");
  create_answer = λ k o h. ok o;
  delete_answer = λ k key h. ok tt;
}

reconcile_replicas_bounds_example :
    let env' = (reconcile_replicas generous plain always cluster (at_start acp)).1 in
    (count creates_machine env'.calls ≤ 1) × (count deletes_machine env'.calls ≤ 0)
unfolding count ◌-ℤ◌
reconcile_replicas_bounds_example =
    reconcile_replicas_bounds generous plain always cluster (machine_named "m0" ∷ []) (at_start acp)
      refl

-- Machines are refused, all else is created.
abbrev no_machines : (k : Kind) → Obj k → History → Outcome Err (Obj k)
no_machines machine o h = exit refused
no_machines k o h = ok o

abbrev no_more_machines : Api
no_more_machines = record generous { create_answer = no_machines }

scale_up_control_plane-RollsBack_example :
    RollsBack no_more_machines []
      (scale_up_control_plane no_more_machines plain always acp cluster none (at_start acp)).1.calls
unfolding scale_up_control_plane count
scale_up_control_plane-RollsBack_example =
    scale_up_control_plane-RollsBack no_more_machines plain always acp cluster none (at_start acp)
      refl refl

abbrev only_templates : Api
only_templates = record nothing { template_answer = λ i h. ok (reference "infra") }

scale_up_leaks_example :
    let (r, env') =
      scale_up_control_plane only_templates plain always acp cluster none (at_start acp) in
    (r ≡ exit refused) × (stops_at_config env'.calls ≡ true) × (count is_write env'.calls ≡ 2)
unfolding count
scale_up_leaks_example =
    scale_up_leaks only_templates plain always acp cluster none (at_start acp) (reference "infra")
      refused (λ i h. refl) (λ o h. refl)

update_replica_status_counts_example :
    let s = (update_replica_status plain (machine_named "m0" ∷ []) [] acp).status in
    (s.replicas ≡ pos 1)
    × (s.ready_replicas ≡ pos (length (filterb plain.is_ready (machine_named "m0" ∷ []))))
    × (s.ready_replicas +ℤ s.unavailable_replicas ≡ s.replicas)
update_replica_status_counts_example =
    update_replica_status_counts plain (machine_named "m0" ∷ []) [] acp (omega arith)

reconcile_replicas_outdates_example :
    (reconcile_replicas generous plain always cluster
      (at_start acp)).1.local.status.updated_replicas
    ≡ pos 0
unfolding reconcile_replicas up_to_date_machines has_expected_specs has_expected_fields
    get_machine_spec ◌-ℤ◌ scale_up_control_plane
reconcile_replicas_outdates_example =
    reconcile_replicas_outdates generous plain always cluster (machine_named "m0" ∷ [])
      (at_start acp) (record { address = 1; value = 30 }) refl refl
      ((record { address = 2; value = 30 }, refl, ground arith), tt) refl
