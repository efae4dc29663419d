-- ===== src/Bootstrap/AgentController/Approval.antt =====
-- What the controller writes to an Agent.
use cluster_api_agent.Prelude.{
  String, Bool, true, false, ◌≡◌, ◌∷◌, refl, List, [], arith, inl, inr, is_some, lookup,
  Option-cases, if◌then◌else◌, some,
}
use cluster_api_agent.Kube.Errors.{Err, Outcome, ok, Outcome-cases}
use cluster_api_agent.Kube.Meta.{Key, OwnerReference, ObjectReference}
use cluster_api_agent.Kube.Objects.{Machine, Agent}
use cluster_api_agent.Kube.Kinds.{Kind, agent}
use cluster_api_agent.Kube.Api.{Api, Call, Env, History, update}
use cluster_api_agent.Kube.Reconcile.{done}
use cluster_api_agent.Kube.Counts.{count}
use cluster_api_agent.Bootstrap.Ignition.{IgnitionConfig, get_ignition_config}
use cluster_api_agent.Bootstrap.Types.{OpenshiftAssistedConfig}
use cluster_api_agent.ControlPlane.Common.{
  machine_control_plane_label, typed_owner_loop, get_typed_owner,
}
use cluster_api_agent.Bootstrap.AgentController.{
  get_machine_from_agent, ensure_bootstrap_config_reference, role_of, set_agent_fields, reconcile,
}

abbrev is_agent : Kind → Bool
is_agent agent = true
is_agent _ = false

abbrev pub updates_agent : Call → Bool
updates_agent (update k o) = is_agent k
updates_agent _ = false

module _ {L : Type 0} (api : Api) (p : Call → Bool)
    (no_reads : (k : Kind) (key : Key) → p (Call.get k key) ≡ false) where
  owner_loop_count :
      (k : Kind) (namespace : String) (refs : List OwnerReference) (env : Env L)
      → count p (typed_owner_loop api k namespace refs env).1.calls ≡ count p env.calls
  unfolding typed_owner_loop count
  owner_loop_count k namespace [] env = refl
  owner_loop_count k namespace (ref ∷ refs) env =
      let key : Key = record { namespace = namespace; name = ref.name } in
      let env' = record env { calls = Call.get k key ∷ env.calls } in
      ground (arith, no_reads k key, owner_loop_count k namespace refs env')

abbrev pub on_control_plane : Machine → Bool
on_control_plane m = is_some (lookup machine_control_plane_label m.meta.labels)

role_of_label : (m : Machine) → role_of m ≡ (if on_control_plane m then "master" else "worker")
unfolding role_of
role_of_label m = refl

-- After the calls before, the Agent of the key is updated, as the newest call and the only update
-- of an Agent: approved, as a master exactly where its machine is of the control plane and else as
-- a worker, with the ignition of the configuration that the machine refers to as its overrides,
-- and with all else that it had.
pub record Approves {L : Type 0} (api : Api) (marshal : IgnitionConfig → Outcome Err String)
    (encode_base64 : String → String) (key : Key) (env env' : Env L) : Type 0 where
  pub found : Agent
  pub owner : Machine
  pub config : OpenshiftAssistedConfig
  pub overrides : String
  pub earlier : History
  pub got : api.get_answer agent key env.calls ≡ ok found
  pub owned :
      (get_machine_from_agent api marshal encode_base64 found
        (record env { calls = Call.get agent key ∷ env.calls })).0
      ≡ ok owner
  pub ref : ObjectReference
  pub named : owner.spec.bootstrap_config_ref ≡ some ref
  pub referred :
      (ensure_bootstrap_config_reference api marshal encode_base64 ref found.meta.name
        (get_machine_from_agent api marshal encode_base64 found
          (record env { calls = Call.get agent key ∷ env.calls })).1).0
      ≡ ok config
  pub given : get_ignition_config marshal encode_base64 config ≡ ok overrides
  pub newest :
      env'.calls
      ≡ update agent (record found {
        role = if on_control_plane owner then "master" else "worker";
        ignition_config_overrides = overrides;
        approved = true;
      })
        ∷ earlier
  pub only : count updates_agent earlier ≡ count updates_agent env.calls

module _ {L : Type 0} (api : Api) (marshal : IgnitionConfig → Outcome Err String)
    (encode_base64 : String → String) where
  machine_updates_none :
      (a : Agent) (env : Env L)
      → count updates_agent (get_machine_from_agent api marshal encode_base64 a env).1.calls
        ≡ count updates_agent env.calls
  unfolding get_machine_from_agent get_typed_owner count
  machine_updates_none a env =
      grind (arith, owner_loop_count {L = L} api updates_agent (λ k key. refl))

  reference_updates_none :
      (ref : ObjectReference) (name : String) (env : Env L)
      → count updates_agent
          (ensure_bootstrap_config_reference api marshal encode_base64 ref name env).1.calls
        ≡ count updates_agent env.calls
  unfolding ensure_bootstrap_config_reference count
  reference_updates_none ref name env = ground arith

  -- A run that gets to its end has approved the Agent of its key, whose role is that of the machine
  -- which owns its InfraEnv.
  pub reconcile-Approves :
      (key : Key) (env : Env L)
      → (reconcile api marshal encode_base64 key env).0 ≡ ok done
      → Approves api marshal encode_base64 key env (reconcile api marshal encode_base64 key env).1
  unfolding reconcile set_agent_fields count
  reconcile-Approves key env h =
      let env1 = record env { calls = Call.get agent key ∷ env.calls } in
      elim (Outcome-cases (api.get_answer agent key env.calls)) [
        | inl (e, failed) ↦ absurd (ground (arith, failed))
        | inr (found, got) ↦
            let (m, env2) = get_machine_from_agent api marshal encode_base64 found env1 in
            elim (Outcome-cases m) [
              | inl (e, failed) ↦ absurd (ground (arith, got, failed))
              | inr (owner, owned) ↦ elim (Option-cases owner.spec.bootstrap_config_ref) [
                | inl without ↦ absurd (ground (arith, got, owned, without))
                | inr (ref, with) ↦
                    let (c, env3) =
                      ensure_bootstrap_config_reference api marshal encode_base64 ref
                        found.meta.name env2 in
                    elim (Outcome-cases c) [
                      | inl (e, failed) ↦ absurd (ground (arith, got, owned, with, failed))
                      | inr (config, referred) ↦
                          elim (Outcome-cases (get_ignition_config marshal encode_base64 config)) [
                            | inl (e, failed) ↦
                                absurd (ground (arith, got, owned, with, referred, failed))
                            | inr (overrides, given) ↦ record {
                              found = found;
                              owner = owner;
                              config = config;
                              overrides = overrides;
                              earlier = env3.calls;
                              got = got;
                              owned = owned;
                              ref = ref;
                              named = with;
                              referred = referred;
                              given = given;
                              newest =
                                  ground
                                    (arith, got, owned, with, referred, given, role_of_label owner);
                              only = ground (
                                arith,
                                machine_updates_none found env1,
                                reference_updates_none ref found.meta.name env2,
                              );
                            }
                          ]
                    ]
              ]
            ]
      ]
