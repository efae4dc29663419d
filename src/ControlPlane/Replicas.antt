-- ===== src/ControlPlane/Replicas.antt =====
-- Scaling a control plane to its number of replicas: reconcileReplicas and what it calls, of
-- controlplane/internal/controller/openshiftassistedcontrolplane_controller.go.
pub mod Bounds
pub mod Rollback
pub mod Status
pub mod Selection
pub mod Converging
use cluster_api_agent.Prelude.{
  ℕ, String, Bool, true, false, ◌&&◌, ◌<>◌, List, [], ◌∷◌, Option, none, some, length, filterb,
  if◌then◌else◌,
}
use cluster_api_agent.Prelude.Int.{ℤ, pos, ◌-ℤ◌, ltbℤ, eqbℤ, to_int32}
use cluster_api_agent.Kube.Errors.{
  Err, Outcome, ok, exit, error, panic, join_errors, not_found, has_reason,
}
use cluster_api_agent.Kube.Meta.{ObjectReference}
use cluster_api_agent.Kube.Objects.{Cluster, Machine}
use cluster_api_agent.Kube.Kinds.{assisted_config, machine, key_of}
use cluster_api_agent.Kube.Api.{
  Api, Exec, pure, fail, lift, catch, attempt, read, modify, ◌>>=◌, ◌>>◌,
}
use cluster_api_agent.Kube.Calls.{
  get, create, delete, get_owned_machines, create_from_template, external_delete, draw_name,
}
use cluster_api_agent.Kube.Library.{Library, owned_by}
use cluster_api_agent.Bootstrap.Types.{OpenshiftAssistedConfig, OpenshiftAssistedConfigSpec}
use cluster_api_agent.ControlPlane.Types.{OpenshiftAssistedControlPlane, machines_created_condition}
use cluster_api_agent.ControlPlane.Machines.{
  Action, next_failure_domain_for_scale_up, next_failure_domain_for_scale_down,
  select_machine_for_scale_down, get_machine_spec, has_expected_fields, compute_desired_machine,
  generate_openshift_assisted_config, machines_not_created, template_input,
}

abbrev machines_ready_condition : String
machines_ready_condition = "MachinesReady"

abbrev created_if : Library → Bool → OpenshiftAssistedControlPlane → OpenshiftAssistedControlPlane
created_if lib false oacp = oacp
created_if lib true oacp = record oacp {
  status = record oacp.status {
    conditions = lib.mark_true machines_created_condition oacp.status.conditions;
  };
}

unfoldable pub update_replica_status :
    Library
    → List Machine
    → List Machine
    → OpenshiftAssistedControlPlane
    → OpenshiftAssistedControlPlane
update_replica_status lib machines up_to_date oacp =
    let ready = to_int32 (pos (length (filterb lib.is_ready machines))) in
    let total = to_int32 (pos (length machines)) in
    let counted = record oacp {
      status = record oacp.status {
        updated_replicas = to_int32 (pos (length up_to_date));
        replicas = total;
        unavailable_replicas = to_int32 (total -ℤ ready);
        ready_replicas = ready;
      };
    } in
    let marked = created_if lib (eqbℤ ready oacp.spec.replicas) counted in
    record marked {
      status = record marked.status {
        conditions = lib.set_aggregate machines_ready_condition machines marked.status.conditions;
      };
    }

-- equality.Semantic.DeepDerivative
abbrev pub Derivative : Type 0
Derivative = OpenshiftAssistedConfigSpec → OpenshiftAssistedConfigSpec → Bool

abbrev keep_if : Bool → Machine → List Machine → List Machine
keep_if true m ms = m ∷ ms
keep_if false m ms = ms

module _ (api : Api) (lib : Library) (deep_derivative : Derivative) where
  -- The name of the bootstrap configuration is read through a pointer.
  bootstrap_matches : Machine → OpenshiftAssistedConfigSpec → Option ObjectReference → Action Bool
  bootstrap_matches m expected none = fail panic
  bootstrap_matches m expected (some ref) = do
    config ←
        attempt (get api assisted_config (record { namespace = m.meta.namespace; name = ref.name }))
    pure (elim config [ exit e ↦ false | ok c ↦ deep_derivative expected c.spec ])

  unfoldable pub has_expected_specs :
      Machine → OpenshiftAssistedControlPlane → Cluster → Action Bool
  unfolding bootstrap_matches
  has_expected_specs m acp cluster =
      if has_expected_fields (get_machine_spec acp cluster) m.spec
      then bootstrap_matches m acp.spec.openshift_assisted_config_spec m.spec.bootstrap_config_ref
      else pure false

  unfoldable pub up_to_date_machines :
      List Machine → OpenshiftAssistedControlPlane → Cluster → Action (List Machine)
  up_to_date_machines [] acp cluster = pure []
  up_to_date_machines (m ∷ ms) acp cluster = do
    expected ← has_expected_specs m acp cluster
    rest ← up_to_date_machines ms acp cluster
    pure (keep_if expected m rest)

  -- conditions.MarkFalse(acp, MachinesCreatedCondition, reason, ...); return nil, err
  not_created : {A : Type 0} → String → String → Action A → Action A
  not_created reason text m =
      catch m (λ e. do modify (machines_not_created lib reason (text <> e.text)); fail e)

  unfoldable pub compute_infra_ref :
      OpenshiftAssistedControlPlane → String → String → Action ObjectReference
  unfolding not_created
  compute_infra_ref acp machine_name cluster_name =
      not_created "InfrastructureTemplateCloningFailed" "error creating infraenv: "
        (create_from_template api (template_input lib acp machine_name cluster_name))

  unfoldable pub generate_machine :
      OpenshiftAssistedControlPlane
      → String
      → Cluster
      → Option String
      → Action (Machine × ObjectReference)
  unfolding compute_infra_ref
  generate_machine acp name cluster failure_domain = do
    let m = compute_desired_machine lib acp name cluster failure_domain
    ref ← compute_infra_ref acp name cluster.meta.name
    pure (record m { spec = record m.spec { infrastructure_ref = some ref } }, ref)

  joined : Err → Outcome Err Unit → Err
  joined e (ok _) = e
  joined e (exit d) = join_errors e d

  -- What follows a failed creation of the machine: its configuration and infrastructure go.
  unfoldable pub abandon : {A : Type 0} → OpenshiftAssistedConfig → ObjectReference → Err → Action A
  unfolding joined
  abandon config ref e = do
    modify
        (machines_not_created lib "MachineGenerationFailed" ("error creating machine " <> e.text))
    config_gone ← attempt (delete api assisted_config (key_of config.meta))
    infra_gone ← attempt (external_delete api ref)
    fail (joined (joined e config_gone) infra_gone)

  unfoldable pub scale_up_control_plane :
      OpenshiftAssistedControlPlane → Cluster → Option String → Action Machine
  unfolding generate_machine not_created abandon
  scale_up_control_plane acp cluster failure_domain = do
    name ← draw_name api (acp.meta.name <> "-")
    (m, infra_ref) ← generate_machine acp name cluster failure_domain
    let literal = generate_openshift_assisted_config lib acp cluster.meta.name name
    config ←
        not_created "BootstrapTemplateCloningFailed" "error creating bootstrap config: " (
          create api assisted_config (record literal { meta = owned_by lib acp.meta literal.meta }))
    ref ← lift (lib.get_reference config.type_meta config.meta)
    catch
        (create api machine (record m { spec = record m.spec { bootstrap_config_ref = some ref } }))
        (λ e. abandon config infra_ref e)

  unfoldable pub scale_down_control_plane : List Machine → Option String → Action Machine
  scale_down_control_plane eligible failure_domain = do
    m ←
        catch (lift (select_machine_for_scale_down lib eligible failure_domain))
          (λ e. fail (error ("failed to select machine for scale down: " <> e.text)))
    deleted ← attempt (delete api machine (key_of m.meta))
    elim deleted [ ok _ ↦ pure m | exit e ↦ if has_reason not_found e then pure m else fail e ]

  -- fmt.Errorf(text + "%v", err)
  told : {A : Type 0} → String → Action A → Action A
  told text m = catch m (λ e. fail (error (text <> e.text)))

  -- At most one machine is added or removed in a run.
  unfoldable pub scale :
      OpenshiftAssistedControlPlane → Cluster → List Machine → List Machine → Action Unit
  unfolding told
  scale oacp cluster machines up_to_date =
      let to_create = oacp.spec.replicas -ℤ pos (length machines) in
      if ltbℤ (pos 0) to_create
      then (do
        told "failed to scale up control plane: " (
            scale_up_control_plane oacp cluster
              (next_failure_domain_for_scale_up lib cluster machines up_to_date))
        pure tt)
      else if ltbℤ to_create (pos 0)
      then (do
        told "failed to scale down control plane: " (
            scale_down_control_plane machines
              (next_failure_domain_for_scale_down lib cluster machines))
        pure tt)
      else pure tt

  unfoldable pub reconcile_replicas : Cluster → Action Unit
  unfolding scale
  reconcile_replicas cluster = do
    oacp ← read
    machines ← get_owned_machines api cluster oacp.meta
    up_to_date ← up_to_date_machines machines oacp cluster
    scale oacp cluster machines up_to_date
    modify (update_replica_status lib machines up_to_date)
