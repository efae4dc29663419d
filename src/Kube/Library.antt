-- ===== src/Kube/Library.antt =====
-- The pure functions of controller-runtime and cluster-api that the controllers call, as a
-- parameter, and the documented laws of those on conditions and finalizers.
use mathlib.Core.List.{Memᴰ}
use cluster_api_agent.Prelude.{
  String, Bool, true, false, ◌==◌, ◌≡◌, List, ◌∷◌, Option, none, some, is_some, lookup,
  if◌then◌else◌, Map,
}
use cluster_api_agent.Kube.Errors.{Err, Outcome, ok, exit}
use cluster_api_agent.Kube.Meta.{
  TypeMeta, ObjectMeta, OwnerReference, ObjectReference, Condition, ConditionStatus, true_status,
  false_status, Severity, no_severity,
}
use cluster_api_agent.Kube.Objects.{Cluster, Machine, ApiEndpoint, FailureDomain}

pub record Library : Type 0 where
  -- sigs.k8s.io/cluster-api/util/conditions
  pub get_condition : String → List Condition → Option Condition
  pub mark_true : String → List Condition → List Condition
  pub mark_false : String → String → Severity → String → List Condition → List Condition
  pub set_summary : List String → List Condition → List Condition
  pub set_aggregate : String → List Machine → List Condition → List Condition
  -- controllerutil
  pub contains_finalizer : ObjectMeta → String → Bool
  pub add_finalizer : ObjectMeta → String → ObjectMeta
  pub remove_finalizer : ObjectMeta → String → ObjectMeta
  pub set_owner_reference : ObjectMeta → ObjectMeta → Outcome Err ObjectMeta
  -- metav1.NewControllerRef, reference.GetReference
  pub new_controller_ref : ObjectMeta → String → OwnerReference
  pub get_reference : TypeMeta → ObjectMeta → Outcome Err ObjectReference
  -- patch.NewHelper
  pub new_patch_helper : ObjectMeta → Outcome Err (Unit {0})
  -- annotations.IsPaused, APIEndpoint.IsValid, format.MustFormatValue
  pub is_paused : Cluster → ObjectMeta → Bool
  pub endpoint_is_valid : ApiEndpoint → Bool
  pub format_value : String → String
  -- collections and failuredomains
  pub is_ready : Machine → Bool
  pub in_failure_domain : Option String → Machine → Bool
  pub oldest : List Machine → Option Machine
  pub filter_control_plane : Map FailureDomain → Map FailureDomain
  pub pick_fewest : Map FailureDomain → List Machine → List Machine → Option String
  pub pick_most : Map FailureDomain → List Machine → List Machine → Option String

abbrev status_is : ConditionStatus → Option Condition → Bool
status_is true_status (some c) = elim c.status [ true_status ↦ true | _ ↦ false ]
status_is false_status (some c) = elim c.status [ false_status ↦ true | _ ↦ false ]
status_is s _ = false

-- conditions.IsTrue, conditions.IsFalse
abbrev pub is_true : Library → String → List Condition → Bool
is_true lib t cs = status_is true_status (lib.get_condition t cs)

abbrev pub is_false : Library → String → List Condition → Bool
is_false lib t cs = status_is false_status (lib.get_condition t cs)

-- `_ = controllerutil.SetOwnerReference(owner, obj, scheme)`: an error leaves the object alone.
abbrev settle : ObjectMeta → Outcome Err ObjectMeta → ObjectMeta
settle m (ok m') = m'
settle m (exit e) = m

abbrev pub owned_by : Library → ObjectMeta → ObjectMeta → ObjectMeta
owned_by lib owner m = settle m (lib.set_owner_reference owner m)

abbrev pub condition_true : String → Condition
condition_true t = record {
  type = t;
  status = true_status;
  severity = no_severity;
  reason = "";
  message = "";
}

abbrev pub condition_false : String → String → Severity → String → Condition
condition_false t r s m = record {
  type = t;
  status = false_status;
  severity = s;
  reason = r;
  message = m;
}

-- Marking sets the condition of that type and leaves the others; a summary sets only "Ready".
pub record ConditionLaws (lib : Library) : Type 0 where
  pub get-mark_true :
      (t u : String) (cs : List Condition)
      → lib.get_condition u (lib.mark_true t cs)
        ≡ (if t == u then some (condition_true t) else lib.get_condition u cs)
  pub get-mark_false :
      (t r : String) (s : Severity) (m u : String) (cs : List Condition)
      → lib.get_condition u (lib.mark_false t r s m cs)
        ≡ (if t == u then some (condition_false t r s m) else lib.get_condition u cs)
  pub get-set_aggregate :
      (t u : String) (ms : List Machine) (cs : List Condition)
      → (t == u) ≡ false
      → lib.get_condition u (lib.set_aggregate t ms cs) ≡ lib.get_condition u cs

-- A machine stands in the domain that is asked for: none is a domain of its own.
abbrev pub same_domain : Option String → Option String → Bool
same_domain none none = true
same_domain (some a) (some b) = a == b
same_domain _ _ = false

-- InFailureDomains, Oldest, and PickMost: a domain with most machines and at least one eligible
-- machine in it, and none only where no eligible machine stands in one of the domains.
pub record DomainLaws (lib : Library) : Type 0 where
  pub in_domain :
      (fd : Option String) (m : Machine)
      → lib.in_failure_domain fd m ≡ same_domain fd m.spec.failure_domain
  pub oldest-some : (m : Machine) (ms : List Machine) → is_some (lib.oldest (m ∷ ms)) ≡ true
  pub pick_most-some :
      (ds : Map FailureDomain) (all eligible : List Machine) (id : String)
      → lib.pick_most ds all eligible ≡ some id
      → (m : Machine) × Memᴰ m eligible × (m.spec.failure_domain ≡ some id)
  pub pick_most-none :
      (ds : Map FailureDomain) (all eligible : List Machine) (m : Machine) (id : String)
      → lib.pick_most ds all eligible ≡ none
      → Memᴰ m eligible
      → m.spec.failure_domain ≡ some id
      → is_some (lookup id ds) ≡ false

pub record FinalizerLaws (lib : Library) : Type 0 where
  pub contains-remove :
      (m : ObjectMeta) (f : String) → lib.contains_finalizer (lib.remove_finalizer m f) f ≡ false
  pub contains-add :
      (m : ObjectMeta) (f : String) → lib.contains_finalizer (lib.add_finalizer m f) f ≡ true
