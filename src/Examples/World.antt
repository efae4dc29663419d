-- ===== src/Examples/World.antt =====
-- A library of conditions and finalizers that keeps its laws, and an API server that has nothing.
use mathlib.Core.List.{Memᴰ}
use cluster_api_agent.Prelude.{
  String, ◌==◌, ◌≡◌, not, true, false, List, [], ◌∷◌, Option, none, some, contains, filterb,
  if◌then◌else◌, arith, eq_refl, Map, lookup, is_some, refl, sym, Option-cases, Bool-cases, inl,
  inr,
}
use cluster_api_agent.Kube.Errors.{Err, ok, exit, not_found, other}
use cluster_api_agent.Kube.Meta.{Condition}
use cluster_api_agent.Kube.Objects.{Machine, FailureDomain}
use cluster_api_agent.Kube.Api.{Api, Env}
use cluster_api_agent.Kube.Library.{
  Library, ConditionLaws, FinalizerLaws, condition_true, condition_false, same_domain, DomainLaws,
}

abbrev pub missing : Err
missing = record { reasons = not_found ∷ []; text = "not found" }

abbrev pub refused : Err
refused = record { reasons = other ∷ []; text = "refused" }

-- The newest condition of a type stands first.
unfoldable pub find : String → List Condition → Option Condition
find t [] = none
find t (c ∷ cs) = if c.type == t then some c else find t cs

-- The first machine.
abbrev pub first : List Machine → Option Machine
first [] = none
first (m ∷ ms) = some m

-- The first failure domain of a machine that is among the domains.
unfoldable pub some_domain : Map FailureDomain → List Machine → Option String
some_domain ds [] = none
some_domain ds (m ∷ ms) =
    let rest = some_domain ds ms in
    elim m.spec.failure_domain [
      | none ↦ rest
      | some id ↦ if is_some (lookup id ds) then some id else rest
    ]

abbrev pub plain : Library
plain = record {
  get_condition = find;
  mark_true = λ t cs. condition_true t ∷ cs;
  mark_false = λ t r s m cs. condition_false t r s m ∷ cs;
  set_summary = λ ts cs. cs;
  set_aggregate = λ t ms cs. cs;
  contains_finalizer = λ m f. contains m.finalizers f;
  add_finalizer = λ m f. record m { finalizers = f ∷ m.finalizers };
  remove_finalizer = λ m f. record m { finalizers = filterb (λ g. not (g == f)) m.finalizers };
  set_owner_reference = λ o m. ok m;
  new_controller_ref = λ m kind. record {
    api_version = "v1alpha2";
    kind = kind;
    name = m.name;
    uid = m.uid;
    controller = true;
  };
  get_reference = λ t m. ok (record {
    api_version = t.api_version;
    kind = t.kind;
    namespace = m.namespace;
    name = m.name;
  });
  new_patch_helper = λ m. ok tt;
  is_paused = λ c m. c.paused;
  endpoint_is_valid = λ e. not (e.host == "");
  format_value = λ s. s;
  is_ready = λ m. true;
  in_failure_domain = λ fd m. same_domain fd m.spec.failure_domain;
  oldest = first;
  filter_control_plane = λ m. m;
  pick_fewest = λ m a b. none;
  pick_most = λ ds all eligible. some_domain ds eligible;
}

pub plain_conditions : ConditionLaws plain
unfolding find
plain_conditions = record {
  get-mark_true = λ t u cs. refl;
  get-mark_false = λ t r s m u cs. refl;
  get-set_aggregate = λ t u ms cs h. refl;
}

some_domain-some :
    (ds : Map FailureDomain) (ms : List Machine) (id : String)
    → some_domain ds ms ≡ some id
    → (m : Machine) × Memᴰ m ms × (m.spec.failure_domain ≡ some id)
unfolding some_domain
some_domain-some ds [] id h = absurd (ground arith)
some_domain-some ds (m ∷ ms) id h = elim (Option-cases m.spec.failure_domain) [
  | inl nowhere ↦
      let (m', among, there) = some_domain-some ds ms id (ground (arith, nowhere)) in
      (m', Memᴰ.tail among, there)
  | inr (id', somewhere) ↦ elim (Bool-cases (is_some (lookup id' ds))) [
    | inl known ↦ (m, Memᴰ.head refl, ground (arith, somewhere, known))
    | inr unknown ↦
        let (m', among, there) = some_domain-some ds ms id (ground (arith, somewhere, unknown)) in
        (m', Memᴰ.tail among, there)
  ]
]

some_domain-tail :
    (ds : Map FailureDomain) (x : Machine) (ms : List Machine)
    → some_domain ds (x ∷ ms) ≡ none
    → some_domain ds ms ≡ none
unfolding some_domain
some_domain-tail ds x ms h = ground arith

some_domain-none :
    (ds : Map FailureDomain) (ms : List Machine) (m : Machine) (id : String)
    → some_domain ds ms ≡ none
    → Memᴰ m ms
    → m.spec.failure_domain ≡ some id
    → is_some (lookup id ds) ≡ false
unfolding some_domain
some_domain-none ds [] m id h among there = elim among [ ]
some_domain-none ds (x ∷ ms) m id h (Memᴰ.head same) there =
    let somewhere : x.spec.failure_domain ≡ some id = rw (sym same) there in
    elim (Bool-cases (is_some (lookup id ds))) [
      | inl known ↦ absurd (ground (arith, somewhere, known))
      | inr unknown ↦ unknown
    ]
some_domain-none ds (x ∷ ms) m id h (Memᴰ.tail among) there =
    some_domain-none ds ms m id (some_domain-tail ds x ms h) among there

pub plain_domains : DomainLaws plain
plain_domains = record {
  in_domain = λ fd m. refl;
  oldest-some = λ m ms. refl;
  pick_most-some = λ ds all ms id h. some_domain-some ds ms id h;
  pick_most-none = λ ds all ms m id h among there. some_domain-none ds ms m id h among there;
}

without_contains :
    (f : String) (fs : List String) → contains (filterb (λ g. not (g == f)) fs) f ≡ false
unfolding contains filterb
without_contains f [] = refl
without_contains f (g ∷ fs) = ground (arith, without_contains f fs)

pub plain_finalizers : FinalizerLaws plain
unfolding contains
plain_finalizers = record {
  contains-remove = λ m f. without_contains f m.finalizers;
  contains-add = λ m f. ground (arith, eq_refl f);
}

-- Nothing is found, and whatever is written is refused.
abbrev pub nothing : Api
nothing = record {
  get_answer = λ k key h. exit missing;
  list_answer = λ k s h. ok [];
  create_answer = λ k o h. exit refused;
  update_answer = λ k o h. exit refused;
  update_status_answer = λ k o h. exit refused;
  delete_answer = λ k key h. exit missing;
  owner_cluster_answer = λ m h. ok none;
  owner_machine_answer = λ m h. ok none;
  config_owner_answer = λ m h. ok none;
  cluster_by_name_answer = λ ns n h. exit missing;
  owned_machines_answer = λ c m h. ok [];
  template_answer = λ i h. exit refused;
  external_delete_answer = λ r h. ok tt;
  patch_answer = λ k o b h. ok tt;
  workload_client_answer = λ s h. ok tt;
  remote_image_answer = λ s k h. exit missing;
  remote_digest_answer = λ s k h. exit missing;
  http_answer = λ s h. exit missing;
  name_answer = λ s h. s;
}

-- A run that starts at an object, with no call before.
abbrev pub at_start : {L : Type 0} → L → Env L
at_start l = record { local = l; calls = [] }
