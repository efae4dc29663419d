-- ===== src/ControlPlane/Machines/Domains.antt =====
-- The failure domain that a scale-down picks has a machine to delete: NextFailureDomainForScaleDown of
-- util/failuredomains, and selectMachineForScaleDown of
-- controlplane/internal/controller/openshiftassistedcontrolplane_controller.go.
use mathlib.Core.List.{Memᴰ}
use cluster_api_agent.Prelude.{
  ◌<◌, String, Bool, true, ◌≡◌, refl, List, [], ◌∷◌, Option, none, some, is_some, is_empty, lookup,
  arith, length, filterb, Option-cases, Bool-cases, eq_refl, inl, inr, sym, ap, ◌∙◌, ◌≢◌, Map,
  if◌then◌else◌,
}
use cluster_api_agent.Kube.Objects.{Cluster, Machine, FailureDomain}
use cluster_api_agent.Kube.Library.{Library, DomainLaws, same_domain}
use cluster_api_agent.ControlPlane.Machines.{
  next_failure_domain_for_scale_down, has_delete_annotation,
}

-- The machine stands in no failure domain, or in one that the cluster has for control planes.
abbrev pub is_placed : Library → Cluster → Machine → Bool
is_placed lib cluster m = elim m.spec.failure_domain [
  | none ↦ true
  | some id ↦ is_some (lookup id (lib.filter_control_plane cluster.failure_domains))
]

abbrev pub AllPlaced : Library → Cluster → List Machine → Type 0
AllPlaced lib cluster [] = Unit
AllPlaced lib cluster (m ∷ ms) = (is_placed lib cluster m ≡ true) × AllPlaced lib cluster ms

-- The machine that a scale-down would take.
abbrev pub candidate : Library → Cluster → List Machine → Option Machine
candidate lib cluster ms =
    lib.oldest
      (filterb (lib.in_failure_domain (next_failure_domain_for_scale_down lib cluster ms)) ms)

no_domain :
    (ds : Map FailureDomain) (id : String) → is_empty ds ≡ true → is_some (lookup id ds) ≢ true
unfolding lookup
no_domain [] id empty h = ground arith
no_domain (d ∷ ds) id empty h = ground arith

placed_member :
    (lib : Library) (cluster : Cluster) (ms : List Machine) (m : Machine)
    → AllPlaced lib cluster ms
    → Memᴰ m ms
    → is_placed lib cluster m ≡ true
placed_member lib cluster [] m all among = elim among [ ]
placed_member lib cluster (x ∷ ms) m (here, all) (Memᴰ.head same) = rw same here
placed_member lib cluster (x ∷ ms) m (here, all) (Memᴰ.tail among) =
    placed_member lib cluster ms m all among

kept_member :
    (m x : Machine) (ms rest : List Machine)
    → (Memᴰ m rest → Memᴰ m ms)
    → Memᴰ m (x ∷ rest)
    → Memᴰ m (x ∷ ms)
kept_member m x ms rest back (Memᴰ.head same) = Memᴰ.head same
kept_member m x ms rest back (Memᴰ.tail among) = Memᴰ.tail (back among)

filterb_member :
    (p : Machine → Bool) (ms : List Machine) (m : Machine) → Memᴰ m (filterb p ms) → Memᴰ m ms
unfolding filterb
filterb_member p [] m among = among
filterb_member p (x ∷ ms) m among = elim (Bool-cases (p x)) [
  | inl kept ↦
      kept_member m x ms (filterb p ms) (filterb_member p ms m) (rw (kept, filterb) at among)
  | inr left ↦ Memᴰ.tail (filterb_member p ms m (rw (left, filterb) at among))
]

member-filterb :
    (p : Machine → Bool) (ms : List Machine) (m : Machine)
    → Memᴰ m ms
    → p m ≡ true
    → (y : Machine) × (ys : List Machine) × (filterb p ms ≡ y ∷ ys)
unfolding filterb
member-filterb p [] m among passes = elim among [ ]
member-filterb p (x ∷ ms) m (Memᴰ.head same) passes =
    let kept : p x ≡ true = rw (sym same) passes in (x, filterb p ms, rw kept refl)
member-filterb p (x ∷ ms) m (Memᴰ.tail among) passes = elim (Bool-cases (p x)) [
  | inl kept ↦ (x, filterb p ms, rw (kept, filterb) refl)
  | inr left ↦ let (y, ys, e) = member-filterb p ms m among passes in (y, ys, rw (left, filterb) e)
]

-- The first of the machines, of those with the annotation where there are such.
first_eligible :
    (ms : List Machine)
    → 0 < length ms
    → let eligible = filterb has_delete_annotation ms in
      (m : Machine) × Memᴰ m (if is_empty eligible then ms else eligible)
first_eligible [] some_there = absurd (omega arith)
first_eligible (m ∷ ms) some_there =
    go (m ∷ ms) (filterb has_delete_annotation (m ∷ ms)) m (Memᴰ.head refl)
  where
    go :
        (all eligible : List Machine) (m : Machine)
        → Memᴰ m all
        → (m : Machine) × Memᴰ m (if is_empty eligible then all else eligible)
    go all [] m among = (m, among)
    go all (x ∷ xs) m among = (x, Memᴰ.head refl)

eligible_member :
    (ms : List Machine) (m : Machine)
    → let eligible = filterb has_delete_annotation ms in
      Memᴰ m (if is_empty eligible then ms else eligible) → Memᴰ m ms
eligible_member ms m among = elim (Bool-cases (is_empty (filterb has_delete_annotation ms))) [
  | inl without ↦ rw without at among
  | inr with ↦ filterb_member has_delete_annotation ms m (rw with at among)
]

module _ (lib : Library) (laws : DomainLaws lib) where
  found_in :
      (fd : Option String) (ms : List Machine) (m : Machine)
      → Memᴰ m ms
      → same_domain fd m.spec.failure_domain ≡ true
      → is_some (lib.oldest (filterb (lib.in_failure_domain fd) ms)) ≡ true
  found_in fd ms m among there =
      let (y, ys, e) =
        member-filterb (lib.in_failure_domain fd) ms m among (laws.in_domain fd m ∙ there) in
      rw e (laws.oldest-some y ys)

  candidate_in :
      (cluster : Cluster) (fd : Option String) (ms : List Machine) (m : Machine)
      → next_failure_domain_for_scale_down lib cluster ms ≡ fd
      → Memᴰ m ms
      → same_domain fd m.spec.failure_domain ≡ true
      → is_some (candidate lib cluster ms) ≡ true
  candidate_in cluster fd ms m picked among there =
      ap (λ d. is_some (lib.oldest (filterb (lib.in_failure_domain d) ms))) picked
      ∙ found_in fd ms m among there

  -- Where every machine stands in no failure domain or in one that the cluster has, a scale-down
  -- finds a machine to delete where there is any.
  pub some_candidate :
      (cluster : Cluster) (ms : List Machine)
      → AllPlaced lib cluster ms
      → 0 < length ms
      → is_some (candidate lib cluster ms) ≡ true
  unfolding next_failure_domain_for_scale_down
  some_candidate cluster ms placed some_there =
      let ds = lib.filter_control_plane cluster.failure_domains in
      let eligible = filterb has_delete_annotation ms in
      let picks = if is_empty eligible then ms else eligible in
      let (m, chosen) = first_eligible ms some_there in
      let among = eligible_member ms m chosen in
      let good = placed_member lib cluster ms m placed among in
      elim (Bool-cases (is_empty ds)) [
        | inl empty ↦ elim (Option-cases m.spec.failure_domain) [
          | inl nowhere ↦
              candidate_in cluster none ms m (ground (arith, empty)) among (rw nowhere refl)
          | inr (id, somewhere) ↦ absurd (no_domain ds id empty (ground (arith, good, somewhere)))
        ]
        | inr full ↦ elim (Option-cases (lib.pick_most ds ms picks)) [
          | inl unpicked ↦ elim (Option-cases m.spec.failure_domain) [
            | inl nowhere ↦
                candidate_in cluster none ms m (ground (arith, full, unpicked)) among
                  (rw nowhere refl)
            | inr (id, somewhere) ↦ absurd (
                ground (
                  arith,
                  good,
                  somewhere,
                  laws.pick_most-none ds ms picks m id unpicked chosen somewhere,
                ))
          ]
          | inr (id, picked) ↦
              let (m', chosen', there) = laws.pick_most-some ds ms picks id picked in
              candidate_in cluster (some id) ms m' (ground (arith, full, picked))
                (eligible_member ms m' chosen') (rw there (eq_refl id))
        ]
      ]
