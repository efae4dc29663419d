-- ===== src/ControlPlane/Capabilities/Lists.antt =====
-- The list of the additional capabilities: getAdditionalCapabilities of
-- controlplane/internal/controller/clusterdeployment_controller.go.
use cluster_api_agent.Prelude.{
  String, Bool, true, false, not, ◌==◌, ◌≡◌, ◌&&◌, ◌||◌, refl, List, [], ◌∷◌, ◌++◌, arith, contains,
  equal_fold, eq_iff, Bool-cases, inl, inr, if◌then◌else◌,
}
use cluster_api_agent.ControlPlane.Capabilities.{
  capability_loop, get_additional_capabilities, default_baremetal_additional_capabilities,
}

contains-append :
    (xs : List String) (x c : String) → contains (xs ++ x ∷ []) c ≡ (contains xs c || x == c)
unfolding contains
contains-append [] x c = ground arith
contains-append (y ∷ xs) x c = ground (arith, contains-append xs x c)

abbrev pub NoDuplicates : List String → Type 0
NoDuplicates [] = Unit
NoDuplicates (x ∷ xs) = (contains xs x ≡ false) × NoDuplicates xs

append-NoDuplicates :
    (xs : List String) (x : String)
    → NoDuplicates xs
    → contains xs x ≡ false
    → NoDuplicates (xs ++ x ∷ [])
unfolding contains
append-NoDuplicates [] x h fresh = (refl, tt)
append-NoDuplicates (y ∷ xs) x h fresh =
    ground (arith, eq_iff x y, eq_iff y x, contains-append xs x y, append-NoDuplicates xs x h.1)

capability_loop-NoDuplicates :
    (baremetal : Bool) (specified acc : List String)
    → NoDuplicates acc
    → NoDuplicates (capability_loop baremetal specified acc)
unfolding capability_loop
capability_loop-NoDuplicates baremetal [] acc h = h
capability_loop-NoDuplicates baremetal (x ∷ rest) acc h =
    elim (Bool-cases ((equal_fold x "MachineAPI" && baremetal) || contains acc x)) [
      | inl skipped ↦ rw skipped (capability_loop-NoDuplicates baremetal rest acc h)
      | inr taken ↦ rw taken (
          capability_loop-NoDuplicates baremetal rest (acc ++ x ∷ [])
            (append-NoDuplicates acc x h (ground arith)))
    ]

-- No capability is listed twice, whatever the specification repeats.
pub get_additional_capabilities-NoDuplicates :
    (specified : List String) (is_baremetal_platform : Bool)
    → NoDuplicates (get_additional_capabilities specified is_baremetal_platform)
unfolding get_additional_capabilities contains
get_additional_capabilities-NoDuplicates specified true =
    capability_loop-NoDuplicates true specified default_baremetal_additional_capabilities
      (refl, (refl, (refl, (refl, (refl, tt)))))
get_additional_capabilities-NoDuplicates specified false =
    capability_loop-NoDuplicates false specified [] tt

abbrev pub is_taken : Bool → String → Bool
is_taken baremetal c = not (equal_fold c "MachineAPI" && baremetal)

contains-capability_step :
    (baremetal : Bool) (x : String) (acc : List String) (c : String)
    → contains
        (if (equal_fold x "MachineAPI" && baremetal) || contains acc x then acc else acc ++ x ∷ [])
        c
      ≡ (contains acc c || (x == c && is_taken baremetal c))
contains-capability_step baremetal x acc c = elim (Bool-cases (x == c)) [
  | inl same ↦
      let e : x ≡ c = (eq_iff x c).0 same in
      rw (← e) (ground (arith, contains-append acc x x, eq_iff x x))
  | inr other ↦ ground (arith, contains-append acc x c)
]

contains-capability_loop :
    (baremetal : Bool) (specified acc : List String) (c : String)
    → contains (capability_loop baremetal specified acc) c
      ≡ (contains acc c || (contains specified c && is_taken baremetal c))
unfolding capability_loop contains
contains-capability_loop baremetal [] acc c = ground arith
contains-capability_loop baremetal (x ∷ rest) acc c =
    rw (contains-capability_loop baremetal rest _ c, contains-capability_step baremetal x acc c)
      (ground arith)

-- Exactly these capabilities are listed: the defaults of a bare-metal platform, and those of the
-- specification, of which a bare-metal platform leaves out MachineAPI in any letter case.
pub contains-get_additional_capabilities :
    (specified : List String) (is_baremetal_platform : Bool) (c : String)
    → contains (get_additional_capabilities specified is_baremetal_platform) c ≡ (
        contains (if is_baremetal_platform then default_baremetal_additional_capabilities else []) c
        || (contains specified c && is_taken is_baremetal_platform c))
unfolding get_additional_capabilities
contains-get_additional_capabilities specified is_baremetal_platform c =
    contains-capability_loop is_baremetal_platform specified _ c
