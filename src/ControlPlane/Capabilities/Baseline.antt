-- ===== src/ControlPlane/Capabilities/Baseline.antt =====
-- The baseline capability: getBaselineCapability of
-- controlplane/internal/controller/clusterdeployment_controller.go.
use text.Mathlib.TextLemmas.{nil-append, cons-append}
use cluster_api_agent.Prelude.{
  String, Bool, true, false, ◌==◌, ◌<>◌, ◌≡◌, ◌||◌, ◌⊎◌, arith, eq_iff, matches_v4, starts_v4_digit,
}
use cluster_api_agent.Kube.Errors.{ok}
use cluster_api_agent.ControlPlane.Capabilities.{get_baseline_capability}

-- A baseline that is accepted is None, vCurrent, or a text with a v4 version somewhere in it; and
-- it is the one that was given, unless none was.
pub get_baseline_capability_accepted :
    (capability : String) (is_baremetal_platform : Bool) {baseline : String}
    → get_baseline_capability capability is_baremetal_platform ≡ ok baseline
    → ((baseline == "None" || (baseline == "vCurrent" || matches_v4 baseline)) ≡ true)
      × ((baseline ≡ capability) ⊎ (capability ≡ ""))
unfolding get_baseline_capability
get_baseline_capability_accepted capability is_baremetal_platform {baseline} h = ground (
  arith,
  eq_iff capability "",
  eq_iff capability "None",
  eq_iff capability "vCurrent",
  eq_iff baseline "None",
  eq_iff baseline "vCurrent",
)

matches_v4_of_head : (t : String) → starts_v4_digit t ≡ true → matches_v4 t ≡ true
unfolding matches_v4
matches_v4_of_head String.[] h = ground arith
matches_v4_of_head (String.◌∷◌ c t) h = ground arith

matches_v4-append : (p t : String) → starts_v4_digit t ≡ true → matches_v4 (p <> t) ≡ true
unfolding matches_v4
matches_v4-append String.[] t h = rw nil-append (matches_v4_of_head t h)
matches_v4-append (String.◌∷◌ c p) t h = rw cons-append (ground (arith, matches_v4-append p t h))

-- The pattern of the versions is not anchored: whatever stands before and after `v4.` and a digit,
-- the whole text is taken for a baseline.
pub get_baseline_capability_unanchored :
    (before version : String) (is_baremetal_platform : Bool)
    → starts_v4_digit version ≡ true
    → ((before <> version) == "") ≡ false
    → get_baseline_capability (before <> version) is_baremetal_platform ≡ ok (before <> version)
unfolding get_baseline_capability
get_baseline_capability_unanchored before version is_baremetal_platform h =
    ground (arith, matches_v4-append before version h)
