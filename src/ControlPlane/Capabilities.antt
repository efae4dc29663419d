-- ===== src/ControlPlane/Capabilities.antt =====
-- The capability overrides of controlplane/internal/controller/clusterdeployment_controller.go.
pub mod Lists
pub mod Baseline
use cluster_api_agent.Prelude.{
  String, Bool, true, false, ◌==◌, ◌&&◌, ◌||◌, not, ◌<>◌, List, [], ◌∷◌, ◌++◌, insert, contains,
  equal_fold, matches_v4, is_empty, if◌then◌else◌,
}
use cluster_api_agent.Kube.Errors.{Err, Outcome, ok, exit, error}
use cluster_api_agent.Kube.Objects.{AgentClusterInstall, PlatformType, bare_metal_platform}
use cluster_api_agent.ControlPlane.Types.{OpenshiftAssistedControlPlane, Capabilities}

abbrev pub install_config_overrides : String
install_config_overrides = "agent-install.openshift.io/install-config-overrides"

abbrev pub default_baremetal_additional_capabilities : List String
default_baremetal_additional_capabilities =
    "baremetal" ∷ "Console" ∷ "Insights" ∷ "OperatorLifecycleManager" ∷ "Ingress" ∷ []

-- configv1.ClusterVersionCapabilitiesSpec
pub record CapabilitiesSpec : Type 0 where
  pub baseline_capability_set : String
  pub additional_enabled_capabilities : List String

unfoldable pub get_baseline_capability : String → Bool → Outcome Err String
get_baseline_capability capability is_baremetal_platform =
    if capability == "None" || capability == "vCurrent"
    then ok capability
    else if capability == ""
    then ok (if is_baremetal_platform then "None" else "vCurrent")
    else if matches_v4 capability
    then ok capability
    else exit (
        error (
          "invalid baseline capability set, must be one of: None, vCurrent, or v4.x. Got: ["
          <> capability <> "]"))

-- The loop over the specified capabilities: one call, on the list that the round leaves.
unfoldable pub capability_loop : Bool → List String → List String → List String
capability_loop baremetal [] acc = acc
capability_loop baremetal (capability ∷ rest) acc = capability_loop baremetal rest (
    if (equal_fold capability "MachineAPI" && baremetal) || contains acc capability
    then acc
    else acc ++ capability ∷ [])

unfoldable pub get_additional_capabilities : List String → Bool → List String
unfolding capability_loop
get_additional_capabilities specified is_baremetal_platform =
    capability_loop is_baremetal_platform specified
      (if is_baremetal_platform then default_baremetal_additional_capabilities else [])

-- equality.Semantic.DeepEqual with the zero value: nil and empty lists are equal.
unfoldable pub is_capabilities_empty : Capabilities → Bool
is_capabilities_empty c = c.baseline_capability == "" && is_empty c.additional_enabled_capabilities

abbrev pub is_bare_metal : PlatformType → Bool
is_bare_metal bare_metal_platform = true
is_bare_metal _ = false

-- json.Marshal of the override is a parameter.
module _ (marshal : CapabilitiesSpec → Outcome Err String) where
  unfoldable pub set_aci_capabilities :
      OpenshiftAssistedControlPlane → AgentClusterInstall → Outcome Err AgentClusterInstall
  unfolding is_capabilities_empty get_baseline_capability
  set_aci_capabilities oacp aci =
      let baremetal = is_bare_metal aci.spec.platform_type in
      let capabilities = oacp.spec.config.capabilities in
      if is_capabilities_empty capabilities && not baremetal
      then ok aci
      else elim (get_baseline_capability capabilities.baseline_capability baremetal) [
        | exit e ↦ exit e
        | ok baseline ↦
            elim (marshal (record {
              baseline_capability_set = baseline;
              additional_enabled_capabilities =
                  get_additional_capabilities capabilities.additional_enabled_capabilities
                    baremetal;
            })) [
              | exit e ↦ exit e
              | ok text ↦ ok (record aci {
                meta = record aci.meta {
                  annotations = insert install_config_overrides text aci.meta.annotations;
                };
              })
            ]
      ]
