-- ===== src/Examples/Naming.antt =====
-- The names that a release and a machine carry: the tag of an image stream, the labels of a kubelet.
use cluster_api_agent.Prelude.{String, ◌≡◌, refl, [], ◌∷◌, List, lookup, split, arith}
use cluster_api_agent.Prelude.Splits.{LackAll}
use cluster_api_agent.Kube.Errors.{Err, Outcome, ok}
use cluster_api_agent.Bootstrap.Types.{OpenshiftAssistedConfig}
use cluster_api_agent.Bootstrap.Ignition.{
  IgnitionConfig, get_ignition_config, get_ignition_config_overrides,
}
use cluster_api_agent.Bootstrap.Ignition.Labels.{Carries, get_ignition_config-Carries}
use cluster_api_agent.ControlPlane.Version.{Tag, kubernetes_of, get_k8s_version_from_image_stream}
use cluster_api_agent.ControlPlane.Version.Tags.{
  FirstNamed, get_k8s_version_from_image_stream-FirstNamed,
}
use cluster_api_agent.Examples.Objects.{config}

abbrev tags : List Tag
tags =
    []
    ∷ (("io.openshift.build.versions", "machine-os=417.94") ∷ [])
    ∷ (("io.openshift.build.versions", "kubernetes=1.30.4") ∷ [])
    ∷ []

-- The second tag names the operating system only.
the_third_tag : get_k8s_version_from_image_stream tags ≡ ok "1.30.4"
unfolding get_k8s_version_from_image_stream kubernetes_of lookup split
the_third_tag = refl

get_k8s_version_from_image_stream-FirstNamed_example : FirstNamed "1.30.4" tags
get_k8s_version_from_image_stream-FirstNamed_example =
    (get_k8s_version_from_image_stream-FirstNamed tags "1.30.4").0 the_third_tag

abbrev labelled : OpenshiftAssistedConfig
labelled = record config {
  spec = record config.spec {
    node_registration = record { name = ""; kubelet_extra_labels = "a=b" ∷ "zone=east" ∷ [] };
  };
}

abbrev marshal : IgnitionConfig → Outcome Err String
marshal c = ok c.version

lacking : LackAll b',' ("a=b" ∷ "zone=east" ∷ [])
lacking = ground arith

get_ignition_config-Carries_example :
    (c : IgnitionConfig) × (marshal c ≡ ok "3.1.0") × Carries (λ s. s) ("a=b" ∷ "zone=east" ∷ []) c
unfolding get_ignition_config get_ignition_config_overrides
get_ignition_config-Carries_example =
    get_ignition_config-Carries marshal (λ s. s) (λ s. s) (λ s. refl) labelled "a=b"
      ("zone=east" ∷ []) "3.1.0" refl lacking refl
