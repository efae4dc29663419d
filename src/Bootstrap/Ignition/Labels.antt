-- ===== src/Bootstrap/Ignition/Labels.antt =====
-- What the ignition of a configuration carries: getIgnitionConfig of
-- bootstrap/internal/controller/openshiftassistedconfig_controller.go.
use cluster_api_agent.Prelude.{String, ◌≡◌, ◌<>◌, refl, List, ◌∷◌, true, split, join}
use cluster_api_agent.Prelude.Splits.{LackAll, split-join}
use cluster_api_agent.Kube.Errors.{Err, Outcome, ok}
use cluster_api_agent.Bootstrap.Types.{OpenshiftAssistedConfig}
use cluster_api_agent.Bootstrap.Ignition.{
  File, IgnitionConfig, create_ignition_file, get_ignition_config_overrides, get_ignition_config,
  kubelet_custom_labels_systemd_unit,
}
use mathlib.Core.List.{Memᴰ}

-- An executable file that overwrites what is there, with a script that base64 decodes to, which adds the
-- labels to the environment of the kubelet, and the unit that runs it.
pub record Carries (decode_base64 : String → String) (labels : List String) (c : IgnitionConfig)
    : Type 0 where
  pub file : File
  pub encoded : String
  pub text : String
  pub among : Memᴰ file c.files
  pub path : file.path ≡ "/usr/local/bin/kubelet_custom_labels"
  pub mode : file.mode ≡ 493
  pub source : file.source ≡ "data:text/plain;charset=utf-8;base64," <> encoded
  pub script :
      decode_base64 encoded
      ≡ "#!/bin/bash\necho \"CUSTOM_KUBELET_LABELS=" <> text
        <> "\" | tee -a /etc/kubernetes/kubelet-env >/dev/null\n"
  pub listed : split b',' text ≡ labels
  pub runs : Memᴰ kubelet_custom_labels_systemd_unit c.units

module _ (marshal : IgnitionConfig → Outcome Err String)
    (encode_base64 decode_base64 : String → String)
    (decode-encode : (s : String) → decode_base64 (encode_base64 s) ≡ s) where
  -- Where the labels of the kubelet are at least one and none has a comma, every ignition that is
  -- given is that of a configuration that writes a script which sets exactly these labels, and runs
  -- it.
  pub get_ignition_config-Carries :
      (config : OpenshiftAssistedConfig) (label : String) (labels : List String) (text : String)
      → config.spec.node_registration.kubelet_extra_labels ≡ label ∷ labels
      → LackAll b',' (label ∷ labels)
      → get_ignition_config marshal encode_base64 config ≡ ok text
      → (c : IgnitionConfig) × (marshal c ≡ ok text) × Carries decode_base64 (label ∷ labels) c
  unfolding get_ignition_config get_ignition_config_overrides create_ignition_file
  get_ignition_config-Carries config label labels text given lack h = (
    _,
    h,
    record {
      file =
          create_ignition_file "/usr/local/bin/kubelet_custom_labels" "root"
            ("data:text/plain;charset=utf-8;base64," <> _) 493 true;
      encoded = _;
      text = join "," config.spec.node_registration.kubelet_extra_labels;
      among = Memᴰ.tail (Memᴰ.head refl);
      path = refl;
      mode = refl;
      source = refl;
      script = decode-encode _;
      listed = rw given (split-join label labels lack);
      runs = Memᴰ.tail (Memᴰ.head refl);
    },
  )
