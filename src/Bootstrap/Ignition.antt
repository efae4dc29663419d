-- ===== src/Bootstrap/Ignition.antt =====
-- bootstrap/internal/ignition, and getIgnitionConfig of bootstrap/internal/controller.
pub mod Labels
use cluster_api_agent.Prelude.{ℕ, String, Bool, true, ◌<>◌, List, [], ◌∷◌, ◌++◌, join}
use cluster_api_agent.Kube.Errors.{Err, Outcome}
use cluster_api_agent.Bootstrap.Types.{OpenshiftAssistedConfig}

-- The fields of an ignition file that the program sets.
pub record File : Type 0 where
  pub path : String
  pub overwrite : Bool
  pub user : String
  pub source : String
  pub mode : ℕ

pub record SystemdUnit : Type 0 where
  pub name : String
  pub enabled : Bool
  pub contents : String

pub record IgnitionConfig : Type 0 where
  pub version : String
  pub files : List File
  pub units : List SystemdUnit

unfoldable pub create_ignition_file : String → String → String → ℕ → Bool → File
create_ignition_file path user content mode overwrite = record {
  path = path;
  overwrite = overwrite;
  user = user;
  source = content;
  mode = mode;
}

abbrev pub configdrive_metadata_systemd_unit : SystemdUnit
configdrive_metadata_systemd_unit = record {
  name = "configdrive-metadata.service";
  enabled = true;
  contents =
      "[Unit]\nDescription=Configdrive Metadata\nBefore=kubelet-customlabels.service\nAfter=ostree-finalize-staged.service\n\n[Service]\nType=oneshot\n\nExecStart=/usr/local/bin/configdrive_metadata\n[Install]\nWantedBy=multi-user.target\n";
}

abbrev pub kubelet_custom_labels_systemd_unit : SystemdUnit
kubelet_custom_labels_systemd_unit = record {
  name = "kubelet-customlabels.service";
  enabled = true;
  contents =
      "[Unit]\nDescription=Kubelet Custom Labels\nBefore=kubelet.service\nAfter=ostree-finalize-staged.service\n\n[Service]\nType=oneshot\nEnvironmentFile=/etc/metadata_env\n\nExecStart=/usr/local/bin/kubelet_custom_labels\n[Install]\nWantedBy=multi-user.target\n";
}

abbrev pub get_systemd_units : List SystemdUnit
get_systemd_units = configdrive_metadata_systemd_unit ∷ kubelet_custom_labels_systemd_unit ∷ []

abbrev configdrive_script : String
configdrive_script =
    "data:text/plain;charset=utf-8;base64,IyEvYmluL2Jhc2gKCmVudl9maWxlPS9ldGMvbWV0YWRhdGFfZW52CmNvbmZpZ19kaXI9JChta3RlbXAgLWQpCnN1ZG8gbW91bnQgLUwgY29uZmlnLTIgJGNvbmZpZ19kaXIKY2F0ICRjb25maWdfZGlyL29wZW5zdGFjay9sYXRlc3QvbWV0YV9kYXRhLmpzb24gfCBqcSAtciAnLiB8IGtleXNbXScgfCB3aGlsZSByZWFkIGtleTsgZG8gdmFsdWU9JChqcSAtciAiLltcIiRrZXlcIl0iICRjb25maWdfZGlyL29wZW5zdGFjay9sYXRlc3QvbWV0YV9kYXRhLmpzb24pOyBlY2hvICJNRVRBREFUQV8kKGVjaG8gJHtrZXl9IHwgdHIgYS16IEEtWiB8IHRyIC0gXyk9JHt2YWx1ZX0iOyBkb25lIHwgc29ydCB8IHVuaXEgfCBzdWRvIHRlZSAkZW52X2ZpbGUK"

abbrev success_content : String
success_content = "data:text/plain;charset=utf-8;base64,c3VjY2Vzcw=="

-- json.Marshal of an ignition configuration, and base64's EncodeToString.
module _ (marshal : IgnitionConfig → Outcome Err String) where
  unfoldable pub get_ignition_config_overrides : List File → Outcome Err String
  unfolding create_ignition_file
  get_ignition_config_overrides files = marshal (record {
    version = "3.1.0";
    files =
        files
        ++ create_ignition_file "/usr/local/bin/configdrive_metadata" "root" configdrive_script 493
            true
          ∷ [];
    units = get_systemd_units;
  })

  module _ (encode_base64 : String → String) where
    unfoldable pub get_ignition_config : OpenshiftAssistedConfig → Outcome Err String
    unfolding create_ignition_file
    get_ignition_config config =
        let labels = join "," config.spec.node_registration.kubelet_extra_labels in
        let content =
          "#!/bin/bash\necho \"CUSTOM_KUBELET_LABELS=" <> labels
          <> "\" | tee -a /etc/kubernetes/kubelet-env >/dev/null\n" in
        get_ignition_config_overrides (
          create_ignition_file "/run/cluster-api/bootstrap-success.complete" "root" success_content
            420 true
          ∷ create_ignition_file "/usr/local/bin/kubelet_custom_labels" "root"
              ("data:text/plain;charset=utf-8;base64," <> encode_base64 content) 493 true
          ∷ [])
