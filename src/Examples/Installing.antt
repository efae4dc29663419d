-- ===== src/Examples/Installing.antt =====
-- An API server that has what a machine of the control plane needs to boot.
use cluster_api_agent.Prelude.{true, false, List, [], ◌∷◌, some}
use cluster_api_agent.Kube.Errors.{Err, Outcome, ok, exit}
use cluster_api_agent.Kube.Meta.{named, no_type}
use cluster_api_agent.Kube.Objects.{Agent, InfraEnv}
use cluster_api_agent.Kube.Kinds.{Kind, Obj}
use cluster_api_agent.Kube.Api.{Api}
use cluster_api_agent.AssistedInstaller.{ServiceConfig, Urls, Url, get_infra_env_from_config}
use cluster_api_agent.Bootstrap.Types.{OpenshiftAssistedConfig}
use cluster_api_agent.ControlPlane.Common.{machine_control_plane_label}
use cluster_api_agent.Bootstrap.ConfigController.{Tools}
use cluster_api_agent.Examples.Objects.{
  config, owner, cluster, cluster_deployment, installation, machine_named,
}
use cluster_api_agent.Examples.World.{plain, nothing, missing}

abbrev pub a_url : Url
a_url = record { scheme = "http"; hostname = "h"; port = ""; host = "h"; path = ""; raw_query = "" }

abbrev pub urls : Urls
urls = record {
  parse = λ s. ok a_url;
  parse_query = λ s. ok (("api_key", "k" ∷ []) ∷ ("infra_env_id", "i" ∷ []) ∷ []);
  print = λ u. u.host;
  encode = λ m. "";
  new_request = λ s. ok s;
}

abbrev pub service : ServiceConfig
service = record {
  use_internal_image_url = false;
  image_service_name = "";
  image_service_namespace = "";
  assisted_service_name = "";
  assisted_installer_namespace = "";
  assisted_ca_bundle_namespace = "";
  assisted_ca_bundle_name = "";
  assisted_ca_bundle_key = "";
}

abbrev pub tools_at : Api → Tools
tools_at api = record {
  api = api;
  lib = plain;
  urls = urls;
  decimal = λ n. "0";
  config = service;
  http_client = true;
}

-- The InfraEnv of the machine, with its URLs.
abbrev pub environment : InfraEnv
environment = record (get_infra_env_from_config "m0" config cluster_deployment) {
  meta = record (named "m0" "ns") {
    owner_references =
        record {
          api_version = "v1beta1";
          kind = "Machine";
          name = "m0";
          uid = "";
          controller = true;
        }
        ∷ [];
  };
  iso_download_url = "http://iso";
  events_url = "http://events";
}

abbrev pub booted_agent : Agent
booted_agent = record {
  type_meta = no_type;
  meta = record (named "agent" "ns") {
    labels = ("infraenvs.agent-install.openshift.io", "m0") ∷ [];
  };
  role = "";
  ignition_config_overrides = "";
  approved = false;
}

abbrev pub installed : (k : Kind) → Outcome Err (Obj k)
installed Kind.infra_env = ok environment
installed Kind.agent_cluster_install = ok installation
installed Kind.machine = ok (machine_named "m0")
installed Kind.assisted_config = ok config
installed Kind.agent = ok booted_agent
installed k = exit missing

abbrev pub deployed : (k : Kind) → Outcome Err (List (Obj k))
deployed Kind.cluster_deployment = ok (
    record cluster_deployment {
      cluster_install_ref = some (record { group = ""; version = ""; kind = ""; name = "cp" });
    }
    ∷ [])
deployed k = ok []

-- An API server that has all that a machine of the control plane needs to boot.
abbrev pub installing : Api
installing = record nothing {
  get_answer = λ k key h. installed k;
  list_answer = λ k s h. deployed k;
  create_answer = λ k o h. ok o;
  update_answer = λ k o h. ok o;
  update_status_answer = λ k o h. ok o;
  config_owner_answer = λ m h. ok (some owner);
  cluster_by_name_answer = λ ns n h. ok cluster;
  owner_machine_answer = λ m h. ok (
      some (record (machine_named "m0") {
        meta = record (named "m0" "ns") { labels = (machine_control_plane_label, "") ∷ [] };
      }));
  http_answer = λ s h. ok (record { status_code = 200; body = ok "ignition" });
}

abbrev pub with_url : OpenshiftAssistedConfig
with_url = record config { status = record config.status { iso_download_url = "http://iso" } }
