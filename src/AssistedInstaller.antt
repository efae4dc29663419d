-- ===== src/AssistedInstaller.antt =====
-- assistedinstaller/: its configuration, the ClusterDeployment and InfraEnv literals, and the
-- ignition URL.
pub mod Client
pub mod Query
use cluster_api_agent.Prelude.{
  String, Bool, true, ◌==◌, ◌<>◌, List, [], ◌∷◌, Option, none, some, Map, lookup, insert,
  if◌then◌else◌,
}
use cluster_api_agent.Kube.Errors.{Err, Outcome, ok, exit, error}
use cluster_api_agent.Kube.Meta.{no_type, named}
use cluster_api_agent.Kube.Objects.{ClusterDeployment, InfraEnv}
use cluster_api_agent.Kube.Kinds.{key_of}
use cluster_api_agent.Kube.Library.{Library}
use cluster_api_agent.ControlPlane.Types.{OpenshiftAssistedControlPlane}
use cluster_api_agent.ControlPlane.Common.{
  cluster_name_label, control_plane_machine_labels_for_cluster,
}
use cluster_api_agent.Bootstrap.Types.{OpenshiftAssistedConfig}

pub record ServiceConfig : Type 0 where
  pub use_internal_image_url : Bool
  pub image_service_name : String
  pub image_service_namespace : String
  pub assisted_service_name : String
  pub assisted_installer_namespace : String
  pub assisted_ca_bundle_namespace : String
  pub assisted_ca_bundle_name : String
  pub assisted_ca_bundle_key : String

unfoldable pub get_cluster_deployment_from_config :
    Library → OpenshiftAssistedControlPlane → String → ClusterDeployment
get_cluster_deployment_from_config lib acp cluster_name =
    let config = acp.spec.config in
    record {
      type_meta = no_type;
      meta = record (named acp.meta.name acp.meta.namespace) {
        labels = control_plane_machine_labels_for_cluster lib acp cluster_name;
      };
      cluster_name = if config.cluster_name == "" then cluster_name else config.cluster_name;
      base_domain = config.base_domain;
      agent_bare_metal = true;
      pull_secret_ref = config.pull_secret_ref;
      cluster_install_ref = some (record {
        group = "extensions.hive.openshift.io";
        version = "v1beta1";
        kind = "AgentClusterInstall";
        name = acp.meta.name;
      });
    }

abbrev pub openshift_assisted_config_label : String
openshift_assisted_config_label = "bootstrap.cluster.x-k8s.io/openshiftAssistedConfig"

abbrev with_label : String → Option String → Map String → Map String
with_label key none labels = labels
with_label key (some value) labels = insert key value labels

unfoldable pub get_infra_env_from_config :
    String → OpenshiftAssistedConfig → ClusterDeployment → InfraEnv
get_infra_env_from_config name config cd =
    let spec = config.spec in
    record {
      type_meta = no_type;
      meta = record (named name config.meta.namespace) {
        labels =
            with_label cluster_name_label (lookup cluster_name_label config.meta.labels)
              ((openshift_assisted_config_label, config.meta.name) ∷ []);
      };
      spec = record {
        additional_ntp_sources = spec.additional_ntp_sources;
        additional_trust_bundle = spec.additional_trust_bundle;
        cluster_ref = some (key_of cd.meta);
        cpu_architecture = spec.cpu_architecture;
        kernel_arguments = spec.kernel_arguments;
        nmstate_config_label_selector = spec.nmstate_config_label_selector;
        os_image_version = spec.os_image_version;
        proxy = spec.proxy;
        pull_secret_ref = spec.pull_secret_ref;
        ssh_authorized_key = spec.ssh_authorized_key;
        image_type = "full-iso";
      };
      iso_download_url = "";
      events_url = "";
    }

-- net/url: a parsed URL, as far as the program reads or writes it.
pub record Url : Type 0 where
  pub scheme : String
  pub hostname : String
  pub port : String
  pub host : String
  pub path : String
  pub raw_query : String

-- url.Parse, url.ParseQuery, URL.String, Values.Encode; http.NewRequest gives the URL it asks for.
pub record Urls : Type 0 where
  pub parse : String → Outcome Err Url
  pub parse_query : String → Outcome Err (Map (List String))
  pub print : Url → String
  pub encode : Map String → String
  pub new_request : String → Outcome Err String

-- `len(q[k]) < 1`, and the first value
unfoldable pub first_value : Option (List String) → Option String
first_value none = none
first_value (some []) = none
first_value (some (v ∷ vs)) = some v

-- The host that is asked for the ignition.
unfoldable pub ignition_host : ServiceConfig → InfraEnv → Url → String
ignition_host config infra_env advertised =
    if config.use_internal_image_url
    then config.assisted_service_name
      <> "."
      <> (if config.assisted_installer_namespace == ""
          then infra_env.meta.namespace
          else config.assisted_installer_namespace)
      <> ".svc.cluster.local:8090"
    else if advertised.port == ""
    then advertised.hostname
    else advertised.hostname <> ":" <> advertised.port

module _ (urls : Urls) where
  -- The two parameters of the query, in the order in which they are asked for.
  unfoldable pub query_parameters : Map (List String) → Outcome Err (String × String)
  unfolding first_value
  query_parameters q = elim (first_value (lookup "api_key" q)) [
    | none ↦ exit (error "no api_key found in query string")
    | some api_key ↦ elim (first_value (lookup "infra_env_id" q)) [
      | none ↦ exit (error "no infra_env_id found in query string")
      | some infra_env_id ↦ ok (api_key, infra_env_id)
    ]
  ]

  unfoldable pub get_ignition_url_from_infra_env : ServiceConfig → InfraEnv → Outcome Err Url
  unfolding query_parameters ignition_host
  get_ignition_url_from_infra_env config infra_env =
      if infra_env.events_url == ""
      then exit (error "cannot generate ignition url if events URL is not generated")
      else elim (urls.parse infra_env.events_url) [
        | exit e ↦ exit e
        | ok advertised ↦ elim (urls.parse_query advertised.raw_query) [
          | exit e ↦ exit e
          | ok q ↦ elim (query_parameters q) [
            | exit e ↦ exit e
            | ok (api_key, infra_env_id) ↦ ok (record {
              scheme = if config.use_internal_image_url then "http" else advertised.scheme;
              hostname = "";
              port = "";
              host = ignition_host config infra_env advertised;
              path = "/api/assisted-install/v2/infra-envs/" <> infra_env_id <> "/downloads/files";
              raw_query = urls.encode (("file_name", "discovery.ign") ∷ ("api_key", api_key) ∷ []);
            })
          ]
        ]
      ]
