-- ===== src/Examples/Serving.antt =====
-- The way of a configuration, with the server of Installing.
use cluster_api_agent.Prelude.{refl, [], ◌∷◌, some, lookup, arith}
use cluster_api_agent.Kube.Errors.{ok}
use cluster_api_agent.AssistedInstaller.{get_ignition_url_from_infra_env}
use cluster_api_agent.Bootstrap.Types.{OpenshiftAssistedConfig}
use cluster_api_agent.Bootstrap.ConfigController.{Tools, run_body}
use cluster_api_agent.Bootstrap.ConfigController.Keeping.{NameLaws, IsServed}
use cluster_api_agent.Bootstrap.ConfigController.Completing.{Installs, run_body_serves}
use cluster_api_agent.Bootstrap.Lifecycle.{here, next, run}
use cluster_api_agent.Bootstrap.Lifecycle.Serving.{StaysReferred, Reach-StaysReferred}
use cluster_api_agent.Bootstrap.Lifecycle.Path.{completed}
use cluster_api_agent.ControlPlane.Common.{machine_control_plane_label}
use cluster_api_agent.Kube.Meta.{named}
use cluster_api_agent.Examples.Objects.{
  config, cluster, cluster_deployment, installation, machine_named, owner,
}
use cluster_api_agent.Examples.World.{plain, missing, at_start}
use cluster_api_agent.Examples.Installing.{environment, tools_at, installing}

abbrev tools : Tools
tools = tools_at installing

laws : NameLaws installing plain
laws = record {
  name-get = λ key h s e. ground arith;
  name-create = λ o h s e. ground arith;
  name-set_owner_reference = λ o m m' e. ground arith;
  add_finalizer-rest = λ m f. refl;
  remove_finalizer-rest = λ m f. refl;
}

there : Installs tools
unfolding lookup get_ignition_url_from_infra_env
there = record {
  owner = owner;
  cluster = cluster;
  node = record (machine_named "m0") {
    meta = record (named "m0" "ns") { labels = (machine_control_plane_label, "") ∷ [] };
  };
  deployment = record cluster_deployment {
    cluster_install_ref = some (record { group = ""; version = ""; kind = ""; name = "cp" });
  };
  installation = record { group = ""; version = ""; kind = ""; name = "cp" };
  aci = installation;
  env = environment;
  url = record {
    scheme = "http";
    hostname = "";
    port = "";
    host = "h";
    path = "/api/assisted-install/v2/infra-envs/i/downloads/files";
    raw_query = "";
  };
  request = "h";
  response = record { status_code = 200; body = ok "ignition" };
  ignition = "ignition";
  absent = missing;
  owned = λ o m. m;
  reference = λ t m. record {
    api_version = t.api_version;
    kind = t.kind;
    namespace = m.namespace;
    name = m.name;
  };
  owner_found = λ m h. refl;
  cluster_found = λ ns n h. refl;
  infrastructure = refl;
  machine_found = λ m h. refl;
  of_control_plane = refl;
  machine_named = refl;
  deployment_found = λ s h. refl;
  installing = refl;
  installation_found = λ key h. refl;
  env_created = λ o h. refl;
  env_found = λ key h. refl;
  referenced = λ t m. refl;
  ignition_url = refl;
  requested = refl;
  client = refl;
  answered = λ u h. refl;
  good = refl;
  readable = refl;
  secret_absent = λ key h. refl;
  is_absent = refl;
  ownable = λ o m. refl;
  patched = λ o observed h. refl;
  secret_created = λ o h. refl;
}

abbrev booted : OpenshiftAssistedConfig
booted = completed tools laws there [] [] "http://iso" config

config-IsServed : IsServed config
config-IsServed = record { named = λ h. ground arith; imaged = λ h. ground arith }

-- After its first run.
abbrev begun : OpenshiftAssistedConfig
begun = (run_body tools (at_start config)).1.local

Reach-StaysReferred_example : StaysReferred config begun
Reach-StaysReferred_example =
    Reach-StaysReferred tools laws (λ c h. refl) config-IsServed (next here (run [] config))
      (run_body_serves tools there laws (at_start config) refl).1
