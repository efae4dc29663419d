-- ===== src/AssistedInstaller/Client.antt =====
-- assistedinstaller/client.go: the HTTP client that trusts the configured CA bundle.
pub mod Trust
use cluster_api_agent.Prelude.{
  String, Bool, ◌==◌, ◌&&◌, ◌||◌, ◌<>◌, Option, none, some, lookup, if◌then◌else◌,
}
use cluster_api_agent.Kube.Errors.{Err, Outcome, error, wrap}
use cluster_api_agent.Kube.Kinds.{config_map}
use cluster_api_agent.Kube.Api.{Api, Exec, pure, fail, lift, catch, ◌>>=◌}
use cluster_api_agent.Kube.Calls.{get}
use cluster_api_agent.AssistedInstaller.{ServiceConfig}

-- x509.SystemCertPool, AppendCertsFromPEM, and whether http.DefaultTransport is an *http.Transport.
pub record Certificates : Type 1 where
  pub Pool : Type 0
  pub system_cert_pool : Outcome Err Pool
  pub append_certs_from_pem : Pool → String → Option Pool
  pub default_transport : Bool

-- http.Client: the zero value, or with a clone of the default transport that trusts a pool.
pub data HttpClient (Pool : Type 0) : Type 0 where
  plain : HttpClient Pool
  trusting : Pool → HttpClient Pool

module _ {L : Type 0} (api : Api) (certificates : Certificates) where
  open certificates use {Pool, system_cert_pool, append_certs_from_pem, default_transport}

  trust : String → Exec L Err (HttpClient Pool)
  trust bundle_pem = do
    pool ← catch (lift system_cert_pool) (λ e. fail (wrap "failed to obtain system cert pool: " e))
    elim (append_certs_from_pem pool bundle_pem) [
      | none ↦ fail (error "failed to append additional certificates")
      | some trusted ↦
          if default_transport
          then pure (trusting trusted)
          else fail (error "expected http.DefaultTransport to be of type *http.Transport")
    ]

  unfoldable pub get_assisted_http_client : ServiceConfig → Exec L Err (HttpClient Pool)
  unfolding trust
  get_assisted_http_client config =
      if config.assisted_ca_bundle_name == "" && config.assisted_ca_bundle_namespace == ""
      then pure plain
      else if config.assisted_ca_bundle_name == "" || config.assisted_ca_bundle_namespace == ""
      then fail (
          error
            "ASSISTED_CA_BUNDLE_NAME and ASSISTED_CA_BUNDLE_NAMESPACE must either both be set or unset")
      else (do
        cm ← get api config_map (record {
          namespace = config.assisted_ca_bundle_namespace;
          name = config.assisted_ca_bundle_name;
        })
        elim (lookup config.assisted_ca_bundle_key cm.contents) [
          | none ↦ fail (
              error (
                "key " <> config.assisted_ca_bundle_key <> " not found in configmap "
                <> config.assisted_ca_bundle_namespace <> "/" <> config.assisted_ca_bundle_name))
          | some bundle_pem ↦ trust bundle_pem
        ])
