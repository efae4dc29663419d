-- ===== src/AssistedInstaller/Client/Trust.antt =====
-- When the HTTP client trusts a bundle.
use cluster_api_agent.Prelude.{
  String, false, ◌≡◌, ◌==◌, ◌⊎◌, some, arith, lookup, ◌∷◌, inl, inr, eq_iff, Option-cases,
  Bool-cases,
}
use cluster_api_agent.Kube.Errors.{ok, Outcome-cases}
use cluster_api_agent.Kube.Objects.{ConfigMap}
use cluster_api_agent.Kube.Kinds.{config_map}
use cluster_api_agent.Kube.Api.{Api, Call, Env}
use cluster_api_agent.AssistedInstaller.{ServiceConfig}
use cluster_api_agent.AssistedInstaller.Client.{
  Certificates, HttpClient, plain, trusting, trust, get_assisted_http_client,
}

-- Nothing is configured, and the client is the zero value.
abbrev pub IsPlain :
    (certificates : Certificates) → ServiceConfig → HttpClient certificates.Pool → Type 0
IsPlain certificates config client =
    (config.assisted_ca_bundle_name ≡ "")
    × (config.assisted_ca_bundle_namespace ≡ "")
    × (client ≡ plain)

-- The client trusts a bundle, on top of the system's pool.
abbrev pub Appended : (certificates : Certificates) → String → HttpClient certificates.Pool → Type 0
Appended certificates bundle client =
    (system : certificates.Pool) × (trusted : certificates.Pool) × (certificates.system_cert_pool
      ≡ ok system)
    × (certificates.append_certs_from_pem system bundle ≡ some trusted)
    × (client ≡ trusting trusted)

-- The client trusts a bundle that the configured config map holds.
abbrev pub IsTrusting :
    {L : Type 0}
    → Api
    → (certificates : Certificates) → ServiceConfig
    → Env L
    → HttpClient certificates.Pool
    → Type 0
IsTrusting api certificates config env client =
    (cm : ConfigMap) × (bundle : String) × (api.get_answer config_map
        (record {
          namespace = config.assisted_ca_bundle_namespace;
          name = config.assisted_ca_bundle_name;
        })
        env.calls
      ≡ ok cm)
    × (lookup config.assisted_ca_bundle_key cm.contents ≡ some bundle)
    × Appended certificates bundle client

trust-Appended :
    {L : Type 0} (api : Api) (certificates : Certificates) (bundle : String) (env : Env L)
    {client : HttpClient certificates.Pool}
    → (trust api certificates bundle env).0 ≡ ok client
    → Appended certificates bundle client
unfolding trust
trust-Appended api certificates bundle env h = elim (Outcome-cases certificates.system_cert_pool) [
  | inl (e, refused) ↦ absurd (ground arith)
  | inr (system, loaded) ↦ elim (Option-cases (certificates.append_certs_from_pem system bundle)) [
    | inl bad ↦ absurd (ground arith)
    | inr (trusted, appended) ↦ (system, trusted, loaded, appended, ground arith)
  ]
]

found-IsTrusting :
    {L : Type 0} (api : Api) (certificates : Certificates) (config : ServiceConfig) (env : Env L)
    {client : HttpClient certificates.Pool}
    → (config.assisted_ca_bundle_name == "") ≡ false
    → (get_assisted_http_client api certificates config env).0 ≡ ok client
    → IsTrusting api certificates config env client
unfolding get_assisted_http_client
found-IsTrusting api certificates config env named h =
    elim (Outcome-cases (
      api.get_answer config_map
        (record {
          namespace = config.assisted_ca_bundle_namespace;
          name = config.assisted_ca_bundle_name;
        })
        env.calls)) [
          | inl (e, refused) ↦ absurd (ground arith)
          | inr (cm, found) ↦
              elim (Option-cases (lookup config.assisted_ca_bundle_key cm.contents)) [
                | inl missing ↦ absurd (ground arith)
                | inr (bundle, held) ↦
                    let env' = record env {
                      calls =
                          Call.get config_map (record {
                            namespace = config.assisted_ca_bundle_namespace;
                            name = config.assisted_ca_bundle_name;
                          })
                          ∷ env.calls;
                    } in
                    (
                      cm,
                      bundle,
                      found,
                      held,
                      trust-Appended api certificates bundle env' (ground arith),
                    )
              ]
        ]

-- A client that is given is the plain one, where neither the name nor the namespace of the bundle is
-- set, or trusts the bundle of the config map on top of the system's pool: with a bundle configured
-- there is no falling back to the system's pool alone.
pub get_assisted_http_client_trusts :
    {L : Type 0} (api : Api) (certificates : Certificates) (config : ServiceConfig) (env : Env L)
    {client : HttpClient certificates.Pool}
    → (get_assisted_http_client api certificates config env).0 ≡ ok client
    → IsPlain certificates config client ⊎ IsTrusting api certificates config env client
unfolding get_assisted_http_client
get_assisted_http_client_trusts api certificates config env {client} h =
    elim (Bool-cases (config.assisted_ca_bundle_name == "")) [
      | inl no_name ↦ inl (
          ground (
            arith,
            eq_iff config.assisted_ca_bundle_name "",
            eq_iff config.assisted_ca_bundle_namespace "",
          ))
      | inr named ↦ inr (found-IsTrusting api certificates config env named h)
    ]
