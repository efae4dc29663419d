-- ===== src/AssistedInstaller/Query.antt =====
-- The URL of the ignition, against the events URL of the InfraEnv: getIgnitionURLFromInfraEnv of
-- assistedinstaller/infraenv.go.
use cluster_api_agent.Prelude.{
  String, false, ◌<>◌, ◌≡◌, refl, List, some, lookup, Map, [], ◌∷◌, inl, inr, arith,
}
use cluster_api_agent.Kube.Errors.{ok, Outcome-cases}
use cluster_api_agent.Kube.Objects.{InfraEnv}
use cluster_api_agent.AssistedInstaller.{
  ServiceConfig, Url, Urls, first_value, query_parameters, get_ignition_url_from_infra_env,
}

-- url.ParseQuery reads what Values.Encode writes: of every key, the value.
pub record QueryLaws (urls : Urls) : Type 0 where
  pub parse-encode :
      (values : Map String)
      → (q : Map (List String)) × (urls.parse_query (urls.encode values) ≡ ok q)
        × ((key : String) → first_value (lookup key q) ≡ lookup key values)

-- The query of a URL has the value for the key.
pub Asks : Urls → String → String → String → Type 0
Asks urls raw_query key value =
    (q : Map (List String)) × (urls.parse_query raw_query ≡ ok q)
    × (first_value (lookup key q) ≡ some value)

-- The URL asks for the ignition of the InfraEnv and with the key of the advertised URL.
pub record Follows (urls : Urls) (config : ServiceConfig) (advertised url : Url) : Type 0 where
  pub api_key : String
  pub infra_env_id : String
  pub given_key : Asks urls advertised.raw_query "api_key" api_key
  pub given_id : Asks urls advertised.raw_query "infra_env_id" infra_env_id
  pub asked_key : Asks urls url.raw_query "api_key" api_key
  pub asked_file : Asks urls url.raw_query "file_name" "discovery.ign"
  pub path : url.path ≡ "/api/assisted-install/v2/infra-envs/" <> infra_env_id <> "/downloads/files"
  pub scheme : config.use_internal_image_url ≡ false → url.scheme ≡ advertised.scheme

-- The values of the query that is written.
abbrev values_of : String → Map String
values_of key = ("file_name", "discovery.ign") ∷ ("api_key", key) ∷ []

lookup-values :
    (key : String)
    → (lookup "api_key" (values_of key) ≡ some key)
      × (lookup "file_name" (values_of key) ≡ some "discovery.ign")
unfolding lookup
lookup-values key = (refl, refl)

module _ (urls : Urls) (laws : QueryLaws urls) where
  Asks-encode :
      (values : Map String) (key value : String)
      → lookup key values ≡ some value
      → Asks urls (urls.encode values) key value
  unfolding Asks
  Asks-encode values key value h =
      let (q, parsed, same) = laws.parse-encode values in (q, parsed, ground (arith, same key))

  first_values :
      (q : Map (List String)) (key id : String)
      → query_parameters urls q ≡ ok (key, id)
      → (first_value (lookup "api_key" q) ≡ some key)
        × (first_value (lookup "infra_env_id" q) ≡ some id)
  unfolding query_parameters
  first_values q key id h = ground arith

  -- Where the query of a URL is read as it was written, a URL that is given is that of the ignition
  -- of the InfraEnv that the events URL names, and its query has the events URL's key and the file
  -- of the ignition; outside the cluster it keeps the scheme.
  pub get_ignition_url_from_infra_env-Follows :
      (config : ServiceConfig) (infra_env : InfraEnv) (url : Url)
      → get_ignition_url_from_infra_env urls config infra_env ≡ ok url
      → (advertised : Url) × (urls.parse infra_env.events_url ≡ ok advertised)
        × Follows urls config advertised url
  unfolding get_ignition_url_from_infra_env query_parameters Asks
  get_ignition_url_from_infra_env-Follows config infra_env url h =
      elim (Outcome-cases (urls.parse infra_env.events_url)) [
        | inl (e, failed) ↦ absurd (ground (arith, failed))
        | inr (advertised, parsed) ↦ elim (Outcome-cases (urls.parse_query advertised.raw_query)) [
          | inl (e, failed) ↦ absurd (ground (arith, parsed, failed))
          | inr (q, read) ↦ elim (Outcome-cases (query_parameters urls q)) [
            | inl (e, failed) ↦ absurd (ground (arith, parsed, read, failed))
            | inr ((key, id), found) ↦
                let (has_key, has_id) = first_values q key id found in
                let written : url.raw_query ≡ urls.encode (values_of key) =
                  ground (arith, parsed, read, found) in
                (
                  advertised,
                  parsed,
                  record {
                    api_key = key;
                    infra_env_id = id;
                    given_key = (q, read, has_key);
                    given_id = (q, read, has_id);
                    asked_key =
                        rw written
                          (Asks-encode (values_of key) "api_key" key (lookup-values key).0);
                    asked_file = rw written (
                        Asks-encode (values_of key) "file_name" "discovery.ign"
                          (lookup-values key).1);
                    path = ground (arith, parsed, read, found);
                    scheme = λ outside. ground (arith, parsed, read, found);
                  },
                )
          ]
        ]
      ]
