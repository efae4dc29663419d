-- ===== src/Examples/Queries.antt =====
-- A query that is read as it was written: every character of a text stands behind an `a`, and a `z`
-- ends the text.
use Prim.Native.Char.{Char, code}
use cluster_api_agent.Prelude.{
  String, ◌≡◌, refl, List, [], ◌∷◌, lookup, Map, nat_eq, if◌then◌else◌, arith,
}
use cluster_api_agent.Kube.Errors.{ok}
use cluster_api_agent.Kube.Objects.{InfraEnv}
use cluster_api_agent.AssistedInstaller.{
  Url, Urls, first_value, ignition_host, query_parameters, get_ignition_url_from_infra_env,
}
use cluster_api_agent.AssistedInstaller.Query.{
  QueryLaws, Follows, get_ignition_url_from_infra_env-Follows,
}
use cluster_api_agent.Examples.Installing.{service, environment}

write_text : String → String → String
write_text String.[] rest = String.◌∷◌ "z" rest
write_text (String.◌∷◌ c s) rest = String.◌∷◌ "a" (String.◌∷◌ c (write_text s rest))

write_query : Map String → String
unfolding write_text
write_query [] = ""
write_query ((key, value) ∷ values) = write_text key (write_text value (write_query values))

longer : Char → List String → List String
longer c [] = []
longer c (s ∷ ss) = String.◌∷◌ c s ∷ ss

read_texts : String → List String
unfolding longer
read_texts String.[] = []
read_texts (String.◌∷◌ m String.[]) = "" ∷ []
read_texts (String.◌∷◌ m (String.◌∷◌ c s)) =
    let skipped = read_texts (String.◌∷◌ c s) in
    let taken = read_texts s in if nat_eq (code m) b'z' then "" ∷ skipped else longer c taken

pairs : List String → Map (List String)
pairs (key ∷ (value ∷ rest)) = (key, value ∷ []) ∷ pairs rest
pairs _ = []

abbrev reading : Urls
reading = record {
  parse = λ s. ok (record {
    scheme = "https";
    hostname = "assisted";
    port = "";
    host = "assisted";
    path = "/events";
    raw_query = s;
  });
  parse_query = λ s. ok (pairs (read_texts s));
  print = λ u. u.host;
  encode = write_query;
  new_request = λ s. ok s;
}

read-write_text : (s rest : String) → read_texts (write_text s rest) ≡ s ∷ read_texts rest
unfolding read_texts write_text longer
read-write_text String.[] String.[] = refl
read-write_text String.[] (String.◌∷◌ c rest) = refl
read-write_text (String.◌∷◌ c s) rest = rw (read-write_text s rest) refl

lookup-pairs :
    (values : Map String) (key : String)
    → first_value (lookup key (pairs (read_texts (write_query values)))) ≡ lookup key values
unfolding write_query pairs lookup first_value read_texts
lookup-pairs [] key = refl
lookup-pairs ((k, v) ∷ values) key =
    rw
      (
        read-write_text k (write_text v (write_query values)),
        read-write_text v (write_query values),
      )
      (ground (arith, lookup-pairs values key))

reading_laws : QueryLaws reading
reading_laws = record { parse-encode = λ values. (_, refl, lookup-pairs values) }

abbrev advertising : InfraEnv
unfolding write_query
advertising = record environment {
  events_url = write_query (("api_key", "k&=") ∷ ("infra_env_id", "i") ∷ []);
}

abbrev ignition_url : Url
unfolding write_query
ignition_url = record {
  scheme = "https";
  hostname = "";
  port = "";
  host = "assisted";
  path = "/api/assisted-install/v2/infra-envs/i/downloads/files";
  raw_query = write_query (("file_name", "discovery.ign") ∷ ("api_key", "k&=") ∷ []);
}

get_ignition_url_from_infra_env-Follows_example :
    (advertised : Url) × (reading.parse advertising.events_url ≡ ok advertised)
    × Follows reading service advertised ignition_url
unfolding get_ignition_url_from_infra_env ignition_host query_parameters write_query write_text
    read_texts longer pairs lookup first_value
get_ignition_url_from_infra_env-Follows_example =
    get_ignition_url_from_infra_env-Follows reading reading_laws service advertising ignition_url
      refl
