-- ===== src/Examples/Files.antt =====
-- Images, pull secrets, certificates and mirrors.
use cluster_api_agent.Prelude.{
  ℕ, ◌≤◌, String, true, ◌≡◌, refl, List, [], ◌∷◌, some, none, arith, lookup, insert, cut,
  has_prefix,
}
use cluster_api_agent.Kube.Errors.{ok}
use cluster_api_agent.Kube.Objects.{ConfigMap, Image, Layer, file, symlink}
use cluster_api_agent.Containers.{
  Codecs, extract_file_from_image, keychain_resolve, max_symlink_depth, pull_secret_keychain,
  scan_layers, resolve,
}
use cluster_api_agent.Containers.Credentials.{Resolved, pull_secret_keychain_resolves}
use cluster_api_agent.Containers.Symlinks.{
  Resolves, here, through, extract_file_from_image_follows, extract_file_from_image_sound,
}
use cluster_api_agent.AssistedInstaller.Client.{Certificates}
use cluster_api_agent.Kube.Meta.{no_type, named}
use cluster_api_agent.ControlPlane.ImageRegistry.{RegistryTree, MirrorConfigs, get_image_registries}
use cluster_api_agent.ControlPlane.ImageRegistry.Sets.{IsRead, get_image_registries-IsRead}
use cluster_api_agent.ControlPlane.ImageRegistry.Manifests.{
  Encoders, generate_image_registry_configmap, generate_image_digest_mirror_set,
  generate_image_tag_mirror_set, generate_openshift_image_config,
}
use cluster_api_agent.ControlPlane.ImageRegistry.Manifests.Contents.{
  Holds, generate_image_registry_configmap-Holds,
}

abbrev codecs : Codecs
codecs = record {
  unmarshal_auths = λ s. ok (("quay.io", "me:secret") ∷ []);
  decode_base64 = λ s. ok s;
  parse_reference = λ s. ok s;
  join_dir = λ p l. l;
}

-- A file behind a link, and a link to itself.
abbrev layers : List Layer
layers =
    record {
      steps = ok (file "data" (ok "text") ∷ symlink "link" "/data" ∷ symlink "loop" "/loop" ∷ []);
      close = ok tt;
    }
    ∷ []

abbrev image : Image
image = record { layers = ok layers }

link-Resolves : Resolves codecs layers "/link" 1 "text"
unfolding scan_layers resolve has_prefix
link-Resolves = through refl (here refl)

extract_file_from_image_follows_example : extract_file_from_image codecs image "/link" ≡ ok "text"
extract_file_from_image_follows_example =
    extract_file_from_image_follows codecs image layers refl link-Resolves (omega arith)

extract_file_from_image_sound_example :
    (n : ℕ) × (n ≤ max_symlink_depth) × Resolves codecs layers "/link" n "text"
unfolding extract_file_from_image has_prefix
extract_file_from_image_sound_example =
    extract_file_from_image_sound codecs image layers "/link" {text = "text"} refl refl

pull_secret_keychain_resolves_example :
    Resolved codecs "quay.io" (some "me:secret") (
      keychain_resolve
        (("quay.io", record { username = "me"; password = "secret" }) ∷ [])
        "quay.io")
unfolding lookup pull_secret_keychain cut insert
pull_secret_keychain_resolves_example =
    pull_secret_keychain_resolves codecs "secret" "quay.io" refl (refl, tt) refl

abbrev certificates : Certificates
certificates = record {
  Pool = List String;
  system_cert_pool = ok [];
  append_certs_from_pem = λ pool pem. some (pem ∷ pool);
  default_transport = true;
}

-- A registry with a mirror for tags and an insecure one for digests.
abbrev registries : List RegistryTree
registries =
    record {
      location = some "quay.io";
      mirror = some (
          record {
            location = some "mirror/tags";
            insecure = none;
            pull_from_mirror = some "tag-only";
          }
          ∷ record { location = some "mirror/all"; insecure = some true; pull_from_mirror = none }
          ∷ []);
    }
    ∷ []

abbrev read_configs : MirrorConfigs
read_configs = record {
  digest_mirrors = record { source = "quay.io"; mirrors = "mirror/all" ∷ [] } ∷ [];
  tag_mirrors = record { source = "quay.io"; mirrors = "mirror/tags" ∷ [] } ∷ [];
  insecure_registries = "mirror/all" ∷ [];
}

get_image_registries-IsRead_example : IsRead registries read_configs
unfolding get_image_registries
get_image_registries-IsRead_example =
    get_image_registries-IsRead (λ s. ok (some registries)) "conf" refl refl

-- The texts of the manifests are told apart by their first letters.
abbrev encoders : Encoders
encoders = record {
  load_toml = λ s. ok (some registries);
  marshal_digest_mirror_set = λ m. ok "digests";
  marshal_tag_mirror_set = λ m. ok "tags";
  marshal_config_map = λ m. ok "certificate";
  marshal_image_config = λ m. ok "image";
}

abbrev image_registry : ConfigMap
image_registry = record {
  type_meta = no_type;
  meta = named "registry" "ns";
  contents = ("registries.conf", "conf") ∷ [];
}

abbrev spoke : ConfigMap
spoke = record {
  type_meta = no_type;
  meta = named "additional-registry-config" "ns";
  contents =
      ("image-digest-mirror-set.json", "digests")
      ∷ ("image-tag-mirror-set.json", "tags")
      ∷ ("image-config.json", "image")
      ∷ [];
}

generate_image_registry_configmap-Holds_example :
    (conf : String) × (configs : MirrorConfigs) × (lookup "registries.conf" image_registry.contents
      ≡ some conf)
    × (get_image_registries encoders.load_toml conf ≡ ok configs)
    × Holds encoders configs none spoke.contents
unfolding lookup get_image_registries generate_image_registry_configmap insert
    generate_image_digest_mirror_set generate_image_tag_mirror_set generate_openshift_image_config
generate_image_registry_configmap-Holds_example =
    generate_image_registry_configmap-Holds encoders image_registry "ns" spoke refl
