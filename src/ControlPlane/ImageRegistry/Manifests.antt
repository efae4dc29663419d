-- ===== src/ControlPlane/ImageRegistry/Manifests.antt =====
-- controlplane/internal/imageregistry/image_registry.go: the ConfigMap of the manifests for the
-- workload cluster. json.Marshal, at each of the four types that it is given, is a parameter.
pub mod Contents
use cluster_api_agent.Prelude.{
  String, Bool, true, false, not, ◌||◌, ◌<>◌, List, [], ◌∷◌, Option, none, some, Map, lookup,
  insert, is_empty, is_some, if◌then◌else◌,
}
use cluster_api_agent.Kube.Errors.{Err, Outcome, ok, exit, error}
use cluster_api_agent.Kube.Meta.{TypeMeta, ObjectMeta, no_type, no_meta, named}
use cluster_api_agent.Kube.Objects.{ConfigMap}
use cluster_api_agent.ControlPlane.ImageRegistry.{
  RegistryTree, ImageMirrors, MirrorConfigs, get_image_registries,
}

-- configv1.ImageDigestMirrorSet and ImageTagMirrorSet
pub record MirrorSet : Type 0 where
  pub type_meta : TypeMeta
  pub meta : ObjectMeta
  pub mirrors : List ImageMirrors

-- configv1.Image
pub record ClusterImageConfig : Type 0 where
  pub type_meta : TypeMeta
  pub meta : ObjectMeta
  pub additional_trusted_ca : String
  pub insecure_registries : List String

pub record Encoders : Type 0 where
  pub load_toml : String → Outcome Err (Option (List RegistryTree))
  pub marshal_digest_mirror_set : MirrorSet → Outcome Err String
  pub marshal_tag_mirror_set : MirrorSet → Outcome Err String
  pub marshal_config_map : ConfigMap → Outcome Err String
  pub marshal_image_config : ClusterImageConfig → Outcome Err String

abbrev config_group_version : String
config_group_version = "config.openshift.io/v1"

abbrev pub registry_conf_key : String
registry_conf_key = "registries.conf"

abbrev pub registry_cert_key : String
registry_cert_key = "ca-bundle.crt"

abbrev image_registry_name : String
image_registry_name = "additional-registry"

abbrev registry_cert_config_map_name : String
registry_cert_config_map_name = "additional-registry-certificate"

abbrev registry_cert_config_map_namespace : String
registry_cert_config_map_namespace = "openshift-config"

abbrev pub image_config_map_name : String
image_config_map_name = "additional-registry-config"

abbrev pub image_digest_mirror_set_key : String
image_digest_mirror_set_key = "image-digest-mirror-set.json"

abbrev pub image_tag_mirror_set_key : String
image_tag_mirror_set_key = "image-tag-mirror-set.json"

abbrev pub registry_cert_config_map_key : String
registry_cert_config_map_key = "additional-registry-certificate.json"

abbrev pub image_config_key : String
image_config_key = "image-config.json"

unfoldable pub mirror_set : String → List ImageMirrors → MirrorSet
mirror_set kind mirrors = record {
  type_meta = record { api_version = config_group_version; kind = kind };
  meta = record no_meta { name = image_registry_name };
  mirrors = mirrors;
}

unfoldable pub certificate_config_map : String → ConfigMap
certificate_config_map certificate = record {
  type_meta = record { api_version = "v1"; kind = "ConfigMap" };
  meta = named registry_cert_config_map_name registry_cert_config_map_namespace;
  contents = (registry_cert_key, certificate) ∷ [];
}

unfoldable pub cluster_image_config : List String → Bool → ClusterImageConfig
cluster_image_config insecure_registries add_registry_cert = record {
  type_meta = record { api_version = config_group_version; kind = "Image" };
  meta = record no_meta { name = "cluster" };
  additional_trusted_ca = if add_registry_cert then registry_cert_config_map_name else "";
  insecure_registries = insecure_registries;
}

-- `if cond { v, err := marshal(); if err != nil { return nil, err }; data[key] = v }`
unfoldable pub put_if :
    Bool → String → Outcome Err String → Outcome Err (Map String) → Outcome Err (Map String)
put_if false key marshalled contents = contents
put_if true key (ok text) (ok contents) = ok (insert key text contents)
put_if true key (exit e) (ok contents) = exit e
put_if true key marshalled (exit e) = exit e

module _ (encoders : Encoders) where
  open encoders use {
    load_toml, marshal_digest_mirror_set, marshal_tag_mirror_set, marshal_config_map,
    marshal_image_config,
  }

  unfoldable pub generate_image_digest_mirror_set : List ImageMirrors → Outcome Err String
  unfolding mirror_set
  generate_image_digest_mirror_set mirrors =
      marshal_digest_mirror_set (mirror_set "ImageDigestMirrorSet" mirrors)

  unfoldable pub generate_image_tag_mirror_set : List ImageMirrors → Outcome Err String
  unfolding mirror_set
  generate_image_tag_mirror_set mirrors =
      marshal_tag_mirror_set (mirror_set "ImageTagMirrorSet" mirrors)

  unfoldable pub generate_registry_certificate_config_map : String → Outcome Err String
  unfolding certificate_config_map
  generate_registry_certificate_config_map certificate =
      marshal_config_map (certificate_config_map certificate)

  unfoldable pub generate_openshift_image_config : List String → Bool → Outcome Err String
  unfolding cluster_image_config
  generate_openshift_image_config insecure_registries add_registry_cert =
      marshal_image_config (cluster_image_config insecure_registries add_registry_cert)

  cert_manifest : Option String → Outcome Err String
  unfolding generate_registry_certificate_config_map
  cert_manifest none = ok ""
  cert_manifest (some cert) = generate_registry_certificate_config_map cert

  -- The manifests, the first that the source adds innermost.
  unfoldable pub manifest_contents : MirrorConfigs → Option String → Outcome Err (Map String)
  unfolding put_if cert_manifest
  manifest_contents configs cert =
      put_if (is_some cert || not (is_empty configs.insecure_registries)) image_config_key
        (generate_openshift_image_config configs.insecure_registries (is_some cert))
        (put_if (is_some cert) registry_cert_config_map_key (cert_manifest cert) (
          put_if (not (is_empty configs.tag_mirrors)) image_tag_mirror_set_key
            (generate_image_tag_mirror_set configs.tag_mirrors)
            (put_if (not (is_empty configs.digest_mirrors)) image_digest_mirror_set_key
              (generate_image_digest_mirror_set configs.digest_mirrors) (ok []))))

  unfoldable pub generate_image_registry_configmap : ConfigMap → String → Outcome Err ConfigMap
  unfolding manifest_contents
  generate_image_registry_configmap image_registry namespace =
      elim (lookup registry_conf_key image_registry.contents) [
        | none ↦ exit (
            error (
              "failed to find registry key [" <> registry_conf_key <> "] in configmap "
              <> image_registry.meta.name <> "/" <> namespace
              <> " for image registry configuration"))
        | some registry_conf ↦ elim (get_image_registries load_toml registry_conf) [
          | exit e ↦ exit e
          | ok configs ↦
              elim (manifest_contents configs (lookup registry_cert_key image_registry.contents)) [
                | exit e ↦ exit e
                | ok contents ↦ ok (record {
                  type_meta = no_type;
                  meta = named image_config_map_name namespace;
                  contents = contents;
                })
              ]
        ]
      ]
