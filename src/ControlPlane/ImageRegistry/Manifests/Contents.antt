-- ===== src/ControlPlane/ImageRegistry/Manifests/Contents.antt =====
-- Which manifests the ConfigMap holds.
use cluster_api_agent.Prelude.{
  String, Bool, true, false, not, ◌==◌, ◌≡◌, ◌||◌, ◌&&◌, refl, Option, none, some, Map, lookup,
  lookup-insert, Option-cases, inl, inr, is_empty, is_some, arith, contains, [], ◌∷◌, if◌then◌else◌,
}
use cluster_api_agent.Kube.Errors.{Err, Outcome, ok, exit, is_ok, Outcome-cases}
use cluster_api_agent.Kube.Objects.{ConfigMap}
use cluster_api_agent.ControlPlane.ImageRegistry.{MirrorConfigs, get_image_registries}
use cluster_api_agent.ControlPlane.ImageRegistry.Manifests.{
  Encoders, put_if, manifest_contents, generate_image_registry_configmap, image_config_key,
  registry_cert_config_map_key, image_tag_mirror_set_key, image_digest_mirror_set_key,
  generate_openshift_image_config, generate_image_tag_mirror_set, generate_image_digest_mirror_set,
  cert_manifest, generate_registry_certificate_config_map, registry_conf_key, registry_cert_key,
}

abbrev text_of : Outcome Err String → Option String
text_of (ok text) = some text
text_of (exit e) = none

-- One more manifest, under the keys that are there.
abbrev with_manifest :
    Bool → String → Outcome Err String → (String → Option String) → String → Option String
with_manifest present key marshalled rest k =
    if present && (key == k) then text_of marshalled else rest k

abbrev found : String → Outcome Err (Map String) → Option String
found k (ok m) = lookup k m
found k (exit e) = none

found-put_if :
    (k : String) (present : Bool) (key : String) (marshalled : Outcome Err String)
    (before : Outcome Err (Map String))
    → is_ok (put_if present key marshalled before) ≡ true
    → (is_ok before ≡ true)
      × (found k (put_if present key marshalled before)
          ≡ with_manifest present key marshalled (λ j. found j before) k)
unfolding put_if
found-put_if k false key marshalled before h = (h, refl)
found-put_if k true key (ok text) (ok m) h = (refl, lookup-insert key k text m)
found-put_if k true key (exit e) (ok m) h = absurd (ground arith)
found-put_if k true key marshalled (exit e) h = absurd (ground arith)

-- The text at each of the four keys, if there is to be one, and no other key.
pub record Holds (encoders : Encoders) (configs : MirrorConfigs) (cert : Option String)
    (contents : Map String) : Type 0 where
  pub digests : lookup image_digest_mirror_set_key contents ≡ (
      if is_empty configs.digest_mirrors
      then none
      else text_of (generate_image_digest_mirror_set encoders configs.digest_mirrors))
  pub tags : lookup image_tag_mirror_set_key contents ≡ (
      if is_empty configs.tag_mirrors
      then none
      else text_of (generate_image_tag_mirror_set encoders configs.tag_mirrors))
  pub certificate : lookup registry_cert_config_map_key contents ≡ (elim cert [
    | none ↦ none
    | some c ↦ text_of (generate_registry_certificate_config_map encoders c)
  ])
  pub image_config : lookup image_config_key contents ≡ (
      if is_some cert || not (is_empty configs.insecure_registries)
      then text_of
          (generate_openshift_image_config encoders configs.insecure_registries (is_some cert))
      else none)
  pub others :
      (k : String)
      → contains
          (image_digest_mirror_set_key ∷ image_tag_mirror_set_key ∷ registry_cert_config_map_key
            ∷ image_config_key ∷ [])
          k
        ≡ false
      → lookup k contents ≡ none

module _ (encoders : Encoders) where
  abbrev manifests : MirrorConfigs → Option String → String → Option String
  manifests configs cert =
      with_manifest (is_some cert || not (is_empty configs.insecure_registries)) image_config_key
        (generate_openshift_image_config encoders configs.insecure_registries (is_some cert))
        (with_manifest (is_some cert) registry_cert_config_map_key (cert_manifest encoders cert) (
          with_manifest (not (is_empty configs.tag_mirrors)) image_tag_mirror_set_key
            (generate_image_tag_mirror_set encoders configs.tag_mirrors)
            (with_manifest (not (is_empty configs.digest_mirrors)) image_digest_mirror_set_key
              (generate_image_digest_mirror_set encoders configs.digest_mirrors) (λ k. none))))

  lookup-manifest_contents :
      (configs : MirrorConfigs) (cert : Option String) (contents : Map String) (k : String)
      → manifest_contents encoders configs cert ≡ ok contents
      → lookup k contents ≡ manifests configs cert k
  unfolding manifest_contents lookup
  lookup-manifest_contents configs cert contents k made =
      let insecure = is_some cert || not (is_empty configs.insecure_registries) in
      let image =
        generate_openshift_image_config encoders configs.insecure_registries (is_some cert) in
      let tag = generate_image_tag_mirror_set encoders configs.tag_mirrors in
      let digest = generate_image_digest_mirror_set encoders configs.digest_mirrors in
      let with_digest =
        put_if (not (is_empty configs.digest_mirrors)) image_digest_mirror_set_key digest (ok []) in
      let with_tag =
        put_if (not (is_empty configs.tag_mirrors)) image_tag_mirror_set_key tag with_digest in
      let with_cert =
        put_if (is_some cert) registry_cert_config_map_key (cert_manifest encoders cert) with_tag in
      let all = put_if insecure image_config_key image with_cert in
      let fine : is_ok all ≡ true = rw made refl in
      let (fine1, at1) = found-put_if k insecure image_config_key image with_cert fine in
      let (fine2, at2) =
        found-put_if k (is_some cert) registry_cert_config_map_key (cert_manifest encoders cert)
          with_tag fine1 in
      let (fine3, at3) =
        found-put_if k (not (is_empty configs.tag_mirrors)) image_tag_mirror_set_key tag with_digest
          fine2 in
      let (fine4, at4) =
        found-put_if k (not (is_empty configs.digest_mirrors)) image_digest_mirror_set_key digest
          (ok []) fine3 in
      let whole : found k all ≡ manifests configs cert k = rw (at1, at2, at3, at4) refl in
      rw made at whole

  contents-Holds :
      (configs : MirrorConfigs) (cert : Option String) (contents : Map String)
      → manifest_contents encoders configs cert ≡ ok contents
      → Holds encoders configs cert contents
  unfolding contains cert_manifest
  contents-Holds configs cert contents made = record {
    digests =
        ground
          (arith, lookup-manifest_contents configs cert contents image_digest_mirror_set_key made);
    tags =
        ground
          (arith, lookup-manifest_contents configs cert contents image_tag_mirror_set_key made);
    certificate =
        ground
          (arith, lookup-manifest_contents configs cert contents registry_cert_config_map_key made);
    image_config =
        ground (arith, lookup-manifest_contents configs cert contents image_config_key made);
    others = λ k none_of. ground (arith, lookup-manifest_contents configs cert contents k made);
  }

  -- A ConfigMap that is generated holds, of the registries.conf that it was generated from: a set of
  -- digest mirrors and one of tag mirrors where there are such mirrors, the certificate where there
  -- is one, the image configuration where there is a certificate or an insecure registry, and
  -- nothing else.
  pub generate_image_registry_configmap-Holds :
      (image_registry : ConfigMap) (namespace : String) (cm : ConfigMap)
      → generate_image_registry_configmap encoders image_registry namespace ≡ ok cm
      → (conf : String) × (configs : MirrorConfigs) × (lookup registry_conf_key
            image_registry.contents
          ≡ some conf)
        × (get_image_registries encoders.load_toml conf ≡ ok configs)
        × Holds encoders configs (lookup registry_cert_key image_registry.contents) cm.contents
  unfolding generate_image_registry_configmap
  generate_image_registry_configmap-Holds image_registry namespace cm made =
      let cert = lookup registry_cert_key image_registry.contents in
      elim (Option-cases (lookup registry_conf_key image_registry.contents)) [
        | inl absent ↦ absurd (ground arith)
        | inr (conf, there) ↦ elim (Outcome-cases (get_image_registries encoders.load_toml conf)) [
          | inl (e, failed) ↦ absurd (ground (arith, there, failed))
          | inr (configs, read) ↦ elim (Outcome-cases (manifest_contents encoders configs cert)) [
            | inl (e, failed) ↦ absurd (ground (arith, there, read, failed))
            | inr (contents, given) ↦
                let same : contents ≡ cm.contents = ground (arith, there, read, given) in
                (
                  conf,
                  configs,
                  there,
                  read,
                  rw (← same) (contents-Holds configs cert contents given),
                )
          ]
        ]
      ]
