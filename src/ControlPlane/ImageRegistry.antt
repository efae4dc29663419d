-- ===== src/ControlPlane/ImageRegistry.antt =====
-- controlplane/internal/imageregistry/image_registry.go: the mirrors that a registries.conf names.
-- The TOML tree comes from a parameter; a value of another type at a key reads as missing, which
-- is what the type assertions of the source make of it.
pub mod Manifests
pub mod Partition
pub mod Sets
use cluster_api_agent.Prelude.{
  String, Bool, true, false, not, ◌==◌, ◌&&◌, ◌||◌, ◌<>◌, List, [], ◌∷◌, ◌++◌, Option, none, some,
  Map, lookup, insert, is_empty, is_some, if◌then◌else◌,
}
use cluster_api_agent.Kube.Errors.{Err, Outcome, ok, exit, error, wrap}
use cluster_api_agent.Kube.Meta.{no_type, named}
use cluster_api_agent.Kube.Objects.{ConfigMap}

-- [[registry.mirror]]
pub record MirrorTree : Type 0 where
  pub location : Option String
  pub insecure : Option Bool
  pub pull_from_mirror : Option String

-- [[registry]]
pub record RegistryTree : Type 0 where
  pub location : Option String
  pub mirror : Option (List MirrorTree)

-- configv1.ImageTagMirrors and ImageDigestMirrors have the same fields.
pub record ImageMirrors : Type 0 where
  pub source : String
  pub mirrors : List String

pub record MirrorConfigs : Type 0 where
  pub digest_mirrors : List ImageMirrors
  pub tag_mirrors : List ImageMirrors
  pub insecure_registries : List String

abbrev pub no_mirrors : MirrorConfigs
no_mirrors = record { digest_mirrors = []; tag_mirrors = []; insecure_registries = [] }

-- The two sets that the loop over the mirrors of one source fills, with the insecure registries.
pub record Mirrors : Type 0 where
  pub itms : ImageMirrors
  pub idms : ImageMirrors
  pub insecure : List String

abbrev add_mirror : String → String → ImageMirrors → ImageMirrors
add_mirror source mirror m = record { source = source; mirrors = m.mirrors ++ mirror ∷ [] }

abbrev is_insecure : Option Bool → Bool
is_insecure (some true) = true
is_insecure _ = false

abbrev is_tag_only : Option String → Bool
is_tag_only none = false
is_tag_only (some pull) = pull == "tag-only"

-- The body of the loop, once the location is known.
unfoldable pub take_mirror : String → String → MirrorTree → Mirrors → Mirrors
take_mirror source mirror tree m =
    let m' = record m {
      insecure = if is_insecure tree.insecure then m.insecure ++ mirror ∷ [] else m.insecure;
    } in
    if is_tag_only tree.pull_from_mirror
    then record m' { itms = add_mirror source mirror m'.itms }
    else record m' { idms = add_mirror source mirror m'.idms }

-- An error leaves what was gathered so far in the insecure registries.
unfoldable pub mirror_loop : String → List MirrorTree → Mirrors → Outcome Err Mirrors
unfolding take_mirror
mirror_loop source [] m = ok m
mirror_loop source (tree ∷ trees) m = elim tree.location [
  | none ↦
      exit (error "missing mirror registry location key or the value of location is not a string")
  | some mirror ↦ mirror_loop source trees (take_mirror source mirror tree m)
]

abbrev add_if_any : ImageMirrors → List ImageMirrors → List ImageMirrors
add_if_any m ms = if is_empty m.mirrors then ms else ms ++ m ∷ []

abbrev empty_mirrors : ImageMirrors
empty_mirrors = record { source = ""; mirrors = [] }

unfoldable pub parse_mirror_registries :
    MirrorConfigs → List MirrorTree → String → Outcome Err MirrorConfigs
unfolding mirror_loop
parse_mirror_registries configs trees source =
    elim (mirror_loop source trees (record {
      itms = empty_mirrors;
      idms = empty_mirrors;
      insecure = configs.insecure_registries;
    })) [
      | exit e ↦ exit e
      | ok m ↦ ok (record {
        digest_mirrors = add_if_any m.idms configs.digest_mirrors;
        tag_mirrors = add_if_any m.itms configs.tag_mirrors;
        insecure_registries = m.insecure;
      })
    ]

-- One round of the loop over the registries.
unfoldable pub parse_registry : RegistryTree → MirrorConfigs → Outcome Err MirrorConfigs
unfolding parse_mirror_registries
parse_registry registry configs = elim registry.location [
  | none ↦ exit (error "failed to parse image registry toml, missing registry location")
  | some source ↦ elim registry.mirror [
    | none ↦
        exit
          (error "failed to parse image registry toml, missing registry.mirror in registries.conf")
    | some trees ↦ elim (parse_mirror_registries configs trees source) [
      | ok configs' ↦ ok configs'
      | exit e ↦
          exit
            (wrap ("failed to parse image mirror registry toml for registry " <> source <> ": ") e)
    ]
  ]
]

unfoldable pub registry_loop : List RegistryTree → MirrorConfigs → Outcome Err MirrorConfigs
unfolding parse_registry
registry_loop [] configs = ok configs
registry_loop (registry ∷ rest) configs = elim (parse_registry registry configs) [
  | ok configs' ↦ registry_loop rest configs'
  | exit e ↦ exit e
]

-- toml.Load, with the value of its `registry` key, is a parameter.
module _ (load_toml : String → Outcome Err (Option (List RegistryTree))) where
  unfoldable pub get_image_registries : String → Outcome Err MirrorConfigs
  unfolding registry_loop
  get_image_registries registry = elim (load_toml registry) [
    | exit e ↦ exit (
        wrap "failed to load value of registries.conf into toml tree; incorrectly formatted toml: "
          e)
    | ok none ↦ exit (error "failed to find registry key in toml tree")
    | ok (some trees) ↦ elim (registry_loop trees no_mirrors) [
      | exit e ↦ exit e
      | ok configs ↦
          if is_empty configs.digest_mirrors && is_empty configs.tag_mirrors
          then exit (error "failed to find any image mirrors in registry.conf")
          else ok configs
    ]
  ]
