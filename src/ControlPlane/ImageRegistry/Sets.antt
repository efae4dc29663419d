-- ===== src/ControlPlane/ImageRegistry/Sets.antt =====
-- The mirror sets that a whole registries.conf gives.
use cluster_api_agent.Prelude.{
  String, false, ◌≡◌, ◌&&◌, refl, List, [], ◌∷◌, Option, some, arith, is_empty, Option-cases, inl,
  inr,
}
use cluster_api_agent.Kube.Errors.{Err, Outcome, ok, exit}
use cluster_api_agent.ControlPlane.ImageRegistry.{
  MirrorTree, RegistryTree, MirrorConfigs, parse_mirror_registries, parse_registry, registry_loop,
  get_image_registries, no_mirrors,
}
use cluster_api_agent.ControlPlane.ImageRegistry.Partition.{
  for_tags, for_digests, mirror_sets, insecure_locations, Added, Added-nil, Added-cons,
  parse_mirror_registries-AddedOne,
}

-- A registry that is parsed has its location and its mirrors, and adds them.
record Parsed (registry : RegistryTree) (c c' : MirrorConfigs) : Type 0 where
  source : String
  trees : List MirrorTree
  located : registry.location ≡ some source
  mirrored : registry.mirror ≡ some trees
  parsed : parse_mirror_registries c trees source ≡ ok c'

parse_registry-Parsed :
    (registry : RegistryTree) (c c' : MirrorConfigs)
    → parse_registry registry c ≡ ok c'
    → Parsed registry c c'
unfolding parse_registry
parse_registry-Parsed registry c c' h = elim (Option-cases registry.location) [
  | inl missing ↦ absurd (ground arith)
  | inr (source, located) ↦ elim (Option-cases registry.mirror) [
    | inl missing ↦ absurd (ground arith)
    | inr (trees, mirrored) ↦ record {
      source = source;
      trees = trees;
      located = located;
      mirrored = mirrored;
      parsed = ground arith;
    }
  ]
]

registry_loop-step :
    (registry : RegistryTree) (rest : List RegistryTree) (c c'' : MirrorConfigs)
    (r : Outcome Err MirrorConfigs)
    → parse_registry registry c ≡ r
    → ((c' : MirrorConfigs) → registry_loop rest c' ≡ ok c'' → Added rest c' c'')
    → registry_loop (registry ∷ rest) c ≡ ok c''
    → Added (registry ∷ rest) c c''
unfolding registry_loop
registry_loop-step registry rest c c'' (exit e) parsed more h = absurd (ground arith)
registry_loop-step registry rest c c'' (ok c') parsed more h =
    let p = parse_registry-Parsed registry c c' parsed in
    Added-cons registry rest p.source p.trees c c' c'' p.located p.mirrored
      (parse_mirror_registries-AddedOne p.source p.trees c c' p.parsed) (more c' (ground arith))

registry_loop-Added :
    (registries : List RegistryTree) (c : MirrorConfigs) {c' : MirrorConfigs}
    → registry_loop registries c ≡ ok c'
    → Added registries c c'
registry_loop-Added [] c {c'} h =
    let e : c ≡ c' = unfold registry_loop in ground arith in rw (← e) (Added-nil c)
registry_loop-Added (registry ∷ rest) c {c'} h =
    registry_loop-step registry rest c c' (parse_registry registry c) refl
      (λ d h'. registry_loop-Added rest d h') h

-- What a file that loads is read as.
pub record IsRead (registries : List RegistryTree) (c : MirrorConfigs) : Type 0 where
  pub tags : c.tag_mirrors ≡ mirror_sets for_tags registries
  pub digests : c.digest_mirrors ≡ mirror_sets for_digests registries
  pub insecure : c.insecure_registries ≡ insecure_locations registries
  pub some_set : (is_empty c.digest_mirrors && is_empty c.tag_mirrors) ≡ false

-- A registries.conf that is accepted gives one set of tag mirrors for each registry that has
-- a tag-only mirror, one set of digest mirrors for each registry that has another, in the order of
-- the file, and the locations of all insecure mirrors; at least one set is there.
pub get_image_registries-IsRead :
    (load_toml : String → Outcome Err (Option (List RegistryTree))) (conf : String)
    {registries : List RegistryTree} {c : MirrorConfigs}
    → load_toml conf ≡ ok (some registries)
    → get_image_registries load_toml conf ≡ ok c
    → IsRead registries c
get_image_registries-IsRead load_toml conf {registries} {c} loaded h =
    let looped : registry_loop registries no_mirrors ≡ ok c =
      unfold get_image_registries in ground arith in
    let nonempty : (is_empty c.digest_mirrors && is_empty c.tag_mirrors) ≡ false =
      unfold get_image_registries in ground arith in
    let added = registry_loop-Added registries no_mirrors looped in
    record {
      tags = added.tags;
      digests = added.digests;
      insecure = added.insecure;
      some_set = nonempty;
    }
