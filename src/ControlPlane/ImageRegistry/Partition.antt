-- ===== src/ControlPlane/ImageRegistry/Partition.antt =====
-- Where the mirrors of a registries.conf end up.
use mathlib.Core.List.{append-nil, append_assoc}
use cluster_api_agent.Prelude.{
  String, not, ◌≡◌, refl, List, [], ◌∷◌, ◌++◌, none, some, arith, filterb, Option-cases, ◌⊎◌, inl,
  inr,
}
use cluster_api_agent.Kube.Errors.{Err, Outcome, ok, exit}
use cluster_api_agent.ControlPlane.ImageRegistry.{
  MirrorTree, RegistryTree, ImageMirrors, MirrorConfigs, Mirrors, is_insecure, is_tag_only,
  mirror_loop, parse_mirror_registries, take_mirror, empty_mirrors, add_if_any,
}

-- The locations of the trees, in order.
abbrev pub locations : List MirrorTree → List String
locations [] = []
locations (tree ∷ trees) = elim tree.location [
  | none ↦ locations trees
  | some l ↦ l ∷ locations trees
]

abbrev pub for_tags : List MirrorTree → List MirrorTree
for_tags = filterb (λ tree. is_tag_only tree.pull_from_mirror)

abbrev pub for_digests : List MirrorTree → List MirrorTree
for_digests = filterb (λ tree. not (is_tag_only tree.pull_from_mirror))

abbrev pub insecure_ones : List MirrorTree → List MirrorTree
insecure_ones = filterb (λ tree. is_insecure tree.insecure)

-- What the loop adds to each of its three lists.
pub record Partition (trees : List MirrorTree) (m m' : Mirrors) : Type 0 where
  pub tags : m'.itms.mirrors ≡ m.itms.mirrors ++ locations (for_tags trees)
  pub digests : m'.idms.mirrors ≡ m.idms.mirrors ++ locations (for_digests trees)
  pub insecure : m'.insecure ≡ m.insecure ++ locations (insecure_ones trees)

Partition-nil : (m : Mirrors) → Partition [] m m
unfolding filterb
Partition-nil m = record {
  tags = rw append-nil refl;
  digests = rw append-nil refl;
  insecure = rw append-nil refl;
}

Partition-cons :
    (source mirror : String) (tree : MirrorTree) (trees : List MirrorTree) (m m' : Mirrors)
    → tree.location ≡ some mirror
    → Partition trees (take_mirror source mirror tree m) m'
    → Partition (tree ∷ trees) m m'
unfolding take_mirror filterb
Partition-cons source mirror tree trees m m' located p = ground (
  arith,
  p.tags,
  p.digests,
  p.insecure,
  append_assoc m.itms.mirrors (mirror ∷ []) (locations (for_tags trees)),
  append_assoc m.idms.mirrors (mirror ∷ []) (locations (for_digests trees)),
  append_assoc m.insecure (mirror ∷ []) (locations (insecure_ones trees)),
)

mirror_loop-Partition :
    (source : String) (trees : List MirrorTree) (m : Mirrors) {m' : Mirrors}
    → mirror_loop source trees m ≡ ok m'
    → Partition trees m m'
unfolding mirror_loop
mirror_loop-Partition source [] m {m'} h =
    let e : m ≡ m' = ground arith in rw (← e) (Partition-nil m)
mirror_loop-Partition source (tree ∷ trees) m {m'} h = elim (Option-cases tree.location) [
  | inl missing ↦ absurd (ground arith)
  | inr (mirror, located) ↦
      Partition-cons source mirror tree trees m m' located
        (mirror_loop-Partition source trees (take_mirror source mirror tree m) (ground arith))
]

-- A set that is not empty names the source.
abbrev IsSourced : String → ImageMirrors → Type 0
IsSourced source m = (m.mirrors ≡ []) ⊎ (m.source ≡ source)

mirror_loop-IsSourced :
    (source : String) (trees : List MirrorTree) (m : Mirrors) {m' : Mirrors}
    → IsSourced source m.itms
    → IsSourced source m.idms
    → mirror_loop source trees m ≡ ok m'
    → IsSourced source m'.itms × IsSourced source m'.idms
unfolding mirror_loop take_mirror
mirror_loop-IsSourced source [] m {m'} a b h = let e : m ≡ m' = ground arith in rw (← e) (a, b)
mirror_loop-IsSourced source (tree ∷ trees) m {m'} a b h = elim (Option-cases tree.location) [
  | inl missing ↦ absurd (ground arith)
  | inr (mirror, located) ↦
      mirror_loop-IsSourced source trees (take_mirror source mirror tree m) {m' = m'} (ground arith)
        (ground arith) (ground arith)
]

-- The set of the mirrors of one source, if there are any.
abbrev pub entry : String → List String → List ImageMirrors
entry source [] = []
entry source (mirror ∷ mirrors) = record { source = source; mirrors = mirror ∷ mirrors } ∷ []

add_if_any-entry :
    (source : String) (m : ImageMirrors) (ms : List ImageMirrors) (mirrors : List String)
    → IsSourced source m
    → m.mirrors ≡ mirrors
    → add_if_any m ms ≡ ms ++ entry source mirrors
add_if_any-entry source m ms [] a e = rw append-nil (ground arith)
add_if_any-entry source m ms (mirror ∷ mirrors) a e = ground arith

-- The sets that the registries of a file name, of the mirrors that a filter keeps.
abbrev pub mirror_sets : (List MirrorTree → List MirrorTree) → List RegistryTree → List ImageMirrors
mirror_sets keep [] = []
mirror_sets keep (registry ∷ rest) = elim registry.location [
  | none ↦ mirror_sets keep rest
  | some source ↦ elim registry.mirror [
    | none ↦ mirror_sets keep rest
    | some trees ↦ entry source (locations (keep trees)) ++ mirror_sets keep rest
  ]
]

abbrev pub insecure_locations : List RegistryTree → List String
insecure_locations [] = []
insecure_locations (registry ∷ rest) = elim registry.mirror [
  | none ↦ insecure_locations rest
  | some trees ↦ locations (insecure_ones trees) ++ insecure_locations rest
]

-- What the loop over the registries adds to the configuration.
pub record Added (registries : List RegistryTree) (c c' : MirrorConfigs) : Type 0 where
  pub tags : c'.tag_mirrors ≡ c.tag_mirrors ++ mirror_sets for_tags registries
  pub digests : c'.digest_mirrors ≡ c.digest_mirrors ++ mirror_sets for_digests registries
  pub insecure : c'.insecure_registries ≡ c.insecure_registries ++ insecure_locations registries

-- One registry's part of that.
pub record AddedOne (source : String) (trees : List MirrorTree) (c c' : MirrorConfigs)
    : Type 0 where
  pub tags : c'.tag_mirrors ≡ c.tag_mirrors ++ entry source (locations (for_tags trees))
  pub digests : c'.digest_mirrors ≡ c.digest_mirrors ++ entry source (locations (for_digests trees))
  pub insecure : c'.insecure_registries ≡ c.insecure_registries ++ locations (insecure_ones trees)

abbrev start : MirrorConfigs → Mirrors
start c = record { itms = empty_mirrors; idms = empty_mirrors; insecure = c.insecure_registries }

start-AddedOne :
    (source : String) (trees : List MirrorTree) (c c' : MirrorConfigs) (r : Outcome Err Mirrors)
    → mirror_loop source trees (start c) ≡ r
    → parse_mirror_registries c trees source ≡ ok c'
    → AddedOne source trees c c'
unfolding parse_mirror_registries
start-AddedOne source trees c c' (exit e) looped h = absurd (ground arith)
start-AddedOne source trees c c' (ok m) looped h =
    let p = mirror_loop-Partition source trees (start c) looped in
    let (itms, idms) = mirror_loop-IsSourced source trees (start c) (inl refl) (inl refl) looped in
    ground (
      arith,
      p.tags,
      p.digests,
      p.insecure,
      add_if_any-entry source m.itms c.tag_mirrors (locations (for_tags trees)) itms,
      add_if_any-entry source m.idms c.digest_mirrors (locations (for_digests trees)) idms,
    )

pub parse_mirror_registries-AddedOne :
    (source : String) (trees : List MirrorTree) (c c' : MirrorConfigs)
    → parse_mirror_registries c trees source ≡ ok c'
    → AddedOne source trees c c'
parse_mirror_registries-AddedOne source trees c c' h =
    start-AddedOne source trees c c' (mirror_loop source trees (start c)) refl h

pub Added-cons :
    (registry : RegistryTree) (rest : List RegistryTree) (source : String) (trees : List MirrorTree)
    (c c' c'' : MirrorConfigs)
    → registry.location ≡ some source
    → registry.mirror ≡ some trees
    → AddedOne source trees c c'
    → Added rest c' c''
    → Added (registry ∷ rest) c c''
Added-cons registry rest source trees c c' c'' located mirrored one more = ground (
  arith,
  one.tags,
  one.digests,
  one.insecure,
  more.tags,
  more.digests,
  more.insecure,
  append_assoc c.tag_mirrors (entry source (locations (for_tags trees)))
      (mirror_sets for_tags rest),
  append_assoc c.digest_mirrors (entry source (locations (for_digests trees)))
      (mirror_sets for_digests rest),
  append_assoc c.insecure_registries (locations (insecure_ones trees)) (insecure_locations rest),
)

pub Added-nil : (c : MirrorConfigs) → Added [] c c
Added-nil c = record {
  tags = rw append-nil refl;
  digests = rw append-nil refl;
  insecure = rw append-nil refl;
}
