-- ===== src/ControlPlane/Version/Tags.antt =====
-- The tag of an image stream that gives the Kubernetes version: getK8sVersionFromImageStream of
-- controlplane/internal/version/openshift.go.
use text.Mathlib.TextLemmas.{nil-append, cons-append, append_assoc}
use cluster_api_agent.Prelude.{
  String, ◌<>◌, ◌≡◌, ◌≢◌, ◌↔◌, refl, sym, ap, ◌∙◌, inl, inr, List, [], ◌∷◌, none, some, lookup,
  split, arith, eq_iff, eq_refl, Option-cases,
}
use cluster_api_agent.Prelude.Splits.{Lacks, split-lacking, split-append, split-two}
use cluster_api_agent.Kube.Errors.{ok}
use cluster_api_agent.ControlPlane.Version.{
  Tag, annotation_build_versions, kubernetes_of, find_kubernetes_version,
  get_k8s_version_from_image_stream,
}

-- The annotation of the tag is `kubernetes=` and the version, which has no equals sign.
pub record Names (tag : Tag) (version : String) : Type 0 where
  pub annotated : lookup annotation_build_versions tag ≡ some ("kubernetes=" <> version)
  pub lacks : Lacks b'=' version

-- The version of the first tag that names one.
pub data FirstNamed (version : String) : List Tag → Type 0 where
  here : {tag : Tag} {tags : List Tag} → Names tag version → FirstNamed version (tag ∷ tags)
  later :
      {tag : Tag} {tags : List Tag}
      → ((other : String) → ¬ (Names tag other))
      → FirstNamed version tags
      → FirstNamed version (tag ∷ tags)

kubernetes-append : (v : String) → "kubernetes=" <> v ≡ "kubernetes" <> String.◌∷◌ "=" v
kubernetes-append v =
    append_assoc "kubernetes" "=" v
    ∙ ap (λ r. "kubernetes" <> r) (cons-append "=" "" v ∙ ap (String.◌∷◌ "=") (nil-append v))

none_names : (v : String) → kubernetes_of none ≢ some v
unfolding kubernetes_of
none_names v h = ground arith

parts-kubernetes_of :
    (s v : String) (parts : List String)
    → split b'=' s ≡ parts
    → kubernetes_of (some s) ≡ some v
    → parts ≡ "kubernetes" ∷ (v ∷ [])
unfolding kubernetes_of
parts-kubernetes_of s v [] cut h = absurd (ground (arith, cut))
parts-kubernetes_of s v (a ∷ []) cut h = absurd (ground (arith, cut))
parts-kubernetes_of s v (a ∷ (b ∷ [])) cut h = ground (arith, cut, eq_iff a "kubernetes")
parts-kubernetes_of s v (a ∷ (b ∷ (c ∷ cs))) cut h = absurd (ground (arith, cut))

Names-kubernetes_of :
    (tag : Tag) (v : String)
    → kubernetes_of (lookup annotation_build_versions tag) ≡ some v
    → Names tag v
Names-kubernetes_of tag v h = elim (Option-cases (lookup annotation_build_versions tag)) [
  | inl none_there ↦ absurd (none_names v (rw none_there at h))
  | inr (s, there) ↦
      let (text, lacks) =
        split-two "=" s "kubernetes" v
          (parts-kubernetes_of s v (split b'=' s) refl (rw there at h)) in
      record { annotated = there ∙ ap some (text ∙ sym (kubernetes-append v)); lacks = lacks }
]

kubernetes_of-Names :
    (tag : Tag) (v : String)
    → Names tag v
    → kubernetes_of (lookup annotation_build_versions tag) ≡ some v
unfolding kubernetes_of
kubernetes_of-Names tag v names =
    let cut : split b'=' ("kubernetes=" <> v) ≡ "kubernetes" ∷ (v ∷ []) =
      ap (split b'=') (kubernetes-append v)
      ∙ split-append "=" "kubernetes" v (ground arith)
      ∙ ap (λ r. "kubernetes" ∷ r) (split-lacking b'=' v names.lacks) in
    ground (arith, names.annotated, cut, eq_refl "kubernetes")

FirstNamed-find :
    (tags : List Tag) (v : String) → find_kubernetes_version tags ≡ some v → FirstNamed v tags
unfolding find_kubernetes_version
FirstNamed-find [] v h = absurd (ground arith)
FirstNamed-find (tag ∷ tags) v h =
    elim (Option-cases (kubernetes_of (lookup annotation_build_versions tag))) [
      | inl unnamed ↦
          let others : (w : String) → ¬ (Names tag w) =
            λ w names. ground (arith, unnamed, kubernetes_of-Names tag w names) in
          later others (FirstNamed-find tags v (rw (unnamed, find_kubernetes_version) at h))
      | inr (w, named) ↦ here (Names-kubernetes_of tag v (ground (arith, named)))
    ]

find-FirstNamed :
    (tags : List Tag) (v : String) → FirstNamed v tags → find_kubernetes_version tags ≡ some v
unfolding find_kubernetes_version
find-FirstNamed [] v h = elim h [ ]
find-FirstNamed (tag ∷ tags) v (here names) =
    rw (kubernetes_of-Names tag v names, find_kubernetes_version) refl
find-FirstNamed (tag ∷ tags) v (later others first) =
    elim (Option-cases (kubernetes_of (lookup annotation_build_versions tag))) [
      | inl unnamed ↦ rw (unnamed, find_kubernetes_version) (find-FirstNamed tags v first)
      | inr (w, named) ↦ absurd (others w (Names-kubernetes_of tag w named))
    ]

-- The version of an image stream is the one of the first of its tags whose annotation of build
-- versions is `kubernetes=` and a text without an equals sign, which is the version: it is found
-- exactly where there is such a tag.
pub get_k8s_version_from_image_stream-FirstNamed :
    (tags : List Tag) (version : String)
    → (get_k8s_version_from_image_stream tags ≡ ok version) ↔ FirstNamed version tags
unfolding get_k8s_version_from_image_stream
get_k8s_version_from_image_stream-FirstNamed tags version = (
  λ h. FirstNamed-find tags version (ground arith),
  λ first. ground (arith, find-FirstNamed tags version first),
)
