-- ===== src/Containers/Symlinks.antt =====
-- Finding a file of an image: the newest layer wins, and at most five links are followed.
use cluster_api_agent.Prelude.{
  ℕ, zero, suc, ◌≤◌, ◌<◌, String, ◌≡◌, ◌≢◌, refl, List, [], ◌∷◌, ◌++◌, arith,
}
use cluster_api_agent.Kube.Errors.{ok, exit, error}
use cluster_api_agent.Kube.Objects.{Layer, Image}
use cluster_api_agent.Containers.{
  Codecs, Found, absent, content, link, failed, scan_layers, resolve, extract_file,
  extract_file_from_image, max_symlink_depth,
}

-- What the newer layers say of a path hides the older ones, unless it is absent from them.
pub scan_layers-append :
    (path : String) (older newer : List Layer)
    → scan_layers path newer ≢ absent
    → scan_layers path (older ++ newer) ≡ scan_layers path newer
unfolding scan_layers
scan_layers-append path [] newer h = refl
scan_layers-append path (layer ∷ older) newer h =
    ground (arith, scan_layers-append path older newer h)

module _ (codecs : Codecs) where
  -- In these layers a path leads to a text through a number of links.
  pub data Resolves (layers : List Layer) : String → ℕ → String → Type 0 where
    here :
        {path text : String}
        → scan_layers path layers ≡ content text
        → Resolves layers path zero text
    through :
        {path target text : String} {n : ℕ}
        → scan_layers path layers ≡ link target
        → Resolves layers (resolve codecs path target) n text
        → Resolves layers path (suc n) text

  extract_file_follows :
      (image : Image) (layers : List Layer)
      → image.layers ≡ ok layers
      → (left : ℕ) {path text : String} {n : ℕ} → Resolves layers path n text
      → n < left
      → extract_file codecs left image path ≡ ok text
  unfolding extract_file
  extract_file_follows image layers opened zero r h = absurd (omega arith)
  extract_file_follows image layers opened (suc left) (here found) h = ground arith
  extract_file_follows image layers opened (suc left) (through found r) h =
      ground (arith, extract_file_follows image layers opened left r (omega arith))

  -- A path that leads to a text through at most five links is extracted as that text.
  pub extract_file_from_image_follows :
      (image : Image) (layers : List Layer) {path text : String} {n : ℕ}
      → image.layers ≡ ok layers
      → Resolves layers path n text
      → n ≤ max_symlink_depth
      → extract_file_from_image codecs image path ≡ ok text
  unfolding extract_file_from_image
  extract_file_from_image_follows image layers opened r h =
      extract_file_follows image layers opened (suc max_symlink_depth) r (omega arith)

  extract_file_loops :
      (image : Image) (layers : List Layer)
      → image.layers ≡ ok layers
      → (left : ℕ) {path text : String} {n : ℕ} → Resolves layers path n text
      → left ≤ n
      → extract_file codecs left image path
        ≡ exit (error "too many symlink resolutions, possible loop")
  unfolding extract_file
  extract_file_loops image layers opened zero r h = refl
  extract_file_loops image layers opened (suc left) (here found) h = absurd (omega arith)
  extract_file_loops image layers opened (suc left) (through found r) h =
      ground (arith, extract_file_loops image layers opened left r (omega arith))

  -- A path that leads to a text through more than five links is refused.
  pub extract_file_from_image_loops :
      (image : Image) (layers : List Layer) {path text : String} {n : ℕ}
      → image.layers ≡ ok layers
      → Resolves layers path n text
      → max_symlink_depth < n
      → extract_file_from_image codecs image path
        ≡ exit (error "too many symlink resolutions, possible loop")
  unfolding extract_file_from_image
  extract_file_from_image_loops image layers opened r h =
      extract_file_loops image layers opened (suc max_symlink_depth) r (omega arith)

  -- One step of the search, read backwards from its success.
  extract_file_step :
      (image : Image) (layers : List Layer) {text : String}
      → image.layers ≡ ok layers
      → (left : ℕ) (path : String) (f : Found) → scan_layers path layers ≡ f
      → ((path' : String)
          → extract_file codecs left image path' ≡ ok text
          → (n : ℕ) × (n < left) × Resolves layers path' n text)
      → extract_file codecs (suc left) image path ≡ ok text
      → (n : ℕ) × (n < suc left) × Resolves layers path n text
  unfolding extract_file
  extract_file_step image layers opened left path absent e rest h = cc
  extract_file_step image layers opened left path (content found) e rest h =
      (zero, omega arith, here (ground arith))
  extract_file_step image layers opened left path (link target) e rest h =
      let (n, lt, r) = rest (resolve codecs path target) (ground arith) in
      (suc n, omega arith, through e r)
  extract_file_step image layers opened left path (failed d) e rest h = absurd (ground arith)

  extract_file_sound :
      (image : Image) (layers : List Layer) {text : String}
      → image.layers ≡ ok layers
      → (left : ℕ) (path : String) → extract_file codecs left image path ≡ ok text
      → (n : ℕ) × (n < left) × Resolves layers path n text
  extract_file_sound image layers opened zero path h = absurd (unfold extract_file in ground arith)
  extract_file_sound image layers opened (suc left) path h =
      extract_file_step image layers opened left path (scan_layers path layers) refl
        (λ path' h'. extract_file_sound image layers opened left path' h') h

  -- A text is extracted only from a path that leads to it through at most five links.
  pub extract_file_from_image_sound :
      (image : Image) (layers : List Layer) (path : String) {text : String}
      → image.layers ≡ ok layers
      → extract_file_from_image codecs image path ≡ ok text
      → (n : ℕ) × (n ≤ max_symlink_depth) × Resolves layers path n text
  unfolding extract_file_from_image
  extract_file_from_image_sound image layers path opened h =
      let (n, lt, r) = extract_file_sound image layers opened (suc max_symlink_depth) path h in
      (n, omega arith, r)
