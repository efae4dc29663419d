-- ===== src/Containers.antt =====
-- pkg/containers: credentials of a pull secret, images of a registry, files of an image.
pub mod Credentials
pub mod Symlinks
use cluster_api_agent.Prelude.{
  ℕ, zero, suc, String, ◌==◌, ◌<>◌, List, [], ◌∷◌, none, some, Map, cut, has_prefix, insert, lookup,
  if◌then◌else◌,
}
use cluster_api_agent.Kube.Errors.{
  Err, Outcome, ok, exit, error, wrap, join_errors, image_not_found,
}
use cluster_api_agent.Kube.Objects.{
  AuthConfig, Keychain, TarStep, file, symlink, broken, Layer, Image,
}
use cluster_api_agent.Kube.Api.{Api, Exec, fail, catch}
use cluster_api_agent.Kube.Calls.{remote_image, remote_digest}

-- What the package calls: json.Unmarshal at the shape of a pull secret (registry to auth), base64,
-- name.ParseReference, and filepath.Join(filepath.Dir(p), l).
pub record Codecs : Type 0 where
  pub unmarshal_auths : String → Outcome Err (Map String)
  pub decode_base64 : String → Outcome Err String
  pub parse_reference : String → Outcome Err String
  pub join_dir : String → String → String

module _ (codecs : Codecs) where
  unfoldable pub credential : String → String → Outcome Err AuthConfig
  credential registry auth = elim (codecs.decode_base64 auth) [
    | exit e ↦ exit (wrap ("failed to decode auth for " <> registry <> ": ") e)
    | ok decoded ↦ elim (cut b':' decoded) [
      | none ↦ exit (error ("invalid auth format for " <> registry))
      | some (user, password) ↦ ok (record { username = user; password = password })
    ]
  ]

  add_credential : Outcome Err AuthConfig → String → Keychain → Outcome Err Keychain
  add_credential (ok config) registry kc = ok (insert registry config kc)
  add_credential (exit e) registry kc = exit e

  -- The `for registry, entry` loop.
  credentials : Map String → Outcome Err Keychain → Outcome Err Keychain
  unfolding credential add_credential
  credentials [] kc = kc
  credentials ((registry, auth) ∷ rest) (ok kc) =
      credentials rest (add_credential (credential registry auth) registry kc)
  credentials (entry ∷ rest) (exit e) = exit e

  unfoldable pub pull_secret_keychain : String → Outcome Err Keychain
  unfolding credentials
  pull_secret_keychain pull_secret = elim (codecs.unmarshal_auths pull_secret) [
    | ok auths ↦ credentials auths (ok [])
    | exit e ↦ exit (wrap "failed to parse pullsecret: " e)
  ]

-- PullSecretKeyChain.Resolve, at the name of a registry: no credentials are anonymous access.
pub data Authenticator : Type 0 where
  anonymous : Authenticator
  from_config : AuthConfig → Authenticator

unfoldable pub keychain_resolve : Keychain → String → Authenticator
keychain_resolve kc registry = elim (lookup registry kc) [
  | none ↦ anonymous
  | some config ↦ from_config config
]

abbrev err_image_not_found : Err
err_image_not_found = record { reasons = image_not_found ∷ []; text = "image not found" }

module _ {L : Type 0} (api : Api) (codecs : Codecs) where
  unfoldable pub get_image : String → Keychain → Exec L Err Image
  get_image image_ref keychain = elim (codecs.parse_reference image_ref) [
    | exit e ↦ fail (wrap "failed to parse Image reference: " err_image_not_found)
    | ok ref ↦ catch (remote_image api ref keychain) (λ e. fail (join_errors err_image_not_found e))
  ]

  unfoldable pub get_digest : String → Keychain → Exec L Err String
  get_digest image_ref keychain = elim (codecs.parse_reference image_ref) [
    | exit e ↦ fail (wrap "failed to parse image reference: " e)
    | ok ref ↦
        catch (remote_digest api ref keychain)
          (λ e. fail (wrap "failed to get remote image descriptor: " e))
  ]

-- What one layer says of a path.
pub data Found : Type 0 where
  absent : Found
  content : String → Found
  link : String → Found
  failed : Err → Found

abbrev read_content : Outcome Err String → Found
read_content (ok text) = content text
read_content (exit e) = failed (wrap "failed to read file content: " e)

-- The loop over the steps of one tar reader.
unfoldable pub scan_steps : String → List TarStep → Found
scan_steps path [] = absent
scan_steps path (broken e ∷ rest) = failed (wrap "error reading tar: " e)
scan_steps path (symlink name target ∷ rest) =
    if ("/" <> name) == path then link target else scan_steps path rest
scan_steps path (file name text ∷ rest) =
    if ("/" <> name) == path then read_content text else scan_steps path rest

abbrev close_layer : Outcome Err (Unit {0}) → Found
close_layer (ok _) = absent
close_layer (exit e) = failed (wrap "failed to close tar: " e)

unfoldable pub scan_layer : String → Layer → Found
unfolding scan_steps
scan_layer path layer = elim layer.steps [
  | exit e ↦ failed (wrap "failed to get layer data: " e)
  | ok steps ↦ elim (scan_steps path steps) [
    | absent ↦ close_layer layer.close
    | content text ↦ content text
    | link target ↦ link target
    | failed e ↦ failed e
  ]
]

-- The loop over the layers, from the last to the first. The search of the older layers is bound
-- first, and is made only where a layer lacks the path.
unfoldable pub scan_layers : String → List Layer → Found
unfolding scan_layer
scan_layers path [] = absent
scan_layers path (layer ∷ newer) = elim (scan_layers path newer) [
  | absent ↦ scan_layer path layer
  | content text ↦ content text
  | link target ↦ link target
  | failed e ↦ failed e
]

abbrev pub max_symlink_depth : ℕ
max_symlink_depth = 5

module _ (codecs : Codecs) where
  unfoldable pub resolve : String → String → String
  resolve path target = if has_prefix target "/" then target else codecs.join_dir path target

  -- `left` counts down what `depth` counts up: at 0 the depth has passed the maximum.
  unfoldable pub extract_file : ℕ → Image → String → Outcome Err String
  unfolding scan_layers resolve
  extract_file zero image path = exit (error "too many symlink resolutions, possible loop")
  extract_file (suc left) image path = elim image.layers [
    | exit e ↦ exit (wrap "failed to get Image layers: " e)
    | ok layers ↦ elim (scan_layers path layers) [
      | absent ↦ exit (error ("file " <> path <> " not found in Image"))
      | content text ↦ ok text
      | link target ↦ extract_file left image (resolve path target)
      | failed e ↦ exit e
    ]
  ]

  unfoldable pub extract_file_from_image : Image → String → Outcome Err String
  unfolding extract_file
  extract_file_from_image = extract_file (suc max_symlink_depth)
