-- ===== src/Kube/Api.antt =====
-- The API server and what stands behind it, as seen by one run of a controller: each call is
-- answered by a function of the calls made before it, so that whatever other clients do in
-- between is one such function. An action threads the object that the run works on and its calls.
use cluster_api_agent.Prelude.{ℕ, String, Bool, List, Option, Map}
use cluster_api_agent.Kube.Errors.{Err, Outcome, ok, exit}
use cluster_api_agent.Kube.Meta.{Key, ObjectMeta, ObjectReference, OwnerReference}
use cluster_api_agent.Kube.Objects.{Cluster, Machine, Image, Keychain}
use cluster_api_agent.Kube.Kinds.{Kind, Obj}

-- The selectors that the program gives to List.
pub record Selector : Type 0 where
  pub namespace : Option String
  pub labels : Map String
  pub fields : Map String

-- external.CreateFromTemplateInput
pub record TemplateInput : Type 0 where
  pub template_ref : ObjectReference
  pub namespace : String
  pub name : String
  pub owner_ref : OwnerReference
  pub cluster_name : String
  pub labels : Map String
  pub annotations : Map String

-- bsutil.ConfigOwner
pub record ConfigOwner : Type 0 where
  pub meta : ObjectMeta
  pub cluster_name : String

pub data Call : Type 0 where
  get : (k : Kind) → Key → Call
  list : (k : Kind) → Selector → Call
  create update update_status : (k : Kind) → Obj k → Call
  delete : (k : Kind) → Key → Call
  get_owner_cluster get_owner_machine get_typed_config_owner : ObjectMeta → Call
  get_cluster_by_name : String → String → Call
  get_owned_machines : Cluster → ObjectMeta → Call
  create_from_template : TemplateInput → Call
  external_delete : ObjectReference → Call
  patch : (k : Kind) → Obj k → Bool → Call
  http_get workload_client : String → Call
  remote_image remote_digest : String → Keychain → Call

-- The calls so far, the newest first.
abbrev pub History : Type 0
History = List Call

-- http.Response, with what reading its body gives.
pub record HttpResponse : Type 0 where
  pub status_code : ℕ
  pub body : Outcome Err String

-- The answers of controller-runtime's client, of the helpers of cluster-api that call it, of
-- the image registry and of HTTP.
pub record Api : Type 0 where
  pub get_answer : (k : Kind) → Key → History → Outcome Err (Obj k)
  pub list_answer : (k : Kind) → Selector → History → Outcome Err (List (Obj k))
  pub create_answer : (k : Kind) → Obj k → History → Outcome Err (Obj k)
  pub update_answer : (k : Kind) → Obj k → History → Outcome Err (Obj k)
  pub update_status_answer : (k : Kind) → Obj k → History → Outcome Err (Obj k)
  pub delete_answer : (k : Kind) → Key → History → Outcome Err (Unit {0})
  pub owner_cluster_answer : ObjectMeta → History → Outcome Err (Option Cluster)
  pub owner_machine_answer : ObjectMeta → History → Outcome Err (Option Machine)
  pub config_owner_answer : ObjectMeta → History → Outcome Err (Option ConfigOwner)
  pub cluster_by_name_answer : String → String → History → Outcome Err Cluster
  pub owned_machines_answer : Cluster → ObjectMeta → History → Outcome Err (List Machine)
  pub template_answer : TemplateInput → History → Outcome Err ObjectReference
  pub external_delete_answer : ObjectReference → History → Outcome Err (Unit {0})
  pub patch_answer : (k : Kind) → Obj k → Bool → History → Outcome Err (Unit {0})
  pub workload_client_answer : String → History → Outcome Err (Unit {0})
  pub remote_image_answer : String → Keychain → History → Outcome Err Image
  pub remote_digest_answer : String → Keychain → History → Outcome Err String
  pub http_answer : String → History → Outcome Err HttpResponse
  -- names.SimpleNameGenerator: the base with a random suffix, which another history draws anew
  pub name_answer : String → History → String

-- What a run holds: the object that it works on, through a pointer, and the calls so far.
pub record Env (L : Type 0) : Type 0 where
  pub local : L
  pub calls : History

-- An action that may end early by an `E`; changes made before that stay.
abbrev pub Exec : Type 0 → Type 0 → Type 0 → Type 0
Exec L E A = Env L → Outcome E A × Env L

module _ {L E : Type 0} where
  abbrev pub pure : {A : Type 0} → A → Exec L E A
  pure a env = (ok a, env)

  abbrev pub fail : {A : Type 0} → E → Exec L E A
  fail e env = (exit e, env)

  abbrev pub lift : {A : Type 0} → Outcome E A → Exec L E A
  lift r env = (r, env)

  -- Reads and writes through the pointer.
  abbrev pub read : Exec L E L
  read env = (ok env.local, env)

  abbrev pub modify : (L → L) → Exec L E (Unit {0})
  modify f env = (ok tt, record env { local = f env.local })

module _ {L E A B : Type 0} where
  abbrev pub continue : Outcome E A → (A → Exec L E B) → Exec L E B
  continue (ok a) f env = f a env
  continue (exit e) f env = (exit e, env)

  infixl 5 ◌>>=◌ ◌>>◌
  abbrev pub ◌>>=◌ : Exec L E A → (A → Exec L E B) → Exec L E B
  ◌>>=◌ m f env = let (r, env') = m env in continue r f env'

  abbrev pub ◌>>◌ : Exec L E A → Exec L E B → Exec L E B
  m >> n = m >>= λ _. n

module _ {L E F A : Type 0} where
  abbrev pub recover : Outcome E A → (E → Exec L F A) → Exec L F A
  recover (ok a) f env = (ok a, env)
  recover (exit e) f env = f e env

  -- `if err != nil { ... }` after a call
  abbrev pub catch : Exec L E A → (E → Exec L F A) → Exec L F A
  catch m f env = let (r, env') = m env in recover r f env'

module _ {L E F A : Type 0} where
  -- a, err := call()
  abbrev pub attempt : Exec L E A → Exec L F (Outcome E A)
  attempt m env = let (r, env') = m env in (ok r, env')
