-- ===== src/Kube/Calls.antt =====
-- One action for each call: it is answered, and then stands in the history. What the server
-- returns for a created or updated object overwrites the caller's copy: it is the result.
use cluster_api_agent.Prelude.{String, Bool, List, ◌∷◌, Option}
use cluster_api_agent.Kube.Errors.{Err, Outcome, ok}
use cluster_api_agent.Kube.Meta.{Key, ObjectMeta, ObjectReference}
use cluster_api_agent.Kube.Objects.{Cluster, Machine, Image, Keychain}
use cluster_api_agent.Kube.Kinds.{Kind, Obj}
use cluster_api_agent.Kube.Api.{
  Api, Call, History, Exec, Selector, TemplateInput, ConfigOwner, HttpResponse,
}

abbrev call : {L A : Type 0} → Call → (History → Outcome Err A) → Exec L Err A
call c answer env = (answer env.calls, record env { calls = c ∷ env.calls })

module _ {L : Type 0} (api : Api) where
  abbrev pub get : (k : Kind) → Key → Exec L Err (Obj k)
  get k key = call (Call.get k key) (api.get_answer k key)

  abbrev pub list : (k : Kind) → Selector → Exec L Err (List (Obj k))
  list k s = call (Call.list k s) (api.list_answer k s)

  abbrev pub create : (k : Kind) → Obj k → Exec L Err (Obj k)
  create k o = call (Call.create k o) (api.create_answer k o)

  abbrev pub update : (k : Kind) → Obj k → Exec L Err (Obj k)
  update k o = call (Call.update k o) (api.update_answer k o)

  abbrev pub update_status : (k : Kind) → Obj k → Exec L Err (Obj k)
  update_status k o = call (Call.update_status k o) (api.update_status_answer k o)

  abbrev pub delete : (k : Kind) → Key → Exec L Err Unit
  delete k key = call (Call.delete k key) (api.delete_answer k key)

  abbrev pub get_owner_cluster : ObjectMeta → Exec L Err (Option Cluster)
  get_owner_cluster m = call (Call.get_owner_cluster m) (api.owner_cluster_answer m)

  abbrev pub get_owner_machine : ObjectMeta → Exec L Err (Option Machine)
  get_owner_machine m = call (Call.get_owner_machine m) (api.owner_machine_answer m)

  abbrev pub get_typed_config_owner : ObjectMeta → Exec L Err (Option ConfigOwner)
  get_typed_config_owner m = call (Call.get_typed_config_owner m) (api.config_owner_answer m)

  abbrev pub get_cluster_by_name : String → String → Exec L Err Cluster
  get_cluster_by_name ns n = call (Call.get_cluster_by_name ns n) (api.cluster_by_name_answer ns n)

  abbrev pub get_owned_machines : Cluster → ObjectMeta → Exec L Err (List Machine)
  get_owned_machines c m = call (Call.get_owned_machines c m) (api.owned_machines_answer c m)

  abbrev pub create_from_template : TemplateInput → Exec L Err ObjectReference
  create_from_template i = call (Call.create_from_template i) (api.template_answer i)

  abbrev pub external_delete : ObjectReference → Exec L Err Unit
  external_delete r = call (Call.external_delete r) (api.external_delete_answer r)

  abbrev pub patch : (k : Kind) → Obj k → Bool → Exec L Err Unit
  patch k o observed = call (Call.patch k o observed) (api.patch_answer k o observed)

  abbrev pub workload_client : String → Exec L Err Unit
  workload_client kubeconfig =
      call (Call.workload_client kubeconfig) (api.workload_client_answer kubeconfig)

  -- remote.Image and remote.Get, with the credentials of a keychain
  abbrev pub remote_image : String → Keychain → Exec L Err Image
  remote_image ref kc = call (Call.remote_image ref kc) (api.remote_image_answer ref kc)

  abbrev pub remote_digest : String → Keychain → Exec L Err String
  remote_digest ref kc = call (Call.remote_digest ref kc) (api.remote_digest_answer ref kc)

  abbrev pub http_get : String → Exec L Err HttpResponse
  http_get url = call (Call.http_get url) (api.http_answer url)

  -- A random name is drawn. It is no call.
  abbrev pub draw_name : {E : Type 0} → String → Exec L E String
  draw_name base env = (ok (api.name_answer base env.calls), env)
