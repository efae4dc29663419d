-- ===== src/ControlPlane/Common/Owners.antt =====
-- What GetTypedOwner of util/util.go finds.
use mathlib.Core.List.{Memᴰ}
use cluster_api_agent.Prelude.{String, true, ◌≡◌, refl, List, [], ◌∷◌, arith, Bool-cases, inl, inr}
use cluster_api_agent.Kube.Errors.{Err, Outcome, ok, exit}
use cluster_api_agent.Kube.Meta.{Key, ObjectMeta, OwnerReference}
use cluster_api_agent.Kube.Kinds.{Kind, Obj}
use cluster_api_agent.Kube.Api.{Api, Call, Env, History}
use cluster_api_agent.ControlPlane.Common.{is_owner, typed_owner_loop, get_typed_owner}

-- The object was fetched by the name of one of the references, whose version and kind it has.
abbrev pub Found : (k : Kind) → Api → String → List OwnerReference → Obj k → Type 0
Found k api namespace refs o =
    (ref : OwnerReference) × (h : History) × Memᴰ ref refs
    × (api.get_answer k (record { namespace = namespace; name = ref.name }) h ≡ ok o)
    × (is_owner k ref o ≡ true)

found_later :
    (k : Kind) (api : Api) (namespace : String) (ref : OwnerReference) (refs : List OwnerReference)
    (o : Obj k)
    → Found k api namespace refs o
    → Found k api namespace (ref ∷ refs) o
found_later k api namespace ref refs o (ref', h, there, answered, owner) =
    (ref', h, Memᴰ.tail there, answered, owner)

abbrev owner_key : String → OwnerReference → Key
owner_key namespace ref = record { namespace = namespace; name = ref.name }

module _ {L : Type 0} (api : Api) (k : Kind) (namespace : String) where
  typed_owner_step :
      (ref : OwnerReference) (refs : List OwnerReference) (env : Env L) (o : Obj k)
      (r : Outcome Err (Obj k))
      → api.get_answer k (owner_key namespace ref) env.calls ≡ r
      → ((env' : Env L)
          → (typed_owner_loop api k namespace refs env').0 ≡ ok o
          → Found k api namespace refs o)
      → (typed_owner_loop api k namespace (ref ∷ refs) env).0 ≡ ok o
      → Found k api namespace (ref ∷ refs) o
  unfolding typed_owner_loop
  typed_owner_step ref refs env o (exit e) answered rest h =
      found_later k api namespace ref refs o (
        rest (record env { calls = Call.get k (owner_key namespace ref) ∷ env.calls })
          (rw answered at h))
  typed_owner_step ref refs env o (ok o') answered rest h = elim (Bool-cases (is_owner k ref o')) [
    | inl owner ↦
        let same : o' ≡ o = ground arith in
        (ref, env.calls, Memᴰ.head refl, rw (← same) answered, rw (← same) owner)
    | inr stranger ↦ found_later k api namespace ref refs o (
        rest (record env { calls = Call.get k (owner_key namespace ref) ∷ env.calls })
          (rw stranger at (rw answered at h)))
  ]

  typed_owner_loop_sound :
      (refs : List OwnerReference) (env : Env L) {o : Obj k}
      → (typed_owner_loop api k namespace refs env).0 ≡ ok o
      → Found k api namespace refs o
  typed_owner_loop_sound [] env h = absurd (unfold typed_owner_loop in ground arith)
  typed_owner_loop_sound (ref ∷ refs) env {o} h =
      typed_owner_step ref refs env o _ refl (λ env' h'. typed_owner_loop_sound refs env' h') h

-- What is found is an object in the same namespace that one of the owner references names, with the
-- version and the kind that the reference gives.
pub get_typed_owner_sound :
    {L : Type 0} (api : Api) (k : Kind) (m : ObjectMeta) (env : Env L) {o : Obj k}
    → (get_typed_owner api k m env).0 ≡ ok o
    → Found k api m.namespace m.owner_references o
unfolding get_typed_owner
get_typed_owner_sound api k m env h =
    typed_owner_loop_sound api k m.namespace m.owner_references env h
