-- ===== src/ControlPlane/Common/Writes.antt =====
-- What CreateOrUpdate of util/util.go writes.
use cluster_api_agent.Prelude.{◌≡◌, ◌⊎◌, ◌∷◌, arith}
use cluster_api_agent.Kube.Errors.{ok}
use cluster_api_agent.Kube.Kinds.{Kind, Obj, meta_of, key_of}
use cluster_api_agent.Kube.Api.{Api, Call, Env}
use cluster_api_agent.ControlPlane.Common.{create_or_update}

-- A success has asked for the object and then written the argument, not what it found, exactly
-- once: created where it was not found, updated where it was.
pub create_or_update_writes :
    {L : Type 0} (api : Api) (k : Kind) (o : Obj k) (env : Env L) {x : Obj k}
    → (create_or_update api k o env).0 ≡ ok x
    → let asked = Call.get k (key_of (meta_of k o)) ∷ env.calls in
      ((create_or_update api k o env).1.calls ≡ Call.create k o ∷ asked)
      ⊎ ((create_or_update api k o env).1.calls ≡ Call.update k o ∷ asked)
unfolding create_or_update
create_or_update_writes api k o env h = ground arith
