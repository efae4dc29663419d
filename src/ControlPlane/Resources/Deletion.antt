-- ===== src/ControlPlane/Resources/Deletion.antt =====
-- How a control plane is let go, and its placeholder pull secret.
use cluster_api_agent.ControlPlane.Common.{generate_fake_pull_secret}
use cluster_api_agent.Prelude.{
  Option-cases, inl, inr, ◌||◌, Bool, true, false, ◌≡◌, Option, some, none, arith, refl, is_some,
}
use cluster_api_agent.Kube.Errors.{Err, Outcome, ok, exit, has_reason, not_found, is_ok}
use cluster_api_agent.Kube.Meta.{Key, ObjectReference, ObjectMeta}
use cluster_api_agent.Kube.Kinds.{cluster_deployment, secret}
use cluster_api_agent.Kube.Api.{Api, Env, History}
use cluster_api_agent.Kube.Library.{Library, FinalizerLaws}
use cluster_api_agent.ControlPlane.Types.{acp_finalizer}
use cluster_api_agent.ControlPlane.Resources.{Acp, handle_deletion, ensure_pull_secret}

-- The answer to a deletion that lets the owner go: it is done, or there was nothing to delete.
abbrev pub is_gone : Outcome Err Unit → Bool
is_gone (ok _) = true
is_gone (exit e) = has_reason not_found e

abbrev key_of_ref : ObjectReference → Key
key_of_ref ref = record { namespace = ref.namespace; name = ref.name }

-- The reference is nil, or its ClusterDeployment is gone.
abbrev pub cluster_gone : Api → Option ObjectReference → History → Bool
cluster_gone api none h = true
cluster_gone api (some ref) h = is_gone (api.delete_answer cluster_deployment (key_of_ref ref) h)

module _ (api : Api) (lib : Library) (laws : FinalizerLaws lib) where
  released_at :
      (o : Option ObjectReference) (env : Env Acp)
      → env.local.status.cluster_deployment_ref ≡ o
      → lib.contains_finalizer env.local.meta acp_finalizer ≡ true
      → cluster_gone api o env.calls ≡ true
      → let (r, env') = handle_deletion api lib env in
        (r ≡ ok tt)
        × (lib.contains_finalizer env'.local.meta acp_finalizer ≡ false)
        × (env'.local.status.cluster_deployment_ref ≡ none)
  unfolding handle_deletion
  released_at none env e held gone =
      ground (arith, laws.contains-remove env.local.meta acp_finalizer)
  released_at (some ref) env e held gone =
      ground (arith, laws.contains-remove env.local.meta acp_finalizer)

  -- A control plane that has the finalizer loses it, and its reference, where its ClusterDeployment
  -- is gone: deleted, not found, or never referred to. The run then succeeds.
  pub handle_deletion_releases :
      (env : Env Acp)
      → lib.contains_finalizer env.local.meta acp_finalizer ≡ true
      → cluster_gone api env.local.status.cluster_deployment_ref env.calls ≡ true
      → let (r, env') = handle_deletion api lib env in
        (r ≡ ok tt)
        × (lib.contains_finalizer env'.local.meta acp_finalizer ≡ false)
        × (env'.local.status.cluster_deployment_ref ≡ none)
  handle_deletion_releases env held gone =
      released_at env.local.status.cluster_deployment_ref env refl held gone

module _ (api : Api) (lib : Library) where
  held_at :
      (o : Option ObjectReference) (env : Env Acp)
      → env.local.status.cluster_deployment_ref ≡ o
      → lib.contains_finalizer env.local.meta acp_finalizer ≡ true
      → cluster_gone api o env.calls ≡ false
      → let (r, env') = handle_deletion api lib env in (is_ok r ≡ false) × (env'.local ≡ env.local)
  unfolding handle_deletion
  held_at none env e held gone = ground arith
  held_at (some ref) env e held gone = ground arith

  -- While the deletion of its ClusterDeployment fails for another reason than that it is not found,
  -- a control plane keeps its finalizer, its reference and all else, and the run fails.
  pub handle_deletion_holds :
      (env : Env Acp)
      → lib.contains_finalizer env.local.meta acp_finalizer ≡ true
      → cluster_gone api env.local.status.cluster_deployment_ref env.calls ≡ false
      → let (r, env') = handle_deletion api lib env in (is_ok r ≡ false) × (env'.local ≡ env.local)
  handle_deletion_holds env held gone =
      held_at env.local.status.cluster_deployment_ref env refl held gone

  -- Where the owner reference can be set on the placeholder, ensurePullSecret succeeds exactly where
  -- the control plane refers to a pull secret or the placeholder with that owner is created, whatever
  -- the reason for a refusal, that it exists among them; after it there is a reference exactly where
  -- it succeeded.
  pub ensure_pull_secret_outcome :
      (env : Env Acp) (owned : ObjectMeta)
      → lib.set_owner_reference env.local.meta
          (generate_fake_pull_secret "placeholder-pull-secret" env.local.meta.namespace).meta
        ≡ ok owned
      → let (r, env') = ensure_pull_secret api lib env in
        let literal =
          generate_fake_pull_secret "placeholder-pull-secret" env.local.meta.namespace in
        let placeholder = record literal { meta = owned } in
        (is_ok r ≡ (
          is_some env.local.spec.config.pull_secret_ref
          || is_ok (api.create_answer secret placeholder env.calls)))
        × (is_some env'.local.spec.config.pull_secret_ref ≡ is_ok r)
  unfolding ensure_pull_secret generate_fake_pull_secret
  ensure_pull_secret_outcome env owned set =
      elim (Option-cases env.local.spec.config.pull_secret_ref) [
        | inl absent ↦ ground (arith, absent, set)
        | inr (ref, there) ↦ rw there (ground arith)
      ]

  -- After a successful ensurePullSecret the reference to the pull secret is there, so that the
  -- pointer that GetPullSecret follows is not nil; a reference that was there is kept.
  pub ensure_pull_secret_present :
      (env : Env Acp)
      → (ensure_pull_secret api lib env).0 ≡ ok tt
      → (is_some (ensure_pull_secret api lib env).1.local.spec.config.pull_secret_ref ≡ true)
  unfolding ensure_pull_secret
  ensure_pull_secret_present env h = ground arith
