-- ===== src/Bootstrap/Lifecycle/Serving.antt =====
-- What a configuration has been given stays with it.
use cluster_api_agent.Prelude.{
  String, true, ◌≡◌, none, some, is_some, arith, Option-cases, inl, inr,
}
use cluster_api_agent.Kube.Errors.{Err, Outcome, ok}
use cluster_api_agent.Kube.Meta.{ObjectReference}
use cluster_api_agent.Kube.Kinds.{assisted_config}
use cluster_api_agent.Kube.Api.{Env, History}
use cluster_api_agent.Bootstrap.Ignition.{IgnitionConfig}
use cluster_api_agent.Bootstrap.AgentController.{ensure_bootstrap_config_reference}
use cluster_api_agent.Bootstrap.InfraEnvController.{with_iso}
use cluster_api_agent.Bootstrap.ConfigController.{Tools}
use cluster_api_agent.Bootstrap.ConfigController.Keeping.{
  NameLaws, IsServed, run_body-Keeps, run_body-KeepsReferences,
}
use cluster_api_agent.Bootstrap.Lifecycle.{
  Config, Step, run, iso_attached, agent_seen, deletion_requested, Reach, here, next,
}

-- From c on, in any number of steps.
pub record Stays (c c' : Config) : Type 0 where
  pub name : c'.meta.name ≡ c.meta.name
  pub deleted : is_some c.meta.deletion_timestamp ≡ true → is_some c'.meta.deletion_timestamp ≡ true
  pub ready : c.status.ready ≡ true → c'.status.ready ≡ true

-- While it is not being deleted.
pub record StaysReferred (c c' : Config) : Type 0 where
  pub agent : is_some c.status.agent_ref ≡ true → c'.status.agent_ref ≡ c.status.agent_ref
  pub infra :
      is_some c.status.infra_env_ref ≡ true → c'.status.infra_env_ref ≡ c.status.infra_env_ref

module _ (tools : Tools) (laws : NameLaws tools.api tools.lib)
    (stores : (c : Config) (h : History)
      → tools.api.update_status_answer assisted_config c h ≡ ok c) where
  -- The Agent controller goes on with c, or with c and a reference that was missing.
  agent_seen_gives :
      (marshal : IgnitionConfig → Outcome Err String) (encode_base64 : String → String)
      (ref : ObjectReference) (agent_name : String) (env : Env (Unit {0})) (c c' : Config)
      → tools.api.get_answer assisted_config
          (record { namespace = ref.namespace; name = ref.name })
          env.calls
        ≡ ok c
      → (ensure_bootstrap_config_reference tools.api marshal encode_base64 ref agent_name env).0
        ≡ ok c'
      → c' ≡ (elim c.status.agent_ref [
        | some r ↦ c
        | none ↦ record c {
          status = record c.status { agent_ref = some (record { name = agent_name }) };
        }
      ])
  unfolding ensure_bootstrap_config_reference
  agent_seen_gives marshal encode_base64 ref agent_name env c c' found gone = grind (arith, stores)

  Step-IsServed : {c c' : Config} → Step tools c c' → IsServed c → IsServed c' × Stays c c'
  unfolding with_iso
  Step-IsServed (run h c) served =
      let kept = run_body-Keeps tools laws (record { local = c; calls = h }) served in ground arith
  Step-IsServed (iso_attached c url infra there) served = ground arith
  Step-IsServed (agent_seen marshal encode_base64 ref agent_name env {c} {c'} found gone) served =
      let given = agent_seen_gives marshal encode_base64 ref agent_name env c c' found gone in
      elim (Option-cases c.status.agent_ref) [
        | inl first ↦ rw (given, first) (ground arith)
        | inr (r, known) ↦ rw (given, known) (ground arith)
      ]
  Step-IsServed (deletion_requested c t) served = ground arith

  Step-StaysReferred :
      {c c' : Config}
      → Step tools c c'
      → IsServed c
      → c.meta.deletion_timestamp ≡ none
      → StaysReferred c c'
  unfolding with_iso
  Step-StaysReferred (run h c) served live =
      let kept =
        run_body-KeepsReferences tools laws (record { local = c; calls = h }) served live in
      ground arith
  Step-StaysReferred (iso_attached c url infra there) served live = ground arith
  Step-StaysReferred (agent_seen marshal encode_base64 ref agent_name env {c} {c'} found gone)
        served live =
      let given = agent_seen_gives marshal encode_base64 ref agent_name env c c' found gone in
      elim (Option-cases c.status.agent_ref) [
        | inl first ↦ rw (given, first) (ground arith)
        | inr (r, known) ↦ rw (given, known) (ground arith)
      ]
  Step-StaysReferred (deletion_requested c t) served live = ground arith

  pub Reach-IsServed : {c0 c : Config} → IsServed c0 → Reach tools c0 c → IsServed c × Stays c0 c
  Reach-IsServed served here = ground arith
  Reach-IsServed served (next r s) =
      let (before, kept) = Reach-IsServed served r in
      let (after, stays) = Step-IsServed s before in ground arith

  -- However the runs follow one another, up to a configuration that is not being deleted: the first
  -- Agent and the first InfraEnv that it has referred to are those that it refers to.
  pub Reach-StaysReferred :
      {c0 c : Config}
      → IsServed c0
      → Reach tools c0 c
      → c.meta.deletion_timestamp ≡ none
      → StaysReferred c0 c
  Reach-StaysReferred served here live = ground arith
  Reach-StaysReferred served (next {c} r s) live =
      let (before, kept) = Reach-IsServed served r in
      let (after, stays) = Step-IsServed s before in
      let alive : c.meta.deletion_timestamp ≡ none = ground arith in
      let referred = Reach-StaysReferred served r alive in
      let still = Step-StaysReferred s before alive in ground arith
