-- ===== src/Bootstrap/InfraEnvController/Attach.antt =====
-- Which configurations are given the URL of a live ISO.
use cluster_api_agent.Prelude.{
  ℕ, String, Bool, true, ◌≡◌, ◌&&◌, refl, List, [], ◌∷◌, Option, none, some, is_some, is_nil, arith,
  Option-cases, inl, inr,
}
use cluster_api_agent.Kube.Errors.{Err, ok, error, is_ok}
use cluster_api_agent.Kube.Kinds.{assisted_config}
use cluster_api_agent.Kube.Api.{Api, Call, Env, History}
use cluster_api_agent.AssistedInstaller.{ServiceConfig, Urls}
use cluster_api_agent.Bootstrap.Types.{OpenshiftAssistedConfig}
use cluster_api_agent.Bootstrap.InfraEnvController.{with_iso, attach_loop}

-- A status with the URL for each configuration that refers to an InfraEnv, in order.
abbrev pub attached : String → List OpenshiftAssistedConfig → History → History
attached url [] calls = calls
attached url (config ∷ rest) calls = elim config.status.infra_env_ref [
  | none ↦ attached url rest calls
  | some ref ↦ attached url rest (Call.update_status assisted_config (with_iso url config) ∷ calls)
]

abbrev pub all_refer : List OpenshiftAssistedConfig → Bool
all_refer [] = true
all_refer (config ∷ rest) = is_some config.status.infra_env_ref && all_refer rest

module _ (api : Api) (urls : Urls) (namespace : Option String) (decimal : ℕ → String) where
  -- Where every status is stored, each configuration that refers to an InfraEnv is given the URL,
  -- also after one that does not; and the loop is_ok exactly where none is skipped now or before.
  pub attach_loop_attaches :
      (url : String) (configs : List OpenshiftAssistedConfig) (skipped : Option Err)
      (env : Env ServiceConfig)
      → ((c : _) (h : History) → api.update_status_answer assisted_config c h ≡ ok c)
      → let (r, env') = attach_loop api urls namespace decimal url configs skipped env in
        (env'.calls ≡ attached url configs env.calls)
        × (env'.local ≡ env.local)
        × (is_ok r ≡ (all_refer configs && is_nil skipped))
  unfolding attach_loop
  attach_loop_attaches url [] none env stored = (refl, refl, refl)
  attach_loop_attaches url [] (some e) env stored = (refl, refl, refl)
  attach_loop_attaches url (config ∷ rest) skipped env stored =
      elim (Option-cases config.status.infra_env_ref) [
        | inl absent ↦
            let (a, b, c) =
              attach_loop_attaches url rest (some (error "skipped an infraenv, need to retry")) env
                stored in
            rw absent (ground arith)
        | inr (ref, there) ↦
            let env' = record env {
              calls = Call.update_status assisted_config (with_iso url config) ∷ env.calls;
            } in
            let (a, b, c) = attach_loop_attaches url rest skipped env' stored in
            ground (arith, there, stored (with_iso url config) env.calls, a, b, c)
      ]
