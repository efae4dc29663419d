-- ===== src/ControlPlane/Resources/Reference.antt =====
-- The reference to the ClusterDeployment.
use cluster_api_agent.Prelude.{String, true, false, ◌≡◌, some, none, arith, is_some}
use cluster_api_agent.Kube.Errors.{ok, exit}
use cluster_api_agent.Kube.Kinds.{cluster_deployment}
use cluster_api_agent.Kube.Api.{Api, Env}
use cluster_api_agent.Kube.Library.{Library}
use cluster_api_agent.ControlPlane.Common.{create_or_update}
use cluster_api_agent.ControlPlane.Resources.{Acp, ensure_cluster_deployment}

module _ (api : Api) (lib : Library) where
  -- Without a reference, a success has set one. With one, the reference is kept where its object is
  -- there, and dropped where it is not found, so that the next run makes a new one.
  pub ensure_cluster_deployment_refers :
      (cluster_name : String) (env : Env Acp)
      → (ensure_cluster_deployment api lib cluster_name env).0 ≡ ok tt
      → let before = env.local.status.cluster_deployment_ref in
        let after =
          (ensure_cluster_deployment api lib cluster_name
            env).1.local.status.cluster_deployment_ref in
        is_some after ≡ (elim before [
          | none ↦ true
          | some ref ↦
              elim (api.get_answer cluster_deployment
                (record { namespace = ref.namespace; name = ref.name })
                env.calls) [ ok _ ↦ true | exit e ↦ false ]
        ])
  unfolding ensure_cluster_deployment create_or_update
  ensure_cluster_deployment_refers cluster_name env h = ground arith
