-- ===== src/Examples/Converging/Approaching.antt =====
-- A whole run of the reconciler, from one machine to two.
use cluster_api_agent.Prelude.{some}
use cluster_api_agent.Prelude.Int.{pos}
use cluster_api_agent.Kube.Api.{Exec, catch, fail, pure, ◌>>◌}
use cluster_api_agent.Kube.Reconcile.{Result, Returned, done}
use cluster_api_agent.ControlPlane.Resources.{Acp}
use cluster_api_agent.ControlPlane.Replicas.{reconcile_replicas}
use cluster_api_agent.ControlPlane.WorkloadUpgrade.{Tools}
use cluster_api_agent.Examples.Converging.{faithful}
use cluster_api_agent.Examples.Running.{tools_at}
use cluster_api_agent.Examples.Objects.{acp, cluster}

-- A control plane of two replicas.
abbrev pair : Acp
pair = record acp { spec = record acp.spec { replicas = pos 2 } }

abbrev tools : Tools
tools = tools_at faithful

-- The end of a run, from reconcileReplicas on.
abbrev ending : Exec Acp Returned Result
ending = do
  catch (reconcile_replicas tools.api tools.lib tools.deep_derivative cluster)
      (λ e. fail (done, some e))
  pure done
