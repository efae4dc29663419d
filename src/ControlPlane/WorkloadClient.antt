-- ===== src/ControlPlane/WorkloadClient.antt =====
-- controlplane/internal/workloadclient/workload_client.go: the client of a workload cluster, from
-- its kubeconfig.
use cluster_api_agent.Prelude.{String}
use cluster_api_agent.Kube.Errors.{Err, Outcome, error, join_errors}
use cluster_api_agent.Kube.Api.{Api, Exec, fail, lift, catch, ◌>>=◌, ◌>>◌}
use cluster_api_agent.Kube.Calls.{workload_client}
use cluster_api_agent.ControlPlane.Common.{get_workload_kubeconfig}

-- clientcmd.NewClientConfigFromBytes, ClientConfig and configv1.Install. A client configuration is
-- written as a text, and client.New is a call of the API.
pub record ClientConfigs : Type 0 where
  pub new_client_config_from_bytes : String → Outcome Err String
  pub client_config : String → Outcome Err String
  pub install : Outcome Err (Unit {0})

module _ {L : Type 0} (api : Api) (configs : ClientConfigs) where
  open configs use {new_client_config_from_bytes, client_config, install}

  unfoldable pub get_workload_cluster_client : String → Exec L Err Unit
  get_workload_cluster_client kubeconfig = do
    config ←
        catch (lift (new_client_config_from_bytes kubeconfig))
          (λ e. fail (join_errors e (error "failed to get clientconfig from kubeconfig data")))
    rest_config ←
        catch (lift (client_config config))
          (λ e. fail (join_errors e (error "failed to get restconfig for kube client")))
    lift install
    workload_client api rest_config

  unfoldable pub get_workload_client_from_cluster_name : String → String → Exec L Err Unit
  unfolding get_workload_cluster_client
  get_workload_client_from_cluster_name cluster_name cluster_namespace = do
    kubeconfig ← get_workload_kubeconfig api cluster_name cluster_namespace
    catch (get_workload_cluster_client kubeconfig) (λ e.
        fail
          (join_errors e (error "failed to establish client for workload cluster from kubeconfig")))
