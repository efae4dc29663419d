-- ===== src/Lib.antt =====
-- The Cluster API provider for OpenShift clusters that are installed by the assisted installer: a
-- control plane provider and a bootstrap provider, each a manager of Kubernetes controllers.
--
-- The parts, and how they interact. An OpenshiftAssistedControlPlane is reconciled by
-- controlplane/internal/controller/openshiftassistedcontrolplane_controller.go: it makes a pull secret
-- and a ClusterDeployment, finds the Kubernetes version of the release, moves the workload cluster to
-- the desired version, and adds or removes one machine of the control plane in a run.
-- clusterdeployment_controller.go gives the ClusterDeployment its ClusterImageSet and its
-- AgentClusterInstall, agentclusterinstall_controller.go brings the kubeconfig and the state of the
-- installation back. For each machine bootstrap/internal/controller/openshiftassistedconfig_controller.go
-- makes an InfraEnv, waits for the URL of its live ISO, which infraenv_controller.go copies, and
-- publishes the ignition in a secret; agent_controller.go approves the Agent that boots.
--
-- How the code is written here. The object that a run works on is behind a pointer: an action is a
-- function from an `Env`, which holds that object and the calls made so far, to an outcome and an `Env`
-- (Kube/Api). A call of the API server, of cluster-api's helpers, of a registry or of HTTP is an entry
-- of the history, and is answered by a function of the calls before it, a parameter: whatever other
-- clients do in between is one such function. An error is its text and the reasons that errors.Is and
-- the tests of apierrors find in it (Kube/Errors), so that `%w` keeps them and `%v` does not. A nil
-- dereference is an error of its own. Go maps are association lists, read by the first entry of a key;
-- int and int32 are integers over the native numbers, with the wrap-around of int32 written out
-- (Prelude/Int). Functions of vendored libraries are parameters: conditions, finalizers, owner
-- references, machine collections and failure domains are the record `Library` (Kube/Library), with
-- their documented laws, and the random name of a machine is an answer like those of the server;
-- semver, json, base64, toml, url and x509 are arguments of the modules that use them.
--
-- The files, with the code that they model:
--   Kube, Kube/*: the Kubernetes objects, the API, results of a Reconcile function.
--   ControlPlane/Types: controlplane/api/v1alpha2.
--   ControlPlane/Release: controlplane/internal/release (IsOKD, IsOKDGA, IsGA, GetReleaseImage).
--   ControlPlane/Upgrade: controlplane/internal/upgrade/upgrade.go.
--   ControlPlane/Version: controlplane/internal/version/openshift.go.
--   ControlPlane/WorkloadClient: controlplane/internal/workloadclient/workload_client.go.
--   ControlPlane/ImageRegistry: controlplane/internal/imageregistry/image_registry.go; Manifests has
--     the functions that generate, the rest the parser of registries.conf.
--   ControlPlane/Common: util/util.go, controlplane/internal/auth/auth.go, getArchitecture and
--     getReleaseImage of the controllers.
--   ControlPlane/Capabilities, ControlPlane/ClusterDeployment: clusterdeployment_controller.go.
--   ControlPlane/AgentClusterInstall: agentclusterinstall_controller.go.
--   ControlPlane/Machines, Replicas, Marks, Resources, WorkloadUpgrade, Reconciler:
--     openshiftassistedcontrolplane_controller.go, and util/failuredomains in Machines. Reconcile is
--     `reconcile`; `run_body` is what follows the patch helper, `finish` the deferred function,
--     `reconcile_body` the rest, cut where the source tests and returns.
--   Containers: pkg/containers (auth.go, repository.go, extractor.go).
--   AssistedInstaller: assistedinstaller (config.go, clusterdeployment.go, infraenv.go), and its child
--     Client for client.go.
--   Bootstrap/Types: bootstrap/api/v1alpha1. Bootstrap/Ignition: bootstrap/internal/ignition.
--   Bootstrap/ConfigController, Secrets, Watches: openshiftassistedconfig_controller.go, with the
--     index functions of infraenv_controller.go in Watches.
--   Bootstrap/InfraEnvController, Bootstrap/AgentController: the controllers of those names.
--   Bootstrap/Lifecycle: a stored OpenshiftAssistedConfig under the three controllers, as a step
--     relation. A step is a whole run on the object as it is stored, and stores its result: the
--     runs follow one another, and runs that overlap on one object are not modelled.
--   Examples: concrete clusters and servers at which the theorems are applied.
-- The children of a module prove what their names say of it. Functions have the source's names in
-- snake case.
--
-- Bounds. The only recursion that is not structural is the one that follows symbolic links in an
-- image. Its fuel is the number of links left, six, so that at zero the source's depth has passed
-- maxSymlinkDepth = 5 and the source gives up in the same way. Runs that follow one another are counted
-- (ControlPlane/Replicas/Converging, ControlPlane/Reconciler/Machines/Converging) or derived one by one
-- (Bootstrap/Lifecycle).
--
-- Not modelled: the managers (bootstrap/main.go, controlplane/main.go), the set-up of watches, scheme
-- registration, deep copies, mocks, logging and contexts: wiring, generated code and I/O. Only the
-- fields that the program reads or writes are kept of an object. The order in which Go walks a map is
-- some order of the list.
mod Prelude
mod Examples
pub mod Kube
pub mod Containers
pub mod ControlPlane
pub mod AssistedInstaller
pub mod Bootstrap
