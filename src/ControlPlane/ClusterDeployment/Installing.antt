-- ===== src/ControlPlane/ClusterDeployment/Installing.antt =====
-- What a run on a ClusterDeployment leaves behind.
use cluster_api_agent.Prelude.{
  String, not, ◌≡◌, ◌⊎◌, ◌&&◌, inl, inr, ◌∷◌, Option, none, some, is_empty, arith, if◌then◌else◌,
}
use cluster_api_agent.Prelude.Int.{ℤ}
use cluster_api_agent.Kube.Errors.{ok, Outcome-cases}
use cluster_api_agent.Kube.Meta.{Key}
use cluster_api_agent.Kube.Objects.{
  Cluster, ClusterDeployment, ClusterImageSet, AgentClusterInstall, none_platform,
  bare_metal_platform,
}
use cluster_api_agent.Kube.Kinds.{
  Kind, Obj, meta_of, key_of, cluster_deployment, cluster_image_set, agent_cluster_install,
}
use cluster_api_agent.Kube.Api.{Api, Call, Env, History}
use cluster_api_agent.ControlPlane.Types.{OpenshiftAssistedControlPlane}
use cluster_api_agent.ControlPlane.Common.{
  create_or_update, get_architecture_from_bootstrap_configs, release_image_of,
}
use cluster_api_agent.ControlPlane.Common.Writes.{create_or_update_writes}
use cluster_api_agent.ControlPlane.Capabilities.{set_aci_capabilities}
use cluster_api_agent.ControlPlane.ClusterDeployment.{
  Tools, agent_cluster_install_of, compute_agent_cluster_install, write_agent_cluster_install,
  ensure_agent_cluster_install, update_cluster_deployment_ref, compute_cluster_image_set,
  additional_manifests, get_worker_nodes_count,
}

-- An object is stored under the key that it is asked by.
abbrev pub Keyed : Api → Type 0
Keyed api =
    (k : Kind) (key : Key) (h : History) (o : Obj k)
    → api.get_answer k key h ≡ ok o
    → key_of (meta_of k o) ≡ key

create_or_update_key :
    {L : Type 0} (api : Api)
    → Keyed api
    → (k : Kind) (o x : Obj k) (env : Env L) → (create_or_update api k o env).0 ≡ ok x
    → key_of (meta_of k x) ≡ key_of (meta_of k o)
unfolding create_or_update
create_or_update_key api keyed k o x env h =
    elim (Outcome-cases (api.get_answer k (key_of (meta_of k o)) env.calls)) [
      | inl (e, missing) ↦ ground (arith, missing)
      | inr (found, there) ↦
          ground (arith, there, keyed k (key_of (meta_of k o)) env.calls found there)
    ]

-- The AgentClusterInstall that is written: of this deployment and this control plane, with the image
-- set of the deployment's name, and on bare metal exactly where there are VIPs of both kinds.
pub record IsOf (cd : ClusterDeployment) (acp : OpenshiftAssistedControlPlane)
    (aci : AgentClusterInstall) : Type 0 where
  pub name : key_of aci.meta ≡ key_of cd.meta
  pub deployment : aci.spec.cluster_deployment_ref.name ≡ cd.meta.name
  pub replicas : aci.spec.control_plane_agents ≡ acp.spec.replicas
  pub platform : aci.spec.platform_type ≡ (
      if not (is_empty acp.spec.config.api_vips) && not (is_empty acp.spec.config.ingress_vips)
      then bare_metal_platform
      else none_platform)

set_aci_capabilities-IsOf :
    (marshal : _) (cd : ClusterDeployment) (acp : OpenshiftAssistedControlPlane)
    (aci x : AgentClusterInstall)
    → set_aci_capabilities marshal acp aci ≡ ok x
    → IsOf cd acp aci
    → (x.spec.image_set_ref ≡ aci.spec.image_set_ref) × IsOf cd acp x
unfolding set_aci_capabilities
set_aci_capabilities-IsOf marshal cd acp aci x h of = ground arith

name_of_image_set :
    (cd : ClusterDeployment) (image : String) (image_set : ClusterImageSet)
    → key_of image_set.meta ≡ key_of (compute_cluster_image_set cd.meta.name image).meta
    → image_set.meta.name ≡ cd.meta.name
unfolding compute_cluster_image_set
name_of_image_set cd image image_set key = ground arith

-- The deployment with a reference to the AgentClusterInstall of its own name.
abbrev pub referring : ClusterDeployment → ClusterDeployment
referring cd = record cd {
  cluster_install_ref = some (record {
    group = "extensions.hive.openshift.io";
    version = "v1beta1";
    kind = "AgentClusterInstall";
    name = cd.meta.name;
  });
}

-- The two last calls: the AgentClusterInstall is created or updated, then the deployment.
abbrev pub Leaves : ClusterDeployment → AgentClusterInstall → History → Type 0
Leaves cd aci calls =
    (h : History) × ((calls
        ≡ Call.update cluster_deployment (referring cd) ∷ Call.create agent_cluster_install aci ∷ h)
      ⊎ (calls
          ≡ Call.update cluster_deployment (referring cd)
            ∷ Call.update agent_cluster_install aci
            ∷ h))

module _ {L : Type 0} (tools : Tools) (keyed : Keyed tools.api) where
  compute-IsOf :
      (cd : ClusterDeployment) (acp : OpenshiftAssistedControlPlane) (image_set : ClusterImageSet)
      (cluster : Cluster) (workers : ℤ) (env : Env L) (aci : AgentClusterInstall)
      → (compute_agent_cluster_install tools cd acp image_set cluster workers env).0 ≡ ok aci
      → (aci.spec.image_set_ref ≡ some image_set.meta.name) × IsOf cd acp aci
  unfolding compute_agent_cluster_install agent_cluster_install_of
  compute-IsOf cd acp image_set cluster workers env aci h =
      elim (Outcome-cases (additional_manifests tools acp env).0) [
        | inl (e, failed) ↦ absurd (ground (arith, failed))
        | inr (refs, made) ↦
            let literal =
              agent_cluster_install_of tools.lib cd acp image_set cluster workers refs in
            let given : set_aci_capabilities tools.marshal acp literal ≡ ok aci =
              ground (arith, made) in
            ground (arith, set_aci_capabilities-IsOf tools.marshal cd acp literal aci given)
      ]

  write-Leaves :
      (cd : ClusterDeployment) (acp : OpenshiftAssistedControlPlane) (image_set : ClusterImageSet)
      (workers : ℤ) (cluster : Option Cluster) (env : Env L)
      → (write_agent_cluster_install tools cd acp image_set workers cluster env).0 ≡ ok tt
      → (aci : AgentClusterInstall) × Leaves cd aci
          (write_agent_cluster_install tools cd acp image_set workers cluster env).1.calls
        × (aci.spec.image_set_ref ≡ some image_set.meta.name)
        × IsOf cd acp aci
  unfolding write_agent_cluster_install update_cluster_deployment_ref
  write-Leaves cd acp image_set workers none env h = absurd (ground arith)
  write-Leaves cd acp image_set workers (some cluster) env h =
      let (r, env1) = compute_agent_cluster_install tools cd acp image_set cluster workers env in
      elim (Outcome-cases r) [
        | inl (e, failed) ↦ absurd (ground (arith, failed))
        | inr (aci, made) ↦
            let (named, of) = compute-IsOf cd acp image_set cluster workers env aci made in
            elim (Outcome-cases (create_or_update tools.api agent_cluster_install aci env1).0) [
              | inl (e, failed) ↦ absurd (ground (arith, made, failed))
              | inr (x, written) ↦
                  let key =
                    create_or_update_key tools.api keyed agent_cluster_install aci x env1 written in
                  let calls =
                    create_or_update_writes tools.api agent_cluster_install aci env1 written in
                  let asked = Call.get agent_cluster_install (key_of aci.meta) ∷ env1.calls in
                  let same : x.meta.name ≡ cd.meta.name = ground (arith, key, of.name) in
                  elim calls [
                    | inl created ↦ (
                      aci,
                      (asked, inl (ground (arith, made, written, same, created))),
                      named,
                      of,
                    )
                    | inr updated ↦ (
                      aci,
                      (asked, inr (ground (arith, made, written, same, updated))),
                      named,
                      of,
                    )
                  ]
            ]
      ]

  -- A run that ends well on the deployment of a control plane, where objects are stored under the
  -- keys that they are asked by: its last calls create or update the AgentClusterInstall, of the name
  -- of the deployment and with the replicas of the control plane and the image set of that name, and
  -- then make the deployment refer to it.
  pub ensure_agent_cluster_install-Leaves :
      (cd : ClusterDeployment) (acp : OpenshiftAssistedControlPlane) (env : Env L)
      → (ensure_agent_cluster_install tools cd acp env).0 ≡ ok tt
      → (aci : AgentClusterInstall) × Leaves cd aci
          (ensure_agent_cluster_install tools cd acp env).1.calls
        × (aci.spec.image_set_ref ≡ some cd.meta.name)
        × IsOf cd acp aci
  unfolding ensure_agent_cluster_install
  ensure_agent_cluster_install-Leaves cd acp env h =
      let env1 = record env { calls = Call.get_owner_cluster acp.meta ∷ env.calls } in
      let (r2, env2) = get_architecture_from_bootstrap_configs tools.api acp env1 in
      elim (Outcome-cases (tools.api.owner_cluster_answer acp.meta env.calls)) [
        | inl (e, failed) ↦ absurd (ground (arith, failed))
        | inr (cluster, got) ↦ elim (Outcome-cases r2) [
          | inl (e, failed) ↦ absurd (ground (arith, got, failed))
          | inr (arch, known) ↦
              let literal =
                compute_cluster_image_set cd.meta.name
                  (release_image_of tools.parse_tolerant acp arch) in
              let (r3, env3) = create_or_update tools.api cluster_image_set literal env2 in
              elim (Outcome-cases r3) [
                | inl (e, failed) ↦ absurd (ground (arith, got, known, failed))
                | inr (image_set, stored) ↦
                    let (r4, env4) = get_worker_nodes_count tools cluster env3 in
                    elim (Outcome-cases r4) [
                      | inl (e, failed) ↦ absurd (ground (arith, got, known, stored, failed))
                      | inr (workers, counted) ↦
                          let key =
                            create_or_update_key tools.api keyed cluster_image_set literal image_set
                              env2 stored in
                          let named = name_of_image_set cd _ image_set key in
                          let (aci, left, set, of) =
                            write-Leaves cd acp image_set workers cluster env4
                              (rw (got, known, stored, counted) at h) in
                          (aci, rw (got, known, stored, counted) left, rw named at set, of)
                    ]
              ]
        ]
      ]
