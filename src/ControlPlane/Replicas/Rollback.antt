-- ===== src/ControlPlane/Replicas/Rollback.antt =====
-- What a failed scale-up leaves behind.
use cluster_api_agent.Prelude.{
  String, suc, Bool, true, false, ◌≡◌, ◌∷◌, ◌<>◌, refl, Option, some, arith, inl, inr,
}
use cluster_api_agent.Kube.Errors.{Err, ok, exit, Outcome-cases}
use cluster_api_agent.Kube.Objects.{Cluster, Machine}
use cluster_api_agent.Kube.Meta.{ObjectReference}
use cluster_api_agent.Kube.Kinds.{Kind, assisted_config, machine, key_of}
use cluster_api_agent.Kube.Api.{
  Api, History, Env, TemplateInput, create, delete, external_delete, create_from_template,
}
use cluster_api_agent.Kube.Library.{Library, owned_by}
use cluster_api_agent.Kube.Counts.{count, creates_machine, is_write}
use cluster_api_agent.ControlPlane.Types.{OpenshiftAssistedControlPlane}
use cluster_api_agent.Bootstrap.Types.{OpenshiftAssistedConfig}
use cluster_api_agent.ControlPlane.Machines.{
  template_input, compute_desired_machine, generate_openshift_assisted_config,
}
use cluster_api_agent.ControlPlane.Replicas.{Derivative, scale_up_control_plane}

abbrev is_config : Kind → Bool
is_config assisted_config = true
is_config _ = false

-- The calls of a scale-up that has cloned an infrastructure object, created a bootstrap
-- configuration and asked for a machine with that infrastructure, and has then deleted the two: the
-- configuration by the key that the server gave it, and the clone by its reference.
pub record RollsBack (api : Api) (before after : History) : Type 0 where
  pub input : TemplateInput
  pub literal : OpenshiftAssistedConfig
  pub config : OpenshiftAssistedConfig
  pub asked : Machine
  pub clone : ObjectReference
  pub cloned : api.template_answer input before ≡ ok clone
  pub configured :
      api.create_answer assisted_config literal (create_from_template input ∷ before) ≡ ok config
  pub uses : asked.spec.infrastructure_ref ≡ some clone
  pub trace :
      after
      ≡ external_delete clone
        ∷ delete assisted_config (key_of config.meta)
        ∷ create machine asked
        ∷ create assisted_config literal
        ∷ create_from_template input
        ∷ before

-- The newest call creates a bootstrap configuration.
abbrev pub stops_at_config : History → Bool
stops_at_config (create k o ∷ rest) = is_config k
stops_at_config _ = false

module _ (api : Api) (lib : Library) (derivative : Derivative) where
  -- A scale-up that ends with an error after it has asked for a machine has deleted the bootstrap
  -- configuration that it had created and then the infrastructure object that it had cloned, as its
  -- last two calls.
  pub scale_up_control_plane-RollsBack :
      (acp : OpenshiftAssistedControlPlane) (cluster : Cluster) (fd : Option String)
      (env : Env OpenshiftAssistedControlPlane) {e : Err}
      → (scale_up_control_plane api lib derivative acp cluster fd env).0 ≡ exit e
      → count creates_machine (scale_up_control_plane api lib derivative acp cluster fd env).1.calls
        ≡ suc (count creates_machine env.calls)
      → RollsBack api env.calls
          (scale_up_control_plane api lib derivative acp cluster fd env).1.calls
  unfolding scale_up_control_plane count compute_desired_machine generate_openshift_assisted_config
  scale_up_control_plane-RollsBack acp cluster fd env h n =
      let name = api.name_answer (acp.meta.name <> "-") env.calls in
      let input = template_input lib acp name cluster.meta.name in
      let calls1 = create_from_template input ∷ env.calls in
      let plain = generate_openshift_assisted_config lib acp cluster.meta.name name in
      let literal = record plain { meta = owned_by lib acp.meta plain.meta } in
      elim (Outcome-cases (api.template_answer input env.calls)) [
        | inl (e, failed) ↦ absurd (ground (arith, failed))
        | inr (clone, cloned) ↦
            elim (Outcome-cases (api.create_answer assisted_config literal calls1)) [
              | inl (e, failed) ↦ absurd (ground (arith, cloned, failed))
              | inr (config, configured) ↦
                  elim (Outcome-cases (lib.get_reference config.type_meta config.meta)) [
                    | inl (e, failed) ↦ absurd (ground (arith, cloned, configured, failed))
                    | inr (ref, referred) ↦
                        let desired = compute_desired_machine lib acp name cluster fd in
                        let asked : Machine = record desired {
                          spec = record desired.spec {
                            infrastructure_ref = some clone;
                            bootstrap_config_ref = some ref;
                          };
                        } in
                        let calls2 = create assisted_config literal ∷ calls1 in
                        elim (Outcome-cases (api.create_answer machine asked calls2)) [
                          | inl (e, failed) ↦ record {
                            input = input;
                            literal = literal;
                            config = config;
                            asked = asked;
                            clone = clone;
                            cloned = cloned;
                            configured = configured;
                            uses = refl;
                            trace = ground (arith, cloned, configured, referred, failed);
                          }
                          | inr (m, made) ↦
                              absurd (ground (arith, cloned, configured, referred, made))
                        ]
                  ]
            ]
      ]

  -- Where the infrastructure object has been cloned and the bootstrap configuration cannot be
  -- created, the scale-up stops with that error, and nothing deletes the clone.
  pub scale_up_leaks :
      (acp : OpenshiftAssistedControlPlane) (cluster : Cluster) (fd : Option _)
      (env : Env OpenshiftAssistedControlPlane) (ref : ObjectReference) (e : Err)
      → ((i : _) (h : History) → api.template_answer i h ≡ ok ref)
      → ((o : _) (h : History) → api.create_answer assisted_config o h ≡ exit e)
      → let (r, env') = scale_up_control_plane api lib derivative acp cluster fd env in
        (r ≡ exit e)
        × (stops_at_config env'.calls ≡ true)
        × (count is_write env'.calls ≡ suc (suc (count is_write env.calls)))
  unfolding scale_up_control_plane count
  scale_up_leaks acp cluster fd env ref e cloned refused = rw (cloned, refused) (ground arith)
