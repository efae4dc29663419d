-- ===== src/Examples/Converging.antt =====
-- A server that lists what was created and not deleted, starting from one machine.
mod Approaching
use cluster_api_agent.Prelude.{
  ℕ, zero, suc, ◌<◌, ◌≡◌, true, refl, List, [], ◌∷◌, is_some, ap, length, some, filterb,
}
use cluster_api_agent.Kube.Errors.{ok}
use cluster_api_agent.Kube.Objects.{Machine}
use cluster_api_agent.Kube.Api.{Api}
use cluster_api_agent.ControlPlane.Machines.Domains.{AllPlaced}
use cluster_api_agent.ControlPlane.Replicas.{Derivative}
use cluster_api_agent.ControlPlane.Replicas.Converging.{Accepts, standing, AllRefer}
use cluster_api_agent.Examples.Objects.{cluster, machine_named, reference}
use cluster_api_agent.Examples.Running.{acp_and_secrets}
use cluster_api_agent.Examples.World.{plain, plain_domains, nothing}

abbrev always : Derivative
always = λ a b. true

abbrev machines : ℕ → List Machine
machines zero = []
machines (suc n) = machine_named "m" ∷ machines n

length-machines : (n : ℕ) → length (machines n) ≡ n
length-machines zero = refl
length-machines (suc n) = ap suc (length-machines n)

AllRefer-machines : (n : ℕ) → AllRefer (machines n)
AllRefer-machines zero = tt
AllRefer-machines (suc n) = (refl, AllRefer-machines n)

AllPlaced-machines : (n : ℕ) → AllPlaced plain cluster (machines n)
AllPlaced-machines zero = tt
AllPlaced-machines (suc n) = (refl, AllPlaced-machines n)

abbrev faithful : Api
faithful = record nothing {
  get_answer = acp_and_secrets;
  owner_cluster_answer = λ m h. ok (some cluster);
  owned_machines_answer = λ c m h. ok (machines (standing 1 h));
  template_answer = λ i h. ok (reference "infra");
  create_answer = λ k o h. ok o;
  delete_answer = λ k key h. ok tt;
}

accepts : Accepts faithful plain cluster 1
accepts = record {
  owned = λ h. machines (standing 1 h);
  stored = λ k o. o;
  cloned = λ i. reference "infra";
  reference = λ t m. record {
    api_version = t.api_version;
    kind = t.kind;
    namespace = m.namespace;
    name = m.name;
  };
  lists = λ m h. refl;
  counts = λ h. length-machines (standing 1 h);
  refer = λ h. AllRefer-machines (standing 1 h);
  creates = λ k o h. refl;
  clones = λ i h. refl;
  deletes = λ m h. refl;
  references = λ t m. refl;
  placed = λ h. AllPlaced-machines (standing 1 h);
  domains = plain_domains;
}
