-- ===== src/Kube/Counts.antt =====
-- Counting the calls of a kind in a history.
use cluster_api_agent.Prelude.{◌≡◌, ℕ, suc, Bool, true, false, List, [], ◌∷◌, if◌then◌else◌}
use cluster_api_agent.Kube.Kinds.{Kind, machine, control_plane}
use cluster_api_agent.Kube.Api.{
  Call, History, Env, create, update, update_status, delete, create_from_template, external_delete,
  patch,
}

unfoldable pub count : (Call → Bool) → History → ℕ
count p [] = 0
count p (c ∷ cs) = let rest = count p cs in if p c then suc rest else rest

abbrev is_machine : Kind → Bool
is_machine machine = true
is_machine _ = false

abbrev is_control_plane : Kind → Bool
is_control_plane control_plane = true
is_control_plane _ = false

abbrev pub creates_machine : Call → Bool
creates_machine (create k o) = is_machine k
creates_machine _ = false

abbrev pub deletes_machine : Call → Bool
deletes_machine (delete k key) = is_machine k
deletes_machine _ = false

-- A status of a control plane is stored.
abbrev pub stores_status : Call → Bool
stores_status (update_status k o) = is_control_plane k
stores_status _ = false

-- Something is created, changed, patched or deleted.
abbrev pub is_write : Call → Bool
is_write (create k o) = true
is_write (update k o) = true
is_write (update_status k o) = true
is_write (delete k key) = true
is_write (create_from_template i) = true
is_write (external_delete r) = true
is_write (patch k o observed) = true
is_write _ = false

-- The machines that are created, as true, and deleted, as false.
unfoldable pub machine_calls : History → List Bool
machine_calls [] = []
machine_calls (c ∷ cs) =
    let rest = machine_calls cs in
    if creates_machine c then true ∷ rest else if deletes_machine c then false ∷ rest else rest

-- No machine is created or deleted between the two.
abbrev pub SameMachines : {L : Type 0} → Env L → Env L → Type 0
SameMachines env env' =
    (count creates_machine env'.calls ≡ count creates_machine env.calls)
    × (count deletes_machine env'.calls ≡ count deletes_machine env.calls)
    × (machine_calls env'.calls ≡ machine_calls env.calls)
