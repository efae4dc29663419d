-- ===== src/ControlPlane/Replicas/Selection.antt =====
-- Which machine a scale-down deletes.
use mathlib.Core.List.{Memᴰ}
use cluster_api_agent.Prelude.{
  String, Bool, true, false, ◌≡◌, List, [], ◌∷◌, Option, some, arith, filterb, Option-cases, inl,
  inr, if◌then◌else◌,
}
use cluster_api_agent.Kube.Errors.{ok}
use cluster_api_agent.Kube.Objects.{Machine}
use cluster_api_agent.Kube.Kinds.{machine, key_of}
use cluster_api_agent.Kube.Api.{Api, Call, Env}
use cluster_api_agent.Kube.Library.{Library}
use cluster_api_agent.ControlPlane.Types.{OpenshiftAssistedControlPlane}
use cluster_api_agent.ControlPlane.Machines.{select_machine_for_scale_down}
use cluster_api_agent.ControlPlane.Replicas.{Derivative, scale_down_control_plane}

Mem_of_kept :
    {A : Type 0} (b : Bool) (x y : A) (rest xs : List A)
    → (Memᴰ x rest → Memᴰ x xs)
    → Memᴰ x (if b then y ∷ rest else rest)
    → Memᴰ x (y ∷ xs)
Mem_of_kept false x y rest xs k h = Memᴰ.tail (k h)
Mem_of_kept true x y rest xs k (Memᴰ.head e) = Memᴰ.head e
Mem_of_kept true x y rest xs k (Memᴰ.tail h) = Memᴰ.tail (k h)

Mem_of_filterb :
    {A : Type 0} (p : A → Bool) (x : A) (xs : List A) → Memᴰ x (filterb p xs) → Memᴰ x xs
unfolding filterb
Mem_of_filterb p x [] h = h
Mem_of_filterb p x (y ∷ xs) h = Mem_of_kept (p y) x y (filterb p xs) xs (Mem_of_filterb p x xs) h

-- A scale-down that succeeds has made one call, which deletes the machine that it returns, and that
-- machine is one of those given, where `oldest` gives an element of its list.
pub scale_down_selects :
    (api : Api) (lib : Library) (derivative : Derivative) (ms : List Machine)
    (failure_domain : Option String) (env : Env OpenshiftAssistedControlPlane) {m : Machine}
    → ((some_ms : List Machine) (m' : Machine) → lib.oldest some_ms ≡ some m' → Memᴰ m' some_ms)
    → (scale_down_control_plane api lib derivative ms failure_domain env).0 ≡ ok m
    → Memᴰ m ms
      × ((scale_down_control_plane api lib derivative ms failure_domain env).1.calls
          ≡ Call.delete machine (key_of m.meta) ∷ env.calls)
unfolding scale_down_control_plane select_machine_for_scale_down
scale_down_selects api lib derivative ms failure_domain env {m} member h =
    let eligible = filterb (lib.in_failure_domain failure_domain) ms in
    elim (Option-cases (lib.oldest eligible)) [
      | inl empty ↦ absurd (ground arith)
      | inr (m', oldest) ↦
          let same : m' ≡ m = ground arith in
          (
            rw (← same) (
                Mem_of_filterb (lib.in_failure_domain failure_domain) m' ms
                  (member eligible m' oldest)),
            rw (← same) (ground arith),
          )
    ]
