-- ===== src/Kube/Errors.antt =====
-- Go's `error` values. An error is its text and the reasons that errors.Is, errors.As and the
-- tests of apierrors find in its chain: `%w` and errors.Join keep them, `%v` does not.
-- A nil dereference ends a call with the reason `nil_dereference`.
use cluster_api_agent.Prelude.{
  ◌≡◌, ◌⊎◌, inl, inr, refl, String, Bool, true, false, ◌||◌, ◌<>◌, List, [], ◌∷◌, ◌++◌,
}

pub data Reason : Type 0 where
  not_found already_exists image_not_found no_cluster nil_dereference other : Reason

pub record Err : Type 0 where
  pub reasons : List Reason
  pub text : String

pub data Outcome {ℓ} (E A : Type ℓ) : Type ℓ where
  ok : A → Outcome E A
  exit : E → Outcome E A

abbrev pub is_ok {ℓ} : {E A : Type ℓ} → Outcome E A → Bool
is_ok (ok a) = true
is_ok (exit e) = false

-- fmt.Errorf with no error among its arguments, or with one under `%v`.
abbrev pub error : String → Err
error s = record { reasons = []; text = s }

-- fmt.Errorf(s + "%w", e)
abbrev pub wrap : String → Err → Err
wrap s e = record { reasons = e.reasons; text = s <> e.text }

-- errors.Join
abbrev pub join_errors : Err → Err → Err
join_errors d e = record { reasons = d.reasons ++ e.reasons; text = d.text <> "\n" <> e.text }

abbrev pub panic : Err
panic = record { reasons = nil_dereference ∷ []; text = "nil pointer dereference" }

abbrev same_reason : Reason → Reason → Bool
same_reason not_found not_found = true
same_reason already_exists already_exists = true
same_reason image_not_found image_not_found = true
same_reason no_cluster no_cluster = true
same_reason nil_dereference nil_dereference = true
same_reason other other = true
same_reason _ _ = false

abbrev among : Reason → List Reason → Bool
among r [] = false
among r (s ∷ ss) = same_reason r s || among r ss

-- errors.Is(e, r), and the tests of apierrors.
abbrev pub has_reason : Reason → Err → Bool
has_reason r e = among r e.reasons

pub Outcome-cases {ℓ} :
    {E A : Type ℓ} (r : Outcome E A) → ((e : E) × (r ≡ exit e)) ⊎ ((a : A) × (r ≡ ok a))
Outcome-cases (ok a) = inr (a, refl)
Outcome-cases (exit e) = inl (e, refl)
