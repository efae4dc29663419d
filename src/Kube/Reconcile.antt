-- ===== src/Kube/Reconcile.antt =====
-- What a Reconcile function returns: a ctrl.Result and an error. An early `return` ends the action.
use cluster_api_agent.Prelude.{ℕ, Bool, true, false, ◌<>◌, ◌++◌, Option, none, some, if◌then◌else◌}
use cluster_api_agent.Kube.Errors.{Err, Outcome, ok, exit, not_found, nil_dereference, has_reason}
use cluster_api_agent.Kube.Meta.{Key}
use cluster_api_agent.Kube.Kinds.{Kind, Obj}
use cluster_api_agent.Kube.Api.{Api, Env, Exec, fail, catch}
use cluster_api_agent.Kube.Calls.{get}

-- ctrl.Result, with the time in seconds.
pub record Result : Type 0 where
  pub requeue : Bool
  pub requeue_after : ℕ

abbrev pub done : Result
done = record { requeue = false; requeue_after = 0 }

abbrev pub again : Result
again = record { requeue = true; requeue_after = 0 }

abbrev pub after : ℕ → Result
after seconds = record { requeue = true; requeue_after = seconds }

abbrev pub Returned : Type 0
Returned = Result × Option Err

-- The body of a Reconcile function.
abbrev pub Body : Type 0 → Type 0
Body L = Exec L Returned Result

-- client.IgnoreNotFound
abbrev pub ignore_not_found : Err → Option Err
ignore_not_found e = if has_reason not_found e then none else some e

module _ {L : Type 0} where
  abbrev pub stop : {A : Type 0} → Result → Exec L Returned A
  stop r = fail (r, none)

  -- if err != nil { return ctrl.Result{}, err }
  abbrev pub or_return : {A : Type 0} → Exec L Err A → Exec L Returned A
  or_return m = catch m (λ e. fail (done, some e))

  abbrev pub get_or_ignore : Api → (k : Kind) → Key → Exec L Returned (Obj k)
  get_or_ignore api k key = catch (get api k key) (λ e. fail (done, ignore_not_found e))

abbrev pub returned : Outcome Returned Result → Returned
returned (ok r) = (r, none)
returned (exit r) = r

abbrev pub run : {L : Type 0} → Body L → Env L → Returned × Env L
run body env = let (r, env') = body env in (returned r, env')

-- kerrors.NewAggregate([]error{rerr, err})
abbrev pub aggregate : Option Err → Err → Err
aggregate none e = e
aggregate (some d) e = record {
  reasons = d.reasons ++ e.reasons;
  text = "[" <> d.text <> ", " <> e.text <> "]";
}

-- rerr == nil, as a deferred function finds it: a panic leaves the named result at nil.
abbrev pub succeeded : Option Err → Bool
succeeded none = true
succeeded (some e) = has_reason nil_dereference e
