-- ===== src/Instance/Activate/Returns.antt =====
-- An activation ends.
use temporalio_sdk_python.Common.{
  ℕ, ◌+◌, ◌≤◌, Bool, true, false, Option, none, some, List, [], ◌∷◌, ◌≡◌, refl, ap, ◌∙◌, string_eq,
  ℕ_eq, option_eq, arith,
}
use temporalio_sdk_python.Common.Result.{Result, ok, err}
use temporalio_sdk_python.Exceptions.{Exc}
use temporalio_sdk_python.Instance.State.{Instance}
use temporalio_sdk_python.Instance.Jobs.{Job, JobSets, job_sets}
use temporalio_sdk_python.Instance.EventLoop.{run_once}
use temporalio_sdk_python.Instance.Activate.{
  Activation, Completion, Details, Outcome, and_then, apply_jobs, run_set, run_sets, finish_outcome,
  reset, activate,
}
use temporalio_sdk_python.Instance.EventLoop.{create_object}
use temporalio_sdk_python.Instance.EventLoop.Returns.{Bounded, run_once-returns}
use temporalio_sdk_python.Instance.EventLoop.Fuel.{run_once-more}

-- From some fuel on, always the same result.
abbrev Eventually : {A : Type 0} → (ℕ → Option A) → Type 0
Eventually {A} o = (n : ℕ) × (a : A) × ((k : ℕ) → n ≤ k → o k ≡ some a)

at_once : {A : Type 0} (a : A) → Eventually (λ k. some a)
at_once a = (0, a, λ k h. refl)

and_then-Eventually :
    (o : ℕ → Option Outcome) (next : ℕ → Instance → Option Outcome)
    → Eventually o
    → ((s : Instance) → Eventually (λ k. next k s))
    → Eventually (λ k. and_then (o k) (next k))
and_then-Eventually o next (n, (ok u, s), h) f =
    let (m, p, g) = f s in
    (
      n + m,
      p,
      λ k l. ap (λ x. and_then x (next k)) (h k (omega (arith, l))) ∙ g k (omega (arith, l)),
    )
and_then-Eventually o next (n, (err e, s), h) f =
    (n, (err e, s), λ k l. ap (λ x. and_then x (next k)) (h k l))

module _ (d : Details) (rank : Instance → ℕ) (bound : Bounded d.code rank) where
  run_once-Eventually : (check : Bool) (s : Instance) → Eventually (λ k. run_once k d.code check s)
  run_once-Eventually check s =
      let n = rank (create_object d.code s).1 + 1 in
      let (p, e, r) = run_once-returns d.code rank n check s bound (omega arith) in
      (n, p, λ k h. run_once-more d.code n k check s p h e)

  run_set-Eventually :
      (check : Bool) (jobs : List Job) (s : Instance) → Eventually (λ k. run_set k d check jobs s)
  run_set-Eventually check [] s = at_once (ok tt, s)
  run_set-Eventually check (job ∷ jobs) s =
      and_then-Eventually (λ k. some (apply_jobs d (job ∷ jobs) s)) (λ k. run_once k d.code check)
        (at_once (apply_jobs d (job ∷ jobs) s)) (run_once-Eventually check)

  run_sets-Eventually : (sets : JobSets) (s : Instance) → Eventually (λ k. run_sets k d sets s)
  unfolding run_sets
  run_sets-Eventually sets s =
      and_then-Eventually
        (λ k.
          and_then
            (and_then (run_set k d false sets.patches s)
              (run_set k d true sets.signals_and_updates))
            (run_set k d true sets.others))
        (λ k. run_set k d false sets.queries)
        (and_then-Eventually
          (λ k.
            and_then (run_set k d false sets.patches s) (run_set k d true sets.signals_and_updates))
          (λ k. run_set k d true sets.others)
          (and_then-Eventually (λ k. run_set k d false sets.patches s)
            (λ k. run_set k d true sets.signals_and_updates)
            (run_set-Eventually false sets.patches s)
            (run_set-Eventually true sets.signals_and_updates))
          (run_set-Eventually true sets.others))
        (run_set-Eventually false sets.queries)

-- Every activation ends: if the work that handles schedule is bounded, then whatever the jobs are and whatever they
-- raise, `activate` returns, and it returns the same with all fuel from some amount on.
pub activate-returns :
    (d : Details) (rank : Instance → ℕ) (act : Activation) (s : Instance)
    → Bounded d.code rank
    → (fuel : ℕ) × (r : Result Exc Completion × Instance) × ((k : ℕ)
        → fuel ≤ k
        → activate k d act s ≡ some r)
unfolding activate
activate-returns d rank act s bound =
    let (n, p, h) = run_sets-Eventually d rank bound (job_sets act.jobs) (reset act s) in
    (
      n,
      finish_outcome d p,
      λ k l.
          ap
            (λ (o : Option Outcome). elim o as (λ _. Option (Result Exc Completion × Instance)) [
              | none ↦ none
              | some q ↦ some (finish_outcome d q)
            ])
            (h k l),
    )
