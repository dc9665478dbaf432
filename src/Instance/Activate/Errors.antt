-- ===== src/Instance/Activate/Errors.antt =====
-- What an exception of the jobs does to an activation.
use temporalio_sdk_python.Common.{
  ℕ, Bool, true, false, not, ◌&&◌, Option, none, some, List, [], ◌∷◌, ◌++◌, ◌≡◌, refl, ap, ◌∙◌, inl,
  inr, string_eq, ℕ_eq, option_eq, arith, if◌then◌else◌, Bool-cases,
}
use temporalio_sdk_python.Common.Result.{Result, ok, err}
use temporalio_sdk_python.Exceptions.{Exc, Failure, isinstance}
use temporalio_sdk_python.Instance.State.{Instance, Command, ◌>>=◌, fail_workflow}
use temporalio_sdk_python.Instance.Guards.{IsWritable, add_command-IsWritable}
use temporalio_sdk_python.Instance.Tasks.{runtime_error}
use temporalio_sdk_python.Instance.Handlers.{Converters}
use temporalio_sdk_python.Instance.Outcome.{is_workflow_failure_exception, set_workflow_failure}
use temporalio_sdk_python.Instance.Jobs.{job_sets}
use temporalio_sdk_python.Instance.Activate.{
  Activation, Completion, successful, failed, Details, Outcome, run_sets, inner_error,
  unless_deleting, activation_failure, warnable, any_completion, converted_or_message, failed_with,
  completion, is_empty, finish, finish_outcome, reset, activate,
}

is_completion-last :
    (cs : List Command) (f : Option Failure) → any_completion (cs ++ fail_workflow f ∷ []) ≡ true
is_completion-last [] f = refl
is_completion-last (c ∷ cs) f = ground (arith, is_completion-last cs f)

set_workflow_failure-added :
    (c : Converters) (e : Exc) (f : Failure) (t : Instance)
    → c.to_failure e ≡ ok f
    → IsWritable t
    → set_workflow_failure c e t
      ≡ (ok tt, record t { commands = t.commands ++ fail_workflow (some f) ∷ [] })
unfolding set_workflow_failure
set_workflow_failure-added c e f t g w =
    ground (arith, add_command-IsWritable (fail_workflow (some f)) t w)

finish-writable :
    (d : Details) (o : Option Exc) (t : Instance)
    → t.deleting ≡ false
    → finish d o t ≡ (completion d o t, t)
unfolding finish
finish-writable d o t w =
    ap
      (λ b. (
        if b && not (is_empty t.tasks)
            then err (runtime_error "Eviction processed, but tasks remain")
            else completion d o t,
        t,
      ))
      w

module _ (d : Details) (t : Instance) (e : Exc) (x : isinstance e "Exception" ≡ true) where
  abbrev caught : Bool → Result Exc (Option Exc) × Instance
  caught b = if b then inner_error (set_workflow_failure d.converters e t) else (ok (some e), t)

  activation_failure-caught :
      (b : Bool)
      → is_workflow_failure_exception d.failure_types e ≡ b
      → activation_failure d e t ≡ unless_deleting (caught b)
  unfolding activation_failure
  activation_failure-caught b h =
      ap
        (λ y.
          if y
          then unless_deleting (caught (is_workflow_failure_exception d.failure_types e))
          else (err e, t))
        x
      ∙ ap (λ y. unless_deleting (caught y)) h

  abbrev then_finish : Result Exc (Option Exc) × Instance → Result Exc Completion × Instance
  then_finish q = ◌>>=◌ (λ _. q) (finish d) t

  finish_outcome-failure :
      (f : Failure)
      → is_workflow_failure_exception d.failure_types e ≡ true
      → d.converters.to_failure e ≡ ok f
      → IsWritable t
      → finish_outcome d (err e, t) ≡ (
        ok (
            successful
              (t.commands ++ fail_workflow (some f) ∷ [])
              (warnable t.in_progress_updates)
              (warnable t.in_progress_signals)),
        record t { commands = t.commands ++ fail_workflow (some f) ∷ [] },
      )
  finish_outcome-failure f b g w =
      let u = record t { commands = t.commands ++ fail_workflow (some f) ∷ [] } in
      ap then_finish (activation_failure-caught true b)
      ∙ ap (λ p. then_finish (unless_deleting (inner_error p)))
          (set_workflow_failure-added d.converters e f t g w)
      ∙ ap (λ y. then_finish (ok (if y then none else none), u)) w.0
      ∙ finish-writable d none u w.0
      ∙ ap
          (λ y. (
            ok (
                if y
                then successful u.commands (warnable t.in_progress_updates)
                    (warnable t.in_progress_signals)
                else successful u.commands [] []),
            u,
          ))
          (is_completion-last t.commands (some f))

  finish_outcome-other :
      (f : Failure)
      → is_workflow_failure_exception d.failure_types e ≡ false
      → d.converters.to_failure e ≡ ok f
      → IsWritable t
      → finish_outcome d (err e, t) ≡ (ok (failed f), t)
  finish_outcome-other f b g w =
      ap then_finish (activation_failure-caught false b)
      ∙ ap (λ y. then_finish (ok (if y then none else some e), t)) w.0
      ∙ finish-writable d (some e) t w.0
      ∙ ap (λ r. (failed_with (converted_or_message r), t)) g

finish_outcome-error :
    (d : Details) (t : Instance) (e : Exc) (f : Failure)
    → isinstance e "Exception" ≡ true
    → d.converters.to_failure e ≡ ok f
    → IsWritable t
    → (q : Instance) × (finish_outcome d (err e, t) ≡ (
      ok (
          if is_workflow_failure_exception d.failure_types e
          then successful
              (t.commands ++ fail_workflow (some f) ∷ [])
              (warnable t.in_progress_updates)
              (warnable t.in_progress_signals)
          else failed f),
      q,
    ))
finish_outcome-error d t e f x g w =
    elim (Bool-cases (is_workflow_failure_exception d.failure_types e)) [
      | inl b ↦ (
        record t { commands = t.commands ++ fail_workflow (some f) ∷ [] },
        rw b (finish_outcome-failure d t e x f b g w),
      )
      | inr b ↦ (t, rw b (finish_outcome-other d t e x f b g w))
    ]

-- What an exception of the jobs, or of the code that they run, does to the activation: if the failure converter does not
-- raise and nothing forbids commands, then an exception that fails the workflow becomes a last command, added to those
-- that the jobs had added, with a warning of each unfinished handler whose policy is to warn, and any other fails the task.
pub activate-error :
    (fuel : ℕ) (d : Details) (act : Activation) (s t : Instance) (e : Exc) (f : Failure)
    → run_sets fuel d (job_sets act.jobs) (reset act s) ≡ some (err e, t)
    → isinstance e "Exception" ≡ true
    → d.converters.to_failure e ≡ ok f
    → IsWritable t
    → (q : Instance) × (activate fuel d act s
        ≡ some (
          ok (
              if is_workflow_failure_exception d.failure_types e
              then successful
                  (t.commands ++ fail_workflow (some f) ∷ [])
                  (warnable t.in_progress_updates)
                  (warnable t.in_progress_signals)
              else failed f),
          q,
        ))
unfolding activate
activate-error fuel d act s t e f h x g w =
    let (q, z) = finish_outcome-error d t e f x g w in
    (
      q,
      ap
            (λ (o : Option Outcome). elim o as (λ _. Option (Result Exc Completion × Instance)) [
              | none ↦ none
              | some p ↦ some (finish_outcome d p)
            ])
            h
          ∙ ap some z,
    )
