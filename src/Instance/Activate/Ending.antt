-- ===== src/Instance/Activate/Ending.antt =====
-- How an activation that evicts ends.
use temporalio_sdk_python.Common.{
  ℕ, Bool, true, false, not, Option, none, some, ◌≡◌, refl, ap, ◌∙◌, inl, inr, string_eq, arith,
  ℕ_eq, option_eq, if◌then◌else◌, Bool-cases,
}
use temporalio_sdk_python.Common.Result.{Result, ok, err}
use temporalio_sdk_python.Exceptions.{Exc, isinstance, being_evicted}
use temporalio_sdk_python.Instance.Guards.{assert_not_read_only, add_command}
use temporalio_sdk_python.Instance.Handlers.{Converters}
use temporalio_sdk_python.Instance.State.{Instance, ◌>>=◌}
use temporalio_sdk_python.Instance.Tasks.{runtime_error}
use temporalio_sdk_python.Instance.Outcome.{
  FailureTypes, is_workflow_failure_exception, set_workflow_failure,
}
use temporalio_sdk_python.Instance.Jobs.{job_sets}
use temporalio_sdk_python.Instance.Activate.{
  Activation, Completion, Details, Outcome, run_sets, inner_error, unless_deleting,
  activation_failure, success, is_empty, finish, finish_outcome, reset, activate,
}

abbrev pub evicted_error : Exc
evicted_error = being_evicted "Ignoring add command while evicting workflow. This is not an error."

-- How an activation of an evicted instance ends, where the jobs were done: if tasks are left, with RuntimeError.
abbrev pub evicted : Instance → Result Exc Completion
evicted u =
    if is_empty u.tasks
    then ok (success u)
    else err (runtime_error "Eviction processed, but tasks remain")

-- How it ends for what the jobs came to.
abbrev pub eviction_result : FailureTypes → Result Exc (Unit {0}) → Instance → Result Exc Completion
eviction_result types (ok x) u = evicted u
eviction_result types (err e) u =
    if not (isinstance e "Exception")
    then err e
    else if is_workflow_failure_exception types e
    then err evicted_error
    else evicted u

finish-deleting :
    (d : Details) (u : Instance) → u.deleting ≡ true → finish d none u ≡ (evicted u, u)
unfolding finish
finish-deleting d u k = elim (Bool-cases (is_empty u.tasks)) [
  | inl e ↦ ground arith
  | inr e ↦ ground arith
]

set_workflow_failure-deleting :
    (c : Converters) (e : Exc) (u : Instance)
    → u.deleting ≡ true
    → set_workflow_failure c e u ≡ (err evicted_error, u)
unfolding set_workflow_failure add_command assert_not_read_only
set_workflow_failure-deleting c e u k = rw k refl

-- `activation_failure` and `finish`, by what `e` is
abbrev ended_by :
    Details → Exc → Instance → (exception fails : Bool) → Result Exc Completion × Instance
ended_by d e u exception fails =
    ◌>>=◌
      (λ _.
        if exception
        then unless_deleting (
            if fails then inner_error (set_workflow_failure d.converters e u) else (ok (some e), u))
        else (err e, u))
      (finish d) u

abbrev result_by : Exc → Instance → (exception fails : Bool) → Result Exc Completion
result_by e u exception fails =
    if not exception then err e else if fails then err evicted_error else evicted u

ended_by-deleting :
    (d : Details) (e : Exc) (u : Instance) (exception fails : Bool)
    → u.deleting ≡ true
    → ended_by d e u exception fails ≡ (result_by e u exception fails, u)
ended_by-deleting d e u true true k =
    ap (λ p. ◌>>=◌ (λ _. unless_deleting (inner_error p)) (finish d) u)
      (set_workflow_failure-deleting d.converters e u k)
ended_by-deleting d e u true false k =
    ap (λ b. ◌>>=◌ (λ _. (ok (if b then none else some e), u)) (finish d) u) k
    ∙ finish-deleting d u k
ended_by-deleting d e u false fails k = refl

activation_failure-deleting :
    (d : Details) (e : Exc) (u : Instance)
    → u.deleting ≡ true
    → ◌>>=◌ (activation_failure d e) (finish d) u ≡ (eviction_result d.failure_types (err e) u, u)
unfolding activation_failure
activation_failure-deleting d e u =
    ended_by-deleting d e u (isinstance e "Exception")
      (is_workflow_failure_exception d.failure_types e)

-- What an activation comes to where the instance is being evicted at the end of its jobs. If they ended normally, it is a
-- success if no task is left and RuntimeError if one is. If they raised, an `Exception` that does not fail the workflow is
-- dropped and the activation ends in the same way; one that does raises the eviction's own exception, since no command
-- can be added; and what is not an `Exception` is raised as it is. So the completion never is a failure.
pub activate-deleting :
    (fuel : ℕ) (d : Details) (act : Activation) (s u : Instance) (r : Result Exc (Unit {0}))
    → run_sets fuel d (job_sets act.jobs) (reset act s) ≡ some (r, u)
    → u.deleting ≡ true
    → activate fuel d act s ≡ some (eviction_result d.failure_types r u, u)
unfolding activate
activate-deleting fuel d act s u r h k =
    ap
      (λ (o : Option Outcome). elim o as (λ _. Option (Result Exc Completion × Instance)) [
        | none ↦ none
        | some p ↦ some (finish_outcome d p)
      ])
      h
    ∙ ap some (ended r)
  where
    ended :
        (r : Result Exc (Unit {0}))
        → finish_outcome d (r, u) ≡ (eviction_result d.failure_types r u, u)
    ended (ok x) = finish-deleting d u k
    ended (err e) = activation_failure-deleting d e u k
