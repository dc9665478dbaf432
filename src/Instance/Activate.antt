-- ===== src/Instance/Activate.antt =====
-- temporalio/worker/_workflow_instance.py: `activate`, with `_warn_if_unfinished_handlers`.
pub mod Ending
pub mod Errors
pub mod Returns
use package.text.Mathlib.TextPositions.{eq_refl}
use temporalio_sdk_python.Common.{
  ℕ, suc, ◌+◌, ◌-◌, ◌≤◌, ◌<◌, Bool, true, false, not, ◌&&◌, ◌||◌, Option, none, some, List, [], ◌∷◌,
  ◌++◌, map, String, ◌≡◌, ◌≢◌, refl, sym, ap, subst, ◌∙◌, ◌⊎◌, inl, inr, string_eq, ℕ_eq, option_eq,
  arith, if◌then◌else◌, ◌==◌, contains, keep, or_else, is_some, Bool-cases, Option-cases, length,
  leb, ltb, eqb, keep-append, contains-append, length-append,
}
use temporalio_sdk_python.Common.Dict.{Dict, get, put, remove, has, get-put, get-remove, dict_laws}
use temporalio_sdk_python.Common.Result.{Result, ok, err}
use temporalio_sdk_python.Payload.{Payload, Value, null, raw_value, seq, values}
use temporalio_sdk_python.Exceptions.{
  Exc, Cause, Failure, failure_error, asyncio_cancelled, continue_as_new, other, read_only_context,
  being_evicted, no_cause, caused_by, plain, cancelled_error, is_failure_error,
  is_cancelled_exception, isinstance, classes,
}
use temporalio_sdk_python.Instance.State.{
  Instance, Action, Command, Future, pending, finished, cancelled, pure, raise, lift, gets, modify,
  raise_if, ◌>>=◌, ◌>>◌, set_patch_marker, start_timer, cancel_timer, TimerHandle, Ready, fire,
  task_step, cancel_task, Work, new_instance, HandlerDefn, HandlerExecution, UnfinishedPolicy,
  warn_and_abandon, abandon, SignalWorkflow, QueryWorkflow, DoUpdate, UpdateResponse, accepted,
  completed, rejected, ActivityHandle, ChildHandle, update_response, respond_to_query,
  complete_workflow, continue_as_new_workflow, fail_workflow, cancel_workflow, schedule_activity,
  request_cancel_activity, start_child_workflow, cancel_child_workflow,
}
use temporalio_sdk_python.Instance.Guards.{
  assert_not_read_only, add_command, as_read_only, next_seq, curr_seq, IsWritable,
  assert-IsWritable, add_command-IsWritable,
}
use temporalio_sdk_python.Common.Text.{concat}
use temporalio_sdk_python.Exceptions.{FailureInfo, FailureCause, str}
use temporalio_sdk_python.Instance.Tasks.{runtime_error}
use temporalio_sdk_python.Instance.Handlers.{Converters}
use temporalio_sdk_python.Instance.Outcome.{
  FailureTypes, is_workflow_failure_exception, set_workflow_failure,
}
use temporalio_sdk_python.Instance.Outcome.Ends.{is_completion}
use temporalio_sdk_python.Instance.Jobs.{Job, JobSets, WorkflowDefn, apply, job_sets}
use temporalio_sdk_python.Instance.EventLoop.{Callbacks, run_once}

-- WorkflowActivation: the jobs, and, of what `activate` copies, whether it replays.
pub record Activation : Type 0 where
  pub jobs : List Job
  pub is_replaying : Bool

-- WorkflowActivationCompletion. A completion that succeeds comes with the handlers of updates and of signals that are
-- warned of as unfinished.
pub data Completion : Type 0 where
  successful : List Command → (updates signals : List HandlerExecution) → Completion
  failed : Failure → Completion

-- What an instance is created with.
pub record Details : Type 0 where
  pub converters : Converters
  pub failure_types : FailureTypes
  pub defn : WorkflowDefn
  pub cancel : ℕ → Action Unit
  pub code : Callbacks

abbrev pub Outcome : Type 0
Outcome = Result Exc (Unit {0}) × Instance

abbrev pub and_then : Option Outcome → (Instance → Option Outcome) → Option Outcome
and_then none next = none
and_then (some (ok u, s)) next = next s
and_then (some (err e, s)) next = some (err e, s)

-- `for job in job_set: self._apply(job)`
unfoldable pub apply_jobs : Details → List Job → Action Unit
unfolding apply
apply_jobs d [] = pure tt
apply_jobs d (job ∷ jobs) = do apply d.converters d.defn d.cancel job; apply_jobs d jobs

-- one job set; an empty one is passed over
abbrev pub run_set : ℕ → Details → (check_conditions : Bool) → List Job → Instance → Option Outcome
run_set fuel d check [] s = some (ok tt, s)
run_set fuel d check (job ∷ jobs) s =
    and_then (some (apply_jobs d (job ∷ jobs) s)) (run_once fuel d.code check)

unfoldable pub run_sets : ℕ → Details → JobSets → Instance → Option Outcome
unfolding apply_jobs run_once
run_sets fuel d sets s =
    and_then
      (and_then
        (and_then (run_set fuel d false sets.patches s)
          (run_set fuel d true sets.signals_and_updates))
        (run_set fuel d true sets.others))
      (run_set fuel d false sets.queries)

-- `try: self._set_workflow_failure(err) except Exception as inner_err: …`
abbrev pub inner_error : Outcome → Result Exc (Option Exc) × Instance
inner_error (ok u, s) = (ok none, s)
inner_error (err e, s) = (if isinstance e "Exception" then ok (some e) else err e, s)

abbrev pub unless_deleting : Result Exc (Option Exc) × Instance → Result Exc (Option Exc) × Instance
unless_deleting (ok o, s) = (ok (if s.deleting then none else o), s)
unless_deleting (err e, s) = (err e, s)

-- `except Exception as err` of `activate`: the error of the activation, if one is left
unfoldable pub activation_failure : Details → Exc → Action (Option Exc)
unfolding is_workflow_failure_exception set_workflow_failure
activation_failure d e s =
    if isinstance e "Exception"
    then unless_deleting (
        if is_workflow_failure_exception d.failure_types e
        then inner_error (set_workflow_failure d.converters e s)
        else (ok (some e), s))
    else (err e, s)

-- `warnable` of `_warn_if_unfinished_handlers`
abbrev is_warnable : HandlerExecution → Bool
is_warnable ex = elim ex.unfinished_policy [
  | UnfinishedPolicy.warn_and_abandon ↦ true
  | UnfinishedPolicy.abandon ↦ false
]

abbrev pub warnable {ℓ} : {K : Type ℓ} → List (K × HandlerExecution) → List HandlerExecution
warnable [] = []
warnable ((k, ex) ∷ rest) =
    let others = warnable rest in if is_warnable ex then ex ∷ others else others

abbrev pub any_completion : List Command → Bool
any_completion [] = false
any_completion (c ∷ cs) = is_completion c || any_completion cs

abbrev pub success : Instance → Completion
success s =
    if any_completion s.commands
    then successful s.commands (warnable s.in_progress_updates) (warnable s.in_progress_signals)
    else successful s.commands [] []

-- a failure that cannot be converted has a message only
abbrev pub converted_or_message : Result Exc Failure → Result Exc Failure
converted_or_message (ok f) = ok f
converted_or_message (err e) =
    if isinstance e "Exception"
    then ok (
        Failure.failure (concat "Failed converting activation exception: " (str e)) "" none
          FailureInfo.unset FailureCause.no_cause)
    else err e

abbrev pub failed_with : Result Exc Failure → Result Exc Completion
failed_with (ok f) = ok (failed f)
failed_with (err e) = err e

abbrev pub is_empty {ℓ} : {A : Type ℓ} → List A → Bool
is_empty [] = true
is_empty (x ∷ xs) = false

abbrev pub completion : Details → Option Exc → Instance → Result Exc Completion
completion d none s = ok (success s)
completion d (some e) s = failed_with (converted_or_message (d.converters.to_failure e))

-- the end of `activate`, for an error of the activation or none
unfoldable pub finish : Details → Option Exc → Action Completion
finish d error s = (
  if s.deleting && not (is_empty s.tasks)
      then err (runtime_error "Eviction processed, but tasks remain")
      else completion d error s,
  s,
)

abbrev pub finish_outcome : Details → Outcome → Result Exc Completion × Instance
finish_outcome d (ok u, s) = finish d none s
finish_outcome d (err e, s) = (activation_failure d e >>= finish d) s

abbrev pub reset : Activation → Instance → Instance
reset act s = record s { commands = []; activation_error = none; is_replaying = act.is_replaying }

-- `activate`, on fuel for the loops of `_run_once`
unfoldable pub activate :
    ℕ → Details → Activation → Instance → Option (Result Exc Completion × Instance)
unfolding run_sets job_sets activation_failure finish
activate fuel d act s = elim (run_sets fuel d (job_sets act.jobs) (reset act s)) [
  | none ↦ none
  | some p ↦ some (finish_outcome d p)
]
