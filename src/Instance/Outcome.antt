-- ===== src/Instance/Outcome.antt =====
-- temporalio/worker/_workflow_instance.py: how the workflow function ends, `run_workflow` of `_apply_start_workflow`,
-- `_run_top_level_workflow_function`, `_set_workflow_failure` and `_ContinueAsNewError._apply_command`.
pub mod Ends
use package.text.Mathlib.TextPositions.{eq_refl}
use temporalio_sdk_python.Common.{
  ℕ, suc, ◌+◌, ◌-◌, ◌≤◌, ◌<◌, Bool, true, false, not, ◌&&◌, ◌||◌, Option, none, some, List, [], ◌∷◌,
  ◌++◌, map, String, ◌≡◌, ◌≢◌, refl, sym, ap, subst, ◌∙◌, ◌⊎◌, inl, inr, string_eq, ℕ_eq, option_eq,
  arith, if◌then◌else◌, ◌==◌, contains, keep, or_else, is_some, Bool-cases, Option-cases, length,
  leb, ltb, eqb, keep-append, contains-append, length-append,
}
use temporalio_sdk_python.Common.Dict.{Dict, get, put, remove, has, get-put, get-remove, dict_laws}
use temporalio_sdk_python.Common.Result.{Result, ok, err}
use temporalio_sdk_python.Payload.{Payload, Value, null, raw_value, seq, values}
use temporalio_sdk_python.Exceptions.{
  Exc, Cause, Failure, failure_error, asyncio_cancelled, continue_as_new, other, read_only_context,
  being_evicted, no_cause, caused_by, plain, cancelled_error, is_failure_error,
  is_cancelled_exception, isinstance, classes,
}
use temporalio_sdk_python.Instance.State.{
  Instance, Action, Command, Future, pending, finished, failed, cancelled, pure, raise, lift, gets,
  modify, raise_if, ◌>>=◌, ◌>>◌, set_patch_marker, start_timer, cancel_timer, TimerHandle, Ready,
  fire, task_step, cancel_task, Work, new_instance, HandlerDefn, HandlerExecution, UnfinishedPolicy,
  warn_and_abandon, abandon, SignalWorkflow, QueryWorkflow, DoUpdate, UpdateResponse, accepted,
  completed, rejected, ActivityHandle, ChildHandle, update_response, respond_to_query,
  complete_workflow, continue_as_new_workflow, fail_workflow, cancel_workflow, schedule_activity,
  request_cancel_activity, start_child_workflow, cancel_child_workflow,
}
use temporalio_sdk_python.Instance.Guards.{
  assert_not_read_only, add_command, as_read_only, next_seq, curr_seq, IsWritable,
  assert-IsWritable, add_command-IsWritable,
}
use temporalio_sdk_python.Instance.Tasks.{runtime_error, value_error}
use temporalio_sdk_python.Instance.Handlers.{Converters}

-- `any(isinstance(err, typ) for typ in types)`
any_class : Exc → List String → Bool
any_class e [] = false
any_class e (name ∷ names) = isinstance e name || any_class e names

-- The exception types that fail the workflow, of the definition and of the worker.
pub record FailureTypes : Type 0 where
  pub definition : List String
  pub worker : List String

unfoldable pub is_workflow_failure_exception : FailureTypes → Exc → Bool
unfolding any_class
is_workflow_failure_exception types e =
    is_failure_error e || any_class e types.definition || any_class e types.worker

abbrev or_none : Result Exc Failure → Option Failure
or_none (ok f) = some f
or_none (err e) = none

-- `except Exception as inner_err: raise ValueError(text) from inner_err`
abbrev pub conversion_error : String → Result Exc Failure → Result Exc (Unit {0})
conversion_error t (ok f) = ok tt
conversion_error t (err e) = err (
    if isinstance e "Exception"
    then other ("ValueError" ∷ "Exception" ∷ "BaseException" ∷ []) t "" (caused_by e) no_cause
    else e)

-- The command is added before the exception is converted, and stays if that fails.
unfoldable pub set_workflow_failure : Converters → Exc → Action Unit
unfolding add_command
set_workflow_failure c e = do
  add_command (fail_workflow (or_none (c.to_failure e)))
  lift (conversion_error "Failed converting workflow exception" (c.to_failure e))

-- `to_payloads(args) if args else None`
abbrev pub optional_payloads : Converters → List Value → Result Exc (List Payload)
optional_payloads c [] = ok []
optional_payloads c (v ∷ vs) = c.to_payloads (v ∷ vs)

-- the arguments of `_ContinueAsNewError._apply_command`, which are converted before the command is added; the memo and the
-- other options of the new run, which can be refused too, are left out
unfoldable pub apply_continue_as_new : Converters → List Value → Action Unit
unfolding add_command
apply_continue_as_new c args = do
  payloads ← lift (optional_payloads c args)
  add_command (continue_as_new_workflow payloads)

-- asyncio's cancellation becomes Temporal's
abbrev pub temporal_cancelled : Exc → Exc
temporal_cancelled (asyncio_cancelled t) =
    failure_error (cancelled_error []) t none "" no_cause no_cause
temporal_cancelled e = e

abbrev pub catchable : Exc → Bool
catchable (asyncio_cancelled t) = true
catchable e = isinstance e "Exception"

abbrev set_activation_error : Exc → Action Unit
set_activation_error e = modify (λ s. record s { activation_error = some e })

-- the second `except`, for an error that is not continue-as-new
end_by_error : Converters → FailureTypes → Exc → Action Unit
unfolding set_workflow_failure is_workflow_failure_exception add_command
end_by_error c types e s =
    if s.cancel_requested && is_cancelled_exception e
    then add_command cancel_workflow s
    else if is_workflow_failure_exception types e
    then set_workflow_failure c e s
    else set_activation_error e s

unfoldable pub end_by : Converters → FailureTypes → Exc → Action Unit
unfolding end_by_error apply_continue_as_new
end_by c types (continue_as_new args) s = apply_continue_as_new c args s
end_by c types e s =
    if catchable e
    then (if s.deleting then (ok tt, s) else end_by_error c types (temporal_cancelled e) s)
    else (err e, s)

-- `_run_top_level_workflow_function(coro)`
unfoldable pub run_top_level : Converters → FailureTypes → Action Unit → Action Unit
unfolding end_by
run_top_level c types coro s =
    let (r, s') = coro s in elim r [ ok u ↦ (ok tt, s') | err e ↦ end_by c types e s' ]

-- `if len(result_payloads) != 1: raise ValueError(…)`
abbrev pub single : List Payload → Result Exc Payload
single (p ∷ []) = ok p
single _ = err (value_error "Expected 1 result payload")

-- the `except Exception` of `run_workflow`
abbrev swallow_if_deleting : Result Exc (Unit {0}) × Instance → Result Exc (Unit {0}) × Instance
swallow_if_deleting (ok u, s) = (ok tt, s)
swallow_if_deleting (err e, s) =
    (if s.deleting && isinstance e "Exception" then ok tt else err e, s)

-- `run_workflow`; `body` is the workflow's code behind its interceptors
unfoldable pub run_workflow : Converters → (body : Action Value) → Action Unit
unfolding add_command
run_workflow c body s = swallow_if_deleting (
    (do
      result ← body
      payloads ← lift (c.to_payloads (result ∷ []))
      payload ← lift (single payloads)
      add_command (complete_workflow payload))
      s)
