-- ===== src/Instance/Queries.antt =====
-- temporalio/worker/_workflow_instance.py: queries, `_apply_query_workflow`.
pub mod Answer
use package.text.Mathlib.TextPositions.{eq_refl}
use temporalio_sdk_python.Common.{
  ℕ, suc, ◌+◌, ◌-◌, ◌≤◌, ◌<◌, Bool, true, false, not, ◌&&◌, ◌||◌, Option, none, some, List, [], ◌∷◌,
  ◌++◌, map, String, ◌≡◌, ◌≢◌, refl, sym, ap, subst, ◌∙◌, ◌⊎◌, inl, inr, string_eq, ℕ_eq, option_eq,
  arith, if◌then◌else◌, ◌==◌, contains, keep, or_else, is_some, Bool-cases, Option-cases, length,
  leb, ltb, eqb, keep-append, contains-append, length-append,
}
use temporalio_sdk_python.Common.Dict.{Dict, get, put, remove, has, get-put, get-remove, dict_laws}
use temporalio_sdk_python.Common.Result.{Result, ok, err}
use temporalio_sdk_python.Payload.{Payload, Value, null, raw_value, seq, values}
use temporalio_sdk_python.Exceptions.{
  Exc, Cause, Failure, failure_error, asyncio_cancelled, continue_as_new, other, read_only_context,
  being_evicted, no_cause, caused_by, plain, cancelled_error, is_failure_error,
  is_cancelled_exception, isinstance, classes,
}
use temporalio_sdk_python.Instance.State.{
  Instance, Action, Command, Future, pending, finished, failed, cancelled, pure, raise, lift, gets,
  modify, raise_if, ◌>>=◌, ◌>>◌, set_patch_marker, start_timer, cancel_timer, TimerHandle, Ready,
  fire, task_step, cancel_task, Work, new_instance, HandlerDefn, HandlerExecution, UnfinishedPolicy,
  warn_and_abandon, abandon, SignalWorkflow, QueryWorkflow, DoUpdate, UpdateResponse, accepted,
  completed, rejected, ActivityHandle, ChildHandle, update_response, respond_to_query,
  complete_workflow, continue_as_new_workflow, fail_workflow, cancel_workflow, schedule_activity,
  request_cancel_activity, start_child_workflow, cancel_child_workflow,
}
use temporalio_sdk_python.Instance.Guards.{
  assert_not_read_only, add_command, as_read_only, next_seq, curr_seq, IsWritable,
  assert-IsWritable, add_command-IsWritable,
}
use temporalio_sdk_python.Instance.Tasks.{runtime_error, create_task}
use temporalio_sdk_python.Instance.Handlers.{Converters, process_handler_args}
use temporalio_sdk_python.Instance.Signals.{find_handler, Handler, signal_definition}
use temporalio_sdk_python.Instance.Outcome.{single, conversion_error}
use temporalio_sdk_python.Instance.Updates.{HandlerCode, unset_failure}

-- the errors of finding the handler, and of the result
abbrev pub found_query : Option HandlerDefn → Result Exc HandlerDefn
found_query none = err (runtime_error "Query handler expected but not found")
found_query (some defn) = ok defn

-- the body of `with self._as_read_only()`
unfoldable pub answer_query : Converters → HandlerCode → QueryWorkflow → Action Payload
unfolding process_handler_args
answer_query c code job = do
  found ← gets (λ s. find_handler s.queries job.query_type)
  defn ← lift (found_query found)
  args ← lift (process_handler_args c job.query_type job.arguments defn)
  success ← code.handle_query defn.fn args
  payloads ← lift (c.to_payloads (success ∷ []))
  lift (single payloads)

-- what the command holds after `to_failure`, or as far as it came
abbrev pub failure_or_unset : Result Exc Failure → Failure
failure_or_unset (ok f) = f
failure_or_unset (err e) = unset_failure

-- `except Exception as inner_err: raise ValueError(text) from inner_err`
abbrev pub as_value_error :
    String → Result Exc (Unit {0}) × Instance → Result Exc (Unit {0}) × Instance
as_value_error text (ok u, s) = (ok tt, s)
as_value_error text (err e, s) = (
  err (
      if isinstance e "Exception"
      then other ("ValueError" ∷ "Exception" ∷ "BaseException" ∷ []) text "" (caused_by e) no_cause
      else e),
  s,
)

-- `except Exception as err`: the command is added before the failure is converted, and what either of the two raises is
-- caught
unfoldable pub fail_query : Converters → QueryWorkflow → Exc → Action Unit
unfolding add_command
fail_query c job e s = as_value_error "Failed converting application error" (
    (add_command (respond_to_query job.query_id (err (failure_or_unset (c.to_failure e)))) >>= λ _.
    lift (c.to_failure e) >>= λ _. pure tt)
      s)

abbrev pub caught_query :
    Converters → QueryWorkflow → Result Exc (Unit {0}) × Instance → Result Exc (Unit {0}) × Instance
caught_query c job (ok u, s) = (ok tt, s)
caught_query c job (err e, s) =
    if isinstance e "Exception" then fail_query c job e s else (err e, s)

-- `run_query` of `_apply_query_workflow`
unfoldable pub run_query : Converters → HandlerCode → QueryWorkflow → Action Unit
unfolding as_read_only answer_query add_command fail_query
run_query c code job s = caught_query c job (
    (as_read_only (answer_query c code job) >>= λ p.
    add_command (respond_to_query job.query_id (ok p)))
      s)

unfoldable pub apply_query_workflow : QueryWorkflow → Action Unit
unfolding create_task
apply_query_workflow job = do _ ← create_task (Work.run_query job); pure tt

unfoldable pub workflow_set_query_handler : (name : Option String) → Option Handler → Action Unit
unfolding assert_not_read_only
workflow_set_query_handler name none = do
  assert_not_read_only "set query handler" false
  modify (λ s. record s { queries = remove s.queries name })
workflow_set_query_handler name (some h) = do
  assert_not_read_only "set query handler" false
  modify (λ s. record s { queries = put s.queries name (signal_definition name h) })
