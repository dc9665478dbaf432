-- ===== src/Instance/Updates.antt =====
-- temporalio/worker/_workflow_instance.py: updates, `_apply_do_update`.
pub mod Responses
pub mod Validation
pub mod Handling
pub mod Protocol
pub mod Registration
use package.text.Mathlib.TextPositions.{eq_refl}
use temporalio_sdk_python.Common.{
  ℕ, suc, ◌+◌, ◌-◌, ◌≤◌, ◌<◌, Bool, true, false, not, ◌&&◌, ◌||◌, Option, none, some, List, [], ◌∷◌,
  ◌++◌, map, String, ◌≡◌, ◌≢◌, refl, sym, ap, subst, ◌∙◌, ◌⊎◌, inl, inr, string_eq, ℕ_eq, option_eq,
  arith, if◌then◌else◌, ◌==◌, contains, keep, or_else, is_some, Bool-cases, Option-cases, length,
  leb, ltb, eqb, keep-append, contains-append, length-append,
}
use temporalio_sdk_python.Common.Dict.{Dict, get, put, remove, has, get-put, get-remove, dict_laws}
use temporalio_sdk_python.Common.Result.{Result, ok, err}
use temporalio_sdk_python.Payload.{Payload, Value, null, raw_value, seq, values}
use temporalio_sdk_python.Exceptions.{
  Exc, Cause, Failure, failure_error, asyncio_cancelled, continue_as_new, other, read_only_context,
  being_evicted, no_cause, caused_by, plain, cancelled_error, is_failure_error,
  is_cancelled_exception, isinstance, classes,
}
use temporalio_sdk_python.Instance.State.{
  Instance, Action, Command, Future, pending, finished, failed, cancelled, pure, raise, lift, gets,
  modify, raise_if, ◌>>=◌, ◌>>◌, set_patch_marker, start_timer, cancel_timer, TimerHandle, Ready,
  fire, task_step, cancel_task, Work, new_instance, HandlerDefn, HandlerExecution, UnfinishedPolicy,
  warn_and_abandon, abandon, SignalWorkflow, QueryWorkflow, DoUpdate, UpdateResponse, accepted,
  completed, rejected, ActivityHandle, ChildHandle, update_response, respond_to_query,
  complete_workflow, continue_as_new_workflow, fail_workflow, cancel_workflow, schedule_activity,
  request_cancel_activity, start_child_workflow, cancel_child_workflow,
}
use temporalio_sdk_python.Instance.Guards.{
  assert_not_read_only, add_command, as_read_only, next_seq, curr_seq, IsWritable,
  assert-IsWritable, add_command-IsWritable,
}
use temporalio_sdk_python.Exceptions.{FailureInfo, FailureCause}
use temporalio_sdk_python.Instance.Tasks.{runtime_error, create_task}
use temporalio_sdk_python.Instance.Handlers.{Converters, has_name, process_handler_args}
use temporalio_sdk_python.Instance.Signals.{find_handler, Handler, signal_definition}
use temporalio_sdk_python.Instance.Outcome.{
  FailureTypes, is_workflow_failure_exception, catchable, single,
}

-- The user's code for updates and queries, behind the interceptors, by the number of its function.
pub record HandlerCode : Type 0 where
  pub validate : ℕ → List Value → Action Unit
  pub handle_update : ℕ → List Value → Action Value
  pub handle_query : ℕ → List Value → Action Value

-- `command.update_response…`: a command that was added is filled in later, in place
abbrev pub fill_in : ℕ → Command → List Command → List Command
fill_in n c [] = []
fill_in Prim.Native.Nat.zero c (x ∷ xs) = c ∷ xs
fill_in (suc n) c (x ∷ xs) = x ∷ fill_in n c xs

abbrev pub respond : (command : ℕ) → DoUpdate → UpdateResponse → Action Unit
respond n job r =
    modify (λ s. record s {
      commands = fill_in n (update_response job.protocol_instance_id r) s.commands;
    })

-- `command = self._add_command()` with the protocol's id, where the caller has no command yet
unfoldable pub response_command : Option ℕ → DoUpdate → Action ℕ
unfolding add_command
response_command (some n) job = pure n
response_command none job = do
  n ← gets (λ s. length s.commands)
  add_command (update_response job.protocol_instance_id UpdateResponse.pending)
  pure n

abbrev pub unset_failure : Failure
unset_failure = Failure.failure "" "" none FailureInfo.unset FailureCause.no_cause

-- `defn = self._updates.get(job.name) or self._updates.get(None)`
abbrev pub found_update : DoUpdate → Option HandlerDefn → Result Exc HandlerDefn
found_update job none =
    err (runtime_error "Update handler expected but not found, and there is no dynamic handler")
found_update job (some defn) = ok defn

abbrev pub run_validator :
    Converters → HandlerCode → DoUpdate → HandlerDefn → List Value → Option ℕ → Action (List Value)
run_validator c code job defn args none = pure args
run_validator c code job defn args (some v) =
    if job.run_validator
    then as_read_only
        (code.validate v args >>= λ _. lift (process_handler_args c job.name job.input defn))
    else pure args

-- `run_update` until the update is past validation
unfoldable pub validate_update :
    Converters → HandlerCode → DoUpdate → Action (HandlerDefn × List Value)
unfolding as_read_only process_handler_args
validate_update c code job = do
  found ← gets (λ s. find_handler s.updates job.name)
  defn ← lift (found_update job found)
  modify (λ s. record s {
    in_progress_updates =
        put s.in_progress_updates job.id (record {
          name = job.name;
          unfinished_policy = defn.unfinished_policy;
          id = some job.id;
        });
  })
  args ← lift (process_handler_args c job.name job.input defn)
  checked ← run_validator c code job defn args defn.validator
  pure (defn, checked)

-- the rest of the `try`: the handler, and its result
unfoldable pub handle_update :
    Converters → HandlerCode → DoUpdate → HandlerDefn × List Value → Action Unit
unfolding add_command
handle_update c code job p = do
  success ← code.handle_update p.0.fn p.1
  payloads ← lift (c.to_payloads (success ∷ []))
  payload ← lift (single payloads)
  add_command (update_response job.protocol_instance_id (completed payload))

-- asyncio's cancellation becomes Temporal's
abbrev pub update_error : Exc → Exc
update_error (asyncio_cancelled t) =
    failure_error (cancelled_error []) "Cancellation raised within update" none "" Cause.no_cause
      Cause.no_cause
update_error e = e

abbrev pub is_read_only_error : Exc → Bool
is_read_only_error e = isinstance e "ReadOnlyContextError"

-- the update is rejected before the failure is converted
unfoldable pub reject_update : Converters → (command : Option ℕ) → DoUpdate → Exc → Action Unit
unfolding response_command
reject_update c command job e = do
  n ← response_command command job
  respond n job (rejected unset_failure)
  f ← lift (c.to_failure e)
  respond n job (rejected f)

-- the `except` clauses, where validation passed exactly if there is no open command
unfoldable pub fail_update :
    Converters → FailureTypes → (command : Option ℕ) → DoUpdate → Exc → Action Unit
unfolding reject_update is_workflow_failure_exception
fail_update c types command job e s =
    if catchable e
    then if is_read_only_error (update_error e)
      then (ok tt, record s { activation_error = some (update_error e) })
      else if is_some command || is_workflow_failure_exception types (update_error e)
      then reject_update c command job (update_error e) s
      else (ok tt, record s { activation_error = some (update_error e) })
    else (if s.deleting then ok tt else err e, s)

-- `finally: self._in_progress_updates.pop(job.id, None)`
abbrev pub forget_update :
    DoUpdate → Result Exc (Unit {0}) × Instance → Result Exc (Unit {0}) × Instance
forget_update job (r, s) =
    (r, record s { in_progress_updates = remove s.in_progress_updates job.id })

abbrev pub handled_update :
    Converters
    → FailureTypes
    → DoUpdate
    → Result Exc (Unit {0}) × Instance
    → Result Exc (Unit {0}) × Instance
handled_update c types job (ok u, s) = (ok tt, s)
handled_update c types job (err e, s) = fail_update c types none job e s

-- the branches on the validation, with the command that waits to be filled in
abbrev pub validated_update :
    Converters
    → FailureTypes
    → HandlerCode
    → DoUpdate
    → (command : ℕ) → Result Exc (HandlerDefn × List Value) × Instance
    → Result Exc (Unit {0}) × Instance
validated_update c types code job n (ok p, s) =
    handled_update c types job ((respond n job accepted >>= λ _. handle_update c code job p) s)
validated_update c types code job n (err e, s) = fail_update c types (some n) job e s

-- `run_update` of `_apply_do_update`. Its first command is added outside of the `try`.
unfoldable pub run_update : Converters → FailureTypes → HandlerCode → DoUpdate → Action Unit
unfolding add_command validate_update handle_update fail_update
run_update c types code job = do
  n ← gets (λ s. length s.commands)
  add_command (update_response job.protocol_instance_id UpdateResponse.pending)
  λ s. forget_update job (validated_update c types code job n (validate_update c code job s))

unfoldable pub apply_do_update : DoUpdate → Action Unit
unfolding create_task
apply_do_update job = do _ ← create_task (Work.run_update job); pure tt

abbrev has_dynamic_types : Option (List String) → Bool
has_dynamic_types (some (name ∷ args ∷ [])) =
    (name == "str") && (args == "typing.Sequence[temporalio.common.RawValue]")
has_dynamic_types _ = false

-- `_assert_dynamic_handler_args`, where `dynamic_vararg` says that the signature is the old form
abbrev pub assert_dynamic_handler_args : Handler → Result Exc Bool
assert_dynamic_handler_args h =
    if h.dynamic_vararg
    then ok false
    else if has_dynamic_types h.arg_types
    then ok true
    else err (
        runtime_error
          "Dynamic handler must have 3 arguments: self, str, and Sequence[temporalio.common.RawValue]")

abbrev pub vararg_error : Exc
vararg_error =
    runtime_error "Dynamic updates do not support a vararg third param, use Sequence[RawValue]"

-- `_UpdateDefinition`, whose types are loaded after the handler is checked, and `set_validator`
abbrev pub update_definition : Option String → Handler → Option ℕ → HandlerDefn
update_definition name h validator = record (signal_definition name h) {
  dynamic_vararg = false;
  validator = validator;
}

abbrev unless_vararg : HandlerDefn → Result Exc Bool → Result Exc HandlerDefn
unless_vararg defn (ok true) = ok defn
unless_vararg defn (ok false) = err vararg_error
unless_vararg defn (err e) = err e

abbrev pub new_update_definition : Option String → Handler → Option ℕ → Result Exc HandlerDefn
new_update_definition name h validator =
    if has_name name
    then ok (update_definition name h validator)
    else unless_vararg (update_definition name h validator) (assert_dynamic_handler_args h)

-- The definition is checked before it is registered, so that its own check finds nothing more.
unfoldable pub workflow_set_update_handler :
    (name : Option String) → Option Handler → (validator : Option ℕ) → Action Unit
unfolding assert_not_read_only
workflow_set_update_handler name none validator = do
  assert_not_read_only "set update handler" false
  modify (λ s. record s { updates = remove s.updates name })
workflow_set_update_handler name (some h) validator = do
  assert_not_read_only "set update handler" false
  defn ← lift (new_update_definition name h validator)
  modify (λ s. record s { updates = put s.updates name defn })
  raise_if defn.dynamic_vararg vararg_error
