-- ===== src/Instance/Resolve.antt =====
-- temporalio/worker/_workflow_instance.py: the jobs that resolve activities, child workflows and requests to external
-- workflows, `_apply_resolve_*`, with the handles' `_resolve_*`.
pub mod Once
use package.text.Mathlib.TextPositions.{eq_refl}
use temporalio_sdk_python.Common.{
  ℕ, suc, ◌+◌, ◌-◌, ◌≤◌, ◌<◌, Bool, true, false, not, ◌&&◌, ◌||◌, Option, none, some, List, [], ◌∷◌,
  ◌++◌, map, String, ◌≡◌, ◌≢◌, refl, sym, ap, subst, ◌∙◌, ◌⊎◌, inl, inr, string_eq, ℕ_eq, option_eq,
  arith, if◌then◌else◌, ◌==◌, contains, keep, or_else, is_some, Bool-cases, Option-cases, length,
  leb, ltb, eqb, keep-append, contains-append, length-append,
}
use temporalio_sdk_python.Common.Dict.{Dict, get, put, remove, has, get-put, get-remove, dict_laws}
use temporalio_sdk_python.Common.Result.{Result, ok, err}
use temporalio_sdk_python.Payload.{Payload, Value, null, raw_value, seq, values}
use temporalio_sdk_python.Exceptions.{
  Exc, Cause, Failure, failure_error, asyncio_cancelled, continue_as_new, other, read_only_context,
  being_evicted, no_cause, caused_by, plain, cancelled_error, is_failure_error,
  is_cancelled_exception, isinstance, classes,
}
use temporalio_sdk_python.Instance.State.{
  Instance, Action, Command, Future, pending, finished, pure, raise, lift, gets, modify, raise_if,
  ◌>>=◌, ◌>>◌, set_patch_marker, start_timer, cancel_timer, TimerHandle, Ready, fire, task_step,
  cancel_task, Work, new_instance, HandlerDefn, HandlerExecution, UnfinishedPolicy,
  warn_and_abandon, abandon, SignalWorkflow, QueryWorkflow, DoUpdate, UpdateResponse,
  ActivityHandle, ChildHandle, update_response, respond_to_query, complete_workflow,
  continue_as_new_workflow, fail_workflow, cancel_workflow, schedule_activity,
  request_cancel_activity, start_child_workflow, cancel_child_workflow,
}
use temporalio_sdk_python.Instance.Guards.{
  assert_not_read_only, add_command, as_read_only, next_seq, curr_seq, IsWritable,
  assert-IsWritable, add_command-IsWritable,
}
use temporalio_sdk_python.Exceptions.{workflow_already_started_error}
use temporalio_sdk_python.Instance.Tasks.{runtime_error, create_future, resolve, done}
use temporalio_sdk_python.Instance.Handlers.{Converters, convert_payloads}

-- The result of an activity, or of a child workflow, for which `backoff` is not used.
pub data Resolution : Type 0 where
  completed : Option Payload → Resolution
  failed cancelled : Failure → Resolution
  backoff : Resolution
  unset : Resolution

-- How the start of a child workflow ended.
pub data StartResolution : Type 0 where
  succeeded : (run_id : String) → StartResolution
  already_exists : (workflow_id workflow_type : String) → StartResolution
  unknown_cause : StartResolution
  cancelled : Failure → StartResolution
  unset : StartResolution

-- `_ActivityDoBackoffError`
abbrev pub backoff_error : Exc
backoff_error =
    other ("_ActivityDoBackoffError" ∷ "BaseException" ∷ []) "Backoff" "" no_cause no_cause

-- `[ret_type] if ret_type else None`
abbrev type_list : Option String → Option (List String)
type_list none = none
type_list (some t) = some (t ∷ [])

-- `ret_vals[0]`
abbrev first_value : List Value → Result Exc Value
first_value [] = err (
    other ("IndexError" ∷ "LookupError" ∷ "Exception" ∷ "BaseException" ∷ [])
      "list index out of range" "" no_cause no_cause)
first_value (v ∷ vs) = ok v

unfoldable pub decode_result : Converters → Option String → Option Payload → Action Value
decode_result c type none = pure null
decode_result c type (some p) = do
  values ← lift (convert_payloads c (p ∷ []) (type_list type))
  lift (first_value values)

-- a handle that is pending is in the table of handles
abbrev missing_handle : Exc
missing_handle = runtime_error "handle"

abbrev pub found_handle : {A : Type 0} → Option A → Action A
found_handle none = raise missing_handle
found_handle (some a) = pure a

abbrev pub get_activity : ℕ → Action ActivityHandle
get_activity h s = found_handle (get s.activities h) s

abbrev pub get_child_handle : ℕ → Action ChildHandle
get_child_handle h s = found_handle (get s.children h) s

-- `_ActivityHandle._resolve_failure`: a handle that was never started has no one to hear of the failure
unfoldable pub activity_resolve_failure : ActivityHandle → Exc → Action Unit
unfolding resolve
activity_resolve_failure a e s =
    if a.started then resolve a.result_fut (Future.failed e) s else (ok tt, s)

-- `_ActivityHandle._resolve_backoff`
unfoldable pub resolve_backoff : (handle : ℕ) → ActivityHandle → Action Unit
unfolding resolve next_seq create_future
resolve_backoff h a = do
  n ← next_seq "activity"
  modify (λ s. record s { activities = put s.activities h (record a { seq = n }) })
  resolve a.result_fut (Future.failed backoff_error)
  f ← create_future
  modify (λ s. record s {
    activities = put s.activities h (record a { seq = n; result_fut = f; started = false });
  })

-- the branches on the result of the activity
unfoldable pub resolve_activity :
    Converters → (handle : ℕ) → ActivityHandle → Resolution → Action Unit
unfolding decode_result resolve activity_resolve_failure resolve_backoff
resolve_activity c h a (completed p) = do
  ret ← decode_result c a.ret_type p
  resolve a.result_fut (finished ret)
resolve_activity c h a (failed f) = do e ← lift (c.from_failure f); activity_resolve_failure a e
resolve_activity c h a (cancelled f) = do e ← lift (c.from_failure f); activity_resolve_failure a e
resolve_activity c h a backoff = resolve_backoff h a
resolve_activity c h a unset = raise (runtime_error "Activity did not have result")

abbrev pub resolve_found : Converters → Resolution → (handle : Option ℕ) → Action Unit
resolve_found c result none = raise (runtime_error "Failed finding activity handle for sequence")
resolve_found c result (some h) = get_activity h >>= λ a. resolve_activity c h a result

unfoldable pub apply_resolve_activity : Converters → (seq : ℕ) → Resolution → Action Unit
unfolding resolve_activity
apply_resolve_activity c n result = do
  pending_handle ← gets (λ s. get s.pending_activities n)
  modify (λ s. record s { pending_activities = remove s.pending_activities n })
  resolve_found c result pending_handle

-- `_ChildWorkflowHandle._resolve_failure`
unfoldable pub child_resolve_failure : ChildHandle → Exc → Action Unit
unfolding resolve
child_resolve_failure a e s =
    if done s a.start_fut
    then resolve a.result_fut (Future.failed e) s
    else (resolve a.start_fut (Future.failed e) >> resolve a.result_fut (finished null)) s

-- the branches on the result of the child
unfoldable pub resolve_child : Converters → ChildHandle → Resolution → Action Unit
unfolding decode_result resolve child_resolve_failure
resolve_child c a (completed p) = do
  ret ← decode_result c a.ret_type p
  resolve a.result_fut (finished ret)
resolve_child c a (failed f) = do e ← lift (c.from_failure f); child_resolve_failure a e
resolve_child c a (cancelled f) = do e ← lift (c.from_failure f); child_resolve_failure a e
resolve_child c a _ = raise (runtime_error "Child workflow did not have result")

unfoldable pub apply_resolve_child_workflow_execution :
    Converters → (seq : ℕ) → Resolution → Action Unit
unfolding resolve_child
apply_resolve_child_workflow_execution c n result = do
  pending_handle ← gets (λ s. get s.pending_child_workflows n)
  modify (λ s. record s { pending_child_workflows = remove s.pending_child_workflows n })
  elim pending_handle [
    | none ↦ raise (runtime_error "Failed finding child workflow handle for sequence")
    | some h ↦ get_child_handle h >>= λ a. resolve_child c a result
  ]

abbrev pop_child : ℕ → Action Unit
pop_child n =
    modify (λ s. record s { pending_child_workflows = remove s.pending_child_workflows n })

-- the branches on the start of the child: a child that started stays pending
unfoldable pub resolve_child_start :
    Converters → (seq : ℕ) → (handle : ℕ) → ChildHandle → StartResolution → Action Unit
unfolding resolve child_resolve_failure
resolve_child_start c n h a (succeeded run_id) = do
  modify
      (λ s. record s { children = put s.children h (record a { first_execution_run_id = run_id }) })
  resolve a.start_fut (finished null)
resolve_child_start c n h a (already_exists workflow_id workflow_type) = do
  pop_child n
  child_resolve_failure a (
      failure_error (workflow_already_started_error workflow_id workflow_type none)
        "Workflow execution already started" none "" no_cause no_cause)
resolve_child_start c n h a unknown_cause = do
  pop_child n
  child_resolve_failure a (runtime_error "Unknown child start fail cause")
resolve_child_start c n h a (cancelled f) = do
  pop_child n
  e ← lift (c.from_failure f)
  child_resolve_failure a e
resolve_child_start c n h a unset =
    raise (runtime_error "Child workflow start did not have a known status")

unfoldable pub apply_resolve_child_workflow_execution_start :
    Converters → (seq : ℕ) → StartResolution → Action Unit
unfolding resolve_child_start
apply_resolve_child_workflow_execution_start c n result = do
  pending_handle ← gets (λ s. get s.pending_child_workflows n)
  elim pending_handle [
    | none ↦ raise (runtime_error "Failed finding child workflow handle for sequence")
    | some h ↦ get_child_handle h >>= λ a. resolve_child_start c n h a result
  ]

-- a future of a request to another workflow: an exception if the job has a failure
abbrev resolve_external : Converters → (fut : ℕ) → Option Failure → Action Unit
resolve_external c f none = resolve f (finished null)
resolve_external c f (some x) = lift (c.from_failure x) >>= λ e. resolve f (Future.failed e)

unfoldable pub apply_resolve_request_cancel_external_workflow :
    Converters → (seq : ℕ) → Option Failure → Action Unit
unfolding resolve
apply_resolve_request_cancel_external_workflow c n failure = do
  fut ← gets (λ s. get s.pending_external_cancels n)
  modify (λ s. record s { pending_external_cancels = remove s.pending_external_cancels n })
  elim fut [
    | none ↦ raise (runtime_error "Failed finding pending external cancel for sequence")
    | some f ↦ resolve_external c f failure
  ]

unfoldable pub apply_resolve_signal_external_workflow :
    Converters → (seq : ℕ) → Option Failure → Action Unit
unfolding resolve
apply_resolve_signal_external_workflow c n failure = do
  fut ← gets (λ s. get s.pending_external_signals n)
  modify (λ s. record s { pending_external_signals = remove s.pending_external_signals n })
  elim fut [
    | none ↦ raise (runtime_error "Failed finding pending external signal for sequence")
    | some f ↦ resolve_external c f failure
  ]
