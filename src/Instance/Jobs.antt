-- ===== src/Instance/Jobs.antt =====
-- temporalio/worker/_workflow_instance.py: the jobs of an activation, `_apply`, and the order in which `activate` applies them.
pub mod Sets
use package.text.Mathlib.TextPositions.{eq_refl}
use temporalio_sdk_python.Common.{
  ℕ, suc, ◌+◌, ◌-◌, ◌≤◌, ◌<◌, Bool, true, false, not, ◌&&◌, ◌||◌, Option, none, some, List, [], ◌∷◌,
  ◌++◌, map, String, ◌≡◌, ◌≢◌, refl, sym, ap, subst, ◌∙◌, ◌⊎◌, inl, inr, string_eq, ℕ_eq, option_eq,
  arith, if◌then◌else◌, ◌==◌, contains, keep, or_else, is_some, Bool-cases, Option-cases, length,
  leb, ltb, eqb, keep-append, contains-append, length-append,
}
use temporalio_sdk_python.Common.Dict.{Dict, get, put, remove, has, get-put, get-remove, dict_laws}
use temporalio_sdk_python.Common.Result.{Result, ok, err}
use temporalio_sdk_python.Payload.{Payload, Value, null, raw_value, seq, values}
use temporalio_sdk_python.Exceptions.{
  Exc, Cause, Failure, failure_error, asyncio_cancelled, continue_as_new, other, read_only_context,
  being_evicted, no_cause, caused_by, plain, cancelled_error, is_failure_error,
  is_cancelled_exception, isinstance, classes,
}
use temporalio_sdk_python.Instance.State.{
  Instance, Action, Command, Future, pending, finished, failed, cancelled, pure, raise, lift, gets,
  modify, raise_if, ◌>>=◌, ◌>>◌, set_patch_marker, start_timer, cancel_timer, TimerHandle, Ready,
  fire, task_step, cancel_task, Work, new_instance, HandlerDefn, HandlerExecution, UnfinishedPolicy,
  warn_and_abandon, abandon, SignalWorkflow, QueryWorkflow, DoUpdate, UpdateResponse, accepted,
  completed, rejected, ActivityHandle, ChildHandle, update_response, respond_to_query,
  complete_workflow, continue_as_new_workflow, fail_workflow, schedule_activity,
  request_cancel_activity, start_child_workflow, cancel_child_workflow,
}
use temporalio_sdk_python.Instance.Guards.{
  assert_not_read_only, add_command, as_read_only, next_seq, curr_seq, IsWritable,
  assert-IsWritable, add_command-IsWritable,
}
use temporalio_sdk_python.Instance.Tasks.{runtime_error, create_task, call_soon}
use temporalio_sdk_python.Instance.Handlers.{Converters, convert_payloads, raw_types, has_name}
use temporalio_sdk_python.Instance.Signals.{apply_signal_workflow}
use temporalio_sdk_python.Instance.Timers.{apply_fire_timer}
use temporalio_sdk_python.Instance.Patch.{apply_notify_has_patch}
use temporalio_sdk_python.Instance.Updates.{apply_do_update}
use temporalio_sdk_python.Instance.Queries.{apply_query_workflow}
use temporalio_sdk_python.Instance.Resolve.{
  Resolution, StartResolution, apply_resolve_activity, apply_resolve_child_workflow_execution,
  apply_resolve_child_workflow_execution_start, apply_resolve_request_cancel_external_workflow,
  apply_resolve_signal_external_workflow,
}

-- temporalio.bridge.proto.workflow_activation.WorkflowActivationJob
pub data Job : Type 0 where
  cancel_workflow remove_from_cache : Job
  do_update : DoUpdate → Job
  fire_timer : (seq : ℕ) → Job
  query_workflow : QueryWorkflow → Job
  notify_has_patch : (patch_id : String) → Job
  resolve_activity : (seq : ℕ) → Resolution → Job
  resolve_child_workflow_execution : (seq : ℕ) → Resolution → Job
  resolve_child_workflow_execution_start : (seq : ℕ) → StartResolution → Job
  resolve_request_cancel_external_workflow : (seq : ℕ) → Option Failure → Job
  resolve_signal_external_workflow : (seq : ℕ) → Option Failure → Job
  signal_workflow : SignalWorkflow → Job
  start_workflow : (arguments : List Payload) → Job
  update_random_seed : (randomness_seed : ℕ) → Job
  unrecognized : Job

-- What the instance knows of the workflow's class.
pub record WorkflowDefn : Type 0 where
  pub name : Option String
  pub arg_types : Option (List String)

unfoldable pub apply_cancel_workflow : Action Unit
unfolding call_soon
apply_cancel_workflow = do
  modify (λ s. record s { cancel_requested = true })
  primary ← gets (λ s. s.primary_task)
  elim primary [ none ↦ pure tt | some task ↦ call_soon (cancel_task task) ]

-- `for task in self._tasks: task.cancel()`; `cancel` is that of asyncio's task or of a handle that overrides it
abbrev pub cancel_all : (cancel : ℕ → Action Unit) → Dict ℕ Work → Action Unit
cancel_all cancel [] = pure tt
cancel_all cancel ((task, work) ∷ tasks) = do cancel task; cancel_all cancel tasks

unfoldable pub apply_remove_from_cache : (cancel : ℕ → Action Unit) → Action Unit
apply_remove_from_cache cancel = do
  modify (λ s. record s { deleting = true; cancel_requested = true; is_replaying = true })
  tasks ← gets (λ s. s.tasks)
  cancel_all cancel tasks

-- a dynamic workflow gets its arguments raw, in one list
abbrev pub workflow_args : WorkflowDefn → List Value → List Value
workflow_args defn args = if has_name defn.name then args else seq (values args) ∷ []

unfoldable pub apply_start_workflow :
    Converters → WorkflowDefn → (arguments : List Payload) → Action Unit
unfolding convert_payloads create_task
apply_start_workflow c defn arguments = do
  args ← lift (
      convert_payloads c arguments
        (if has_name defn.name then defn.arg_types else some (raw_types arguments)))
  task ← create_task (Work.run_workflow (workflow_args defn args))
  modify (λ s. record s { primary_task = some task })

unfoldable pub apply : Converters → WorkflowDefn → (cancel : ℕ → Action Unit) → Job → Action Unit
unfolding apply_cancel_workflow apply_remove_from_cache apply_start_workflow apply_do_update
    apply_fire_timer apply_query_workflow apply_notify_has_patch apply_resolve_activity
    apply_resolve_child_workflow_execution apply_resolve_child_workflow_execution_start
    apply_resolve_request_cancel_external_workflow apply_resolve_signal_external_workflow
    apply_signal_workflow
apply c defn cancel Job.cancel_workflow = apply_cancel_workflow
apply c defn cancel remove_from_cache = apply_remove_from_cache cancel
apply c defn cancel (do_update job) = apply_do_update job
apply c defn cancel (fire_timer n) = apply_fire_timer n
apply c defn cancel (query_workflow job) = apply_query_workflow job
apply c defn cancel (notify_has_patch id) = apply_notify_has_patch id
apply c defn cancel (resolve_activity n r) = apply_resolve_activity c n r
apply c defn cancel (resolve_child_workflow_execution n r) =
    apply_resolve_child_workflow_execution c n r
apply c defn cancel (resolve_child_workflow_execution_start n r) =
    apply_resolve_child_workflow_execution_start c n r
apply c defn cancel (resolve_request_cancel_external_workflow n f) =
    apply_resolve_request_cancel_external_workflow c n f
apply c defn cancel (resolve_signal_external_workflow n f) =
    apply_resolve_signal_external_workflow c n f
apply c defn cancel (signal_workflow job) = apply_signal_workflow c job
apply c defn cancel (start_workflow arguments) = apply_start_workflow c defn arguments
apply c defn cancel (update_random_seed n) = modify (λ s. record s { random_seed = n })
apply c defn cancel unrecognized = raise (runtime_error "Unrecognized job")

pub record JobSets : Type 0 where
  pub patches : List Job
  pub signals_and_updates : List Job
  pub others : List Job
  pub queries : List Job

-- one step of `for job in act.jobs`
abbrev pub add_job : JobSets → Job → JobSets
add_job sets (notify_has_patch id) = record sets {
  patches = sets.patches ++ notify_has_patch id ∷ [];
}
add_job sets (signal_workflow job) = record sets {
  signals_and_updates = sets.signals_and_updates ++ signal_workflow job ∷ [];
}
add_job sets (do_update job) = record sets {
  signals_and_updates = sets.signals_and_updates ++ do_update job ∷ [];
}
add_job sets (query_workflow job) = record sets {
  queries = sets.queries ++ query_workflow job ∷ [];
}
add_job sets job = record sets { others = sets.others ++ job ∷ [] }

abbrev add_jobs : JobSets → List Job → JobSets
add_jobs sets [] = sets
add_jobs sets (job ∷ jobs) = add_jobs (add_job sets job) jobs

unfoldable pub job_sets : List Job → JobSets
job_sets jobs =
    add_jobs (record { patches = []; signals_and_updates = []; others = []; queries = [] }) jobs
