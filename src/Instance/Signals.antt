-- ===== src/Instance/Signals.antt =====
-- temporalio/worker/_workflow_instance.py: signals, `_apply_signal_workflow`, `_process_signal_job` and `workflow_set_signal_handler`.
pub mod Handed
pub mod Delivery
pub mod Buffer
pub mod Served
pub mod Steps
pub mod Registration
pub mod Conservation
use package.text.Mathlib.TextPositions.{eq_refl}
use temporalio_sdk_python.Common.{
  ℕ, suc, ◌+◌, ◌-◌, ◌≤◌, ◌<◌, Bool, true, false, not, ◌&&◌, ◌||◌, Option, none, some, List, [], ◌∷◌,
  ◌++◌, map, String, ◌≡◌, ◌≢◌, refl, sym, ap, ◌∙◌, ◌⊎◌, inl, inr, string_eq, ℕ_eq, option_eq, arith,
  if◌then◌else◌, ◌==◌, contains, keep, or_else, is_some, Bool-cases, Option-cases, length, leb, ltb,
  eqb, keep-append, contains-append, length-append,
}
use temporalio_sdk_python.Common.Dict.{Dict, get, put, remove, has, get-put, get-remove, dict_laws}
use temporalio_sdk_python.Common.Result.{Result, ok, err}
use temporalio_sdk_python.Payload.{Payload, Value, null, raw_value, seq, values}
use temporalio_sdk_python.Exceptions.{
  Exc, Cause, Failure, failure_error, asyncio_cancelled, continue_as_new, other, read_only_context,
  being_evicted, no_cause, caused_by, plain, cancelled_error, is_failure_error,
  is_cancelled_exception, isinstance, classes,
}
use temporalio_sdk_python.Instance.State.{
  Instance, Action, Command, Future, pending, finished, failed, cancelled, pure, raise, lift, gets,
  modify, raise_if, ◌>>=◌, ◌>>◌, set_patch_marker, start_timer, cancel_timer, TimerHandle, Ready,
  fire, task_step, cancel_task, Work, new_instance, HandlerDefn, HandlerExecution, UnfinishedPolicy,
  warn_and_abandon, abandon, SignalWorkflow, QueryWorkflow, DoUpdate, UpdateResponse,
  ActivityHandle, ChildHandle,
}
use temporalio_sdk_python.Instance.Guards.{
  assert_not_read_only, add_command, as_read_only, next_seq, curr_seq, IsWritable,
  assert-IsWritable, add_command-IsWritable,
}
use temporalio_sdk_python.Instance.Tasks.{create_task}
use temporalio_sdk_python.Instance.Handlers.{Converters, process_handler_args, has_name}

-- `done_callback`, which asyncio calls when the task that `start_signal` creates for `id` is done
signal_done : (id : ℕ) → Action Unit
signal_done id = modify (λ s. record s { in_progress_signals = remove s.in_progress_signals id })

-- the rest of `_process_signal_job`, after the arguments
unfoldable pub start_signal : HandlerDefn → String → List Value → Action Unit
unfolding create_task
start_signal defn name args = do
  id ← gets (λ s. s.handled_signals_seq + 1)
  modify (λ s. record s {
    handled_signals_seq = id;
    in_progress_signals =
        put s.in_progress_signals id
          (record { name = name; unfinished_policy = defn.unfinished_policy; id = none });
  })
  _ ← create_task (Work.handle_signal id name args)
  pure tt

-- A signal whose input cannot be decoded is logged and dropped.
abbrev pub signal_outcome : HandlerDefn → SignalWorkflow → Result Exc (List Value) → Action Unit
signal_outcome defn job (ok args) = start_signal defn job.signal_name args
signal_outcome defn job (err e) = raise_if (not (isinstance e "Exception")) e

unfoldable pub process_signal_job : Converters → HandlerDefn → SignalWorkflow → Action Unit
unfolding process_handler_args start_signal
process_signal_job c defn job =
    signal_outcome defn job (process_handler_args c job.signal_name job.input defn)

-- the buffer's list for a name, empty by default
abbrev pub jobs_of : Dict String (List SignalWorkflow) → String → List SignalWorkflow
jobs_of buffer name = elim (get buffer name) [ none ↦ [] | some jobs ↦ jobs ]

abbrev pub buffered : Instance → String → List SignalWorkflow
buffered s name = jobs_of s.buffered_signals name

-- the handler of a name, or the dynamic one
abbrev pub find_handler : Dict (Option String) HandlerDefn → String → Option HandlerDefn
find_handler handlers name = or_else (get handlers (some name)) (get handlers none)

abbrev pub deliver_or_buffer : Converters → SignalWorkflow → Option HandlerDefn → Action Unit
deliver_or_buffer c job none = modify (λ s. record s {
  buffered_signals =
      put s.buffered_signals job.signal_name (buffered s job.signal_name ++ job ∷ []);
})
deliver_or_buffer c job (some defn) = process_signal_job c defn job

unfoldable pub apply_signal_workflow : Converters → SignalWorkflow → Action Unit
unfolding process_signal_job
apply_signal_workflow c job s = deliver_or_buffer c job (find_handler s.signals job.signal_name) s

-- the callable that user code hands over, with what its signature says
pub record Handler : Type 0 where
  pub fn : ℕ
  pub arg_types : Option (List String)
  pub dynamic_vararg : Bool

abbrev pub signal_definition : Option String → Handler → HandlerDefn
signal_definition name h = record {
  name = name;
  fn = h.fn;
  arg_types = h.arg_types;
  dynamic_vararg = h.dynamic_vararg;
  unfinished_policy = warn_and_abandon;
  validator = none;
}

-- `for job in jobs: self._process_signal_job(defn, job)`
unfoldable pub process_all : Converters → HandlerDefn → List SignalWorkflow → Action Unit
unfolding process_signal_job
process_all c defn [] = pure tt
process_all c defn (job ∷ jobs) = do process_signal_job c defn job; process_all c defn jobs

-- `for jobs in self._buffered_signals.values(): …`
abbrev pub all_jobs : Dict String (List SignalWorkflow) → List SignalWorkflow
all_jobs [] = []
all_jobs ((name, jobs) ∷ rest) = jobs ++ all_jobs rest

-- the named handler gets the signals of its name, the dynamic one all
abbrev pub flush_buffer : Converters → Option String → HandlerDefn → Action Unit
flush_buffer c none defn = do
  jobs ← gets (λ s. all_jobs s.buffered_signals)
  process_all c defn jobs
  modify (λ s. record s { buffered_signals = [] })
flush_buffer c (some name) defn =
    if has_name (some name)
    then (do
      jobs ← gets (λ s. buffered s name)
      modify (λ s. record s { buffered_signals = remove s.buffered_signals name })
      process_all c defn jobs)
    else (do
      jobs ← gets (λ s. all_jobs s.buffered_signals)
      process_all c defn jobs
      modify (λ s. record s { buffered_signals = [] }))

unfoldable pub workflow_set_signal_handler :
    Converters → (name : Option String) → Option Handler → Action Unit
unfolding assert_not_read_only process_all
workflow_set_signal_handler c name none = do
  assert_not_read_only "set signal handler" false
  modify (λ s. record s { signals = remove s.signals name })
workflow_set_signal_handler c name (some h) = do
  assert_not_read_only "set signal handler" false
  modify (λ s. record s { signals = put s.signals name (signal_definition name h) })
  flush_buffer c name (signal_definition name h)
