-- ===== src/Lib.antt =====
-- Temporal's Python SDK: the workflow runtime, the conversion of data and failures, and the sandbox's restrictions.
--
-- A worker polls activations from the Rust core and hands each to a workflow instance
-- (temporalio/worker/_workflow_instance.py), which is an asyncio event loop of its own. An activation is a
-- list of jobs: start the workflow, fire a timer, deliver a signal, run an update or a query, resolve an
-- activity or a child workflow, evict. The instance applies the jobs, runs the tasks that are ready, and
-- answers with commands. Converters (temporalio/converter.py) turn values into payloads and exceptions into
-- failures, and back. The workflow's code runs in a sandbox, whose restrictions
-- (temporalio/worker/workflow_sandbox/_restrictions.py) decide which accesses to modules are refused.
--
-- Common: lists, options, equality tests, Python's dict as an association list in insertion order (`Dict`),
--   and results that are values or exceptions (`Result`).
-- Payload, Exceptions: payloads and Python values; temporalio/exceptions.py, every class of the SDK as a
--   constructor, with the classes that `isinstance` sees.
-- Instance.State: the fields of `_WorkflowInstanceImpl`. Futures, tasks and handles are shared objects, so
--   the state holds them in tables by number. A method is an `Action`: it takes the state and gives a value
--   or an exception together with the new state, and what was written before an exception stays written.
-- Instance.Guards: `_assert_not_read_only`, `_add_command`, `_as_read_only`, `_next_seq`.
-- Instance.Patch: `workflow_patch`, `_apply_notify_has_patch`.
-- Instance.Timers: `call_later`, `_timer_handle_cancelled`, `_apply_fire_timer`. A delay is its sign and
--   its nanoseconds, since floats are not modelled.
-- Instance.Tasks: `call_soon`, `create_task`, `_register_task`, `create_future`, and a future's resolution.
-- Instance.Handlers, Instance.Signals: `_convert_payloads`, `_process_handler_args`, `_apply_signal_workflow`,
--   `_process_signal_job`, `workflow_set_signal_handler`, with the buffer of signals.
-- Instance.Outcome: `run_workflow` of `_apply_start_workflow`, `_run_top_level_workflow_function`,
--   `_set_workflow_failure`, `_is_workflow_failure_exception`, and of `_ContinueAsNewError._apply_command` the
--   conversion of the arguments; its memo and the other options of the new run are left out.
-- Instance.Resolve: the jobs `_apply_resolve_*` with the `_resolve_*` methods of the handles.
-- Instance.Updates, Instance.Queries: `_apply_do_update` with its task `run_update`, `_apply_query_workflow`
--   with `run_query`, and the registration of handlers, with the checks of `_UpdateDefinition` in
--   temporalio/workflow.py. A response that is filled in after its command was
--   added is written in place, by the command's position.
-- Instance.Jobs: the jobs of an activation, `_apply`, and the split of the jobs into sets in `activate`, with
--   `_apply_cancel_workflow`, `_apply_remove_from_cache` and `_apply_start_workflow`. The cancellation of a task
--   is asyncio's, and a parameter. The random generator is known by the seed it was last given.
-- Instance.EventLoop: `_run_once`, with `_check_condition` and `workflow_wait_condition`. What a handle runs is
--   a parameter (`Callbacks`). Both loops run on fuel, and run out of it only if the code of the handles goes
--   on scheduling without end.
-- Instance.Activate: `activate`, with the exceptions of its jobs, the check after an eviction, the completion,
--   and `_warn_if_unfinished_handlers`, as the handlers that are warned of.
-- Converter.Encoding, Converter.Composite: temporalio/converter.py, the `EncodingPayloadConverter`s,
--   `CompositePayloadConverter` and `DefaultPayloadConverter`. Python's json, the protobuf library and
--   `value_to_type` are parameters (`Libraries`).
-- Converter.Failures: `DefaultFailureConverter`, with its payload converter as a parameter.
-- Converter.DataConverter: `DataConverter` and the walk of a codec over the payloads of a failure. The codec itself
--   is the user's, and a parameter. A field of payloads that is empty counts as not set.
-- Converter.Attributes, Converter.Untyped: search attributes as payloads, typed ones with their metadata and the
--   deprecated lists. The conversion of dates to text and back is a parameter (`Dates`).
-- SearchAttributes: temporalio/common.py, `SearchAttributeKey` and `TypedSearchAttributes`. A key's indexed type
--   settles its Python type, as it does for every key that the `for` methods make.
-- RetryPolicy: temporalio/common.py, `RetryPolicy`, with its message. The protobuf library's durations and
--   its check of int32 fields are parameters (`Protobuf`).
-- Sandbox: `SandboxMatcher` and `RestrictionContext`, with `access_matcher`, `match_access`, `child_matcher`,
--   `nested_child`, `|` and `with_child_unrestricted`.
--
-- The modules below each of these hold its theorems, in files named for what they prove. Tests applies every
-- result with hypotheses at a concrete input.
--
-- For the instance the payload converter and the failure converter are the user's choice and parameters
-- (`Converters`): each call gives a value or raises. The modules below Converter model those that the SDK has. The workflow's code, with the interceptors around it, is an `Action` or a
-- number that names it; the effect of everything that happens while it waits is part of that action. What a
-- task waits for, and when the callbacks of a task or of a future that is done are called, is asyncio's.
-- Every function is total by structural recursion; only the loops of `_run_once` run on fuel, and return none
-- if it runs out. The texts of errors leave out what they format, except where a failure carries them on.
--
-- Not modelled: the scheduling and the cancellation of activities and children, stack traces, logging and
-- metrics in the instance; the sandbox's proxies, importer and runner; the poll loops of the workers;
-- `value_to_type` and the JSON encoder of temporalio/converter.py; the enumerations, the metric classes and the
-- reflection of temporalio/common.py; the client, the service, the rest of temporalio/workflow.py and
-- temporalio/activity.py, which mostly fill in messages or forward; the Rust core, the generated messages, the
-- test servers and the contributions.
pub mod Common
pub mod Sandbox
pub mod Payload
pub mod Exceptions
pub mod Converter
pub mod RetryPolicy
pub mod SearchAttributes
pub mod Instance
mod Tests
