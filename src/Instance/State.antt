-- ===== src/Instance/State.antt =====
-- temporalio/worker/_workflow_instance.py: the state of `_WorkflowInstanceImpl`, the commands that it
-- emits, and its methods as actions. What a method wrote before it raised stays written.
use temporalio_sdk_python.Common.{ℕ, Bool, true, false, Option, none, List, [], String}
use temporalio_sdk_python.Common.Dict.{Dict}
use temporalio_sdk_python.Common.Result.{Result, ok, err}
use temporalio_sdk_python.Payload.{Payload, Value}
use temporalio_sdk_python.Exceptions.{Exc, Failure}

-- The answer to an update, as far as it has been filled in.
pub data UpdateResponse : Type 0 where
  pending accepted : UpdateResponse
  completed : Payload → UpdateResponse
  rejected : Failure → UpdateResponse

-- Commands of the completion, with the fields that the instance reads again or matches on.
pub data Command : Type 0 where
  set_patch_marker : (patch_id : String) (deprecated : Bool) → Command
  start_timer : (seq nanos : ℕ) → Command
  cancel_timer : (seq : ℕ) → Command
  -- without an id of the caller's the activity has its sequence number for an id
  schedule_activity :
      (local : Bool) (seq : ℕ) (activity_id : Option String) (activity_type : String)
      (arguments : List Payload)
      → Command
  request_cancel_activity : (local : Bool) (seq : ℕ) → Command
  start_child_workflow :
      (seq : ℕ) (workflow_id workflow_type : String) (input : List Payload) → Command
  cancel_child_workflow : (child_workflow_seq : ℕ) → Command
  signal_external_workflow : (seq : ℕ) (signal_name : String) → Command
  cancel_signal_workflow : (seq : ℕ) → Command
  request_cancel_external_workflow : (seq : ℕ) → Command
  respond_to_query : (query_id : String) → Result Failure Payload → Command
  update_response : (protocol_instance_id : String) → UpdateResponse → Command
  complete_workflow : Payload → Command
  continue_as_new_workflow : List Payload → Command
  fail_workflow : Option Failure → Command
  cancel_workflow : Command

-- `asyncio.Future`
pub data Future : Type 0 where
  pending : Future
  finished : Value → Future
  failed : Exc → Future
  cancelled : Future

pub data UnfinishedPolicy : Type 0 where
  warn_and_abandon abandon : UnfinishedPolicy

pub record HandlerExecution : Type 0 where
  pub name : String
  pub unfinished_policy : UnfinishedPolicy
  pub id : Option String

-- The definition of a signal, query or update handler; a dynamic one has no name.
pub record HandlerDefn : Type 0 where
  pub name : Option String
  pub fn : ℕ
  pub arg_types : Option (List String)
  pub dynamic_vararg : Bool
  pub unfinished_policy : UnfinishedPolicy
  pub validator : Option ℕ

pub record SignalWorkflow : Type 0 where
  pub signal_name : String
  pub input : List Payload
  pub headers : List (String × Payload)

pub record QueryWorkflow : Type 0 where
  pub query_id : String
  pub query_type : String
  pub arguments : List Payload

pub record DoUpdate : Type 0 where
  pub id : String
  pub protocol_instance_id : String
  pub name : String
  pub input : List Payload
  pub run_validator : Bool

-- What a task of the event loop runs.
pub data Work : Type 0 where
  run_workflow : List Value → Work
  handle_signal : (id : ℕ) (signal : String) (args : List Value) → Work
  run_query : QueryWorkflow → Work
  run_update : DoUpdate → Work
  run_activity : (handle : ℕ) → Work
  run_child : (handle : ℕ) → Work

-- A timer handle holds its callback, here by number.
pub record TimerHandle : Type 0 where
  pub seq : ℕ
  pub callback : ℕ

-- An entry of `_ready`: the step of a task, the callback of a timer, the cancellation of a task.
pub data Ready : Type 0 where
  task_step : ℕ → Ready
  fire : TimerHandle → Ready
  cancel_task : ℕ → Ready

-- The handles are tasks: their number is that of the task. `ret_type` is that of the input.
pub record ActivityHandle : Type 0 where
  pub seq : ℕ
  pub local : Bool
  pub activity : String
  pub activity_id : Option String
  pub ret_type : Option String
  pub result_fut : ℕ
  pub started : Bool

pub record ChildHandle : Type 0 where
  pub seq : ℕ
  pub workflow_id : String
  pub workflow : String
  pub ret_type : Option String
  pub start_fut : ℕ
  pub result_fut : ℕ
  pub first_execution_run_id : String

-- Futures, tasks and handles are shared objects: the state holds them in tables by number, and all
-- else refers to the number.
pub record Instance : Type 0 where
  pub is_replaying : Bool
  pub cancel_requested : Bool
  pub deleting : Bool
  pub read_only : Bool
  pub activation_error : Option Exc
  pub commands : List Command
  pub curr_seqs : Dict String ℕ
  pub patches_notified : List String
  pub patches_memoized : Dict String Bool
  pub pending_timers : Dict ℕ TimerHandle
  pub pending_activities : Dict ℕ ℕ
  pub pending_child_workflows : Dict ℕ ℕ
  pub pending_external_signals : Dict ℕ ℕ
  pub pending_external_cancels : Dict ℕ ℕ
  pub activities : Dict ℕ ActivityHandle
  pub children : Dict ℕ ChildHandle
  pub futures : Dict ℕ Future
  pub next_future : ℕ
  pub ready : List Ready
  pub conditions : List (ℕ × ℕ)
  pub tasks : Dict ℕ Work
  pub next_task : ℕ
  pub primary_task : Option ℕ
  pub signals : Dict (Option String) HandlerDefn
  pub queries : Dict (Option String) HandlerDefn
  pub updates : Dict (Option String) HandlerDefn
  pub handled_signals_seq : ℕ
  pub in_progress_signals : Dict ℕ HandlerExecution
  pub in_progress_updates : Dict String HandlerExecution
  pub buffered_signals : Dict String (List SignalWorkflow)
  pub random_seed : ℕ
  pub has_object : Bool

-- `__init__`, without the handlers of the definition and the two stack trace queries
abbrev pub new_instance : Instance
new_instance = record {
  is_replaying = false;
  cancel_requested = false;
  deleting = false;
  read_only = false;
  activation_error = none;
  commands = [];
  curr_seqs = [];
  patches_notified = [];
  patches_memoized = [];
  pending_timers = [];
  pending_activities = [];
  pending_child_workflows = [];
  pending_external_signals = [];
  pending_external_cancels = [];
  activities = [];
  children = [];
  futures = [];
  next_future = 0;
  ready = [];
  conditions = [];
  tasks = [];
  next_task = 0;
  primary_task = none;
  signals = [];
  queries = [];
  updates = [];
  handled_signals_seq = 0;
  in_progress_signals = [];
  in_progress_updates = [];
  buffered_signals = [];
  random_seed = 0;
  has_object = false;
}

abbrev pub Action : Type 0 → Type 0
Action A = Instance → Result Exc A × Instance

module _ {A : Type 0} where
  abbrev pub pure : A → Action A
  pure a s = (ok a, s)

  abbrev pub raise : Exc → Action A
  raise e s = (err e, s)

  abbrev pub lift : Result Exc A → Action A
  lift r s = (r, s)

  abbrev pub gets : (Instance → A) → Action A
  gets f s = (ok (f s), s)

abbrev pub modify : (Instance → Instance) → Action (Unit {0})
modify f s = (ok tt, f s)

infixl 5 ◌>>=◌ ◌>>◌
abbrev pub ◌>>=◌ : {A B : Type 0} → Action A → (A → Action B) → Action B
◌>>=◌ m f s = let (r, s') = m s in elim r [ ok a ↦ f a s' | err e ↦ raise e s' ]

abbrev pub ◌>>◌ : {B : Type 0} → Action (Unit {0}) → Action B → Action B
m >> k = m >>= λ _. k

-- `if test: raise e`
abbrev pub raise_if : Bool → Exc → Action (Unit {0})
raise_if true e s = (err e, s)
raise_if false e s = (ok tt, s)
