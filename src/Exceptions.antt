-- ===== src/Exceptions.antt =====
-- temporalio/exceptions.py: the exceptions of the SDK, with the Python exceptions that the SDK
-- tells apart, and temporalio.api.failure.v1.Failure, which a failure error may have come from.
use temporalio_sdk_python.Common.{
  ℕ, Bool, true, false, Option, none, some, List, [], ◌∷◌, ◌++◌, String, string_eq, contains,
  if◌then◌else◌, ◌==◌,
}
use temporalio_sdk_python.Common.Text.{concat}
use temporalio_sdk_python.Payload.{Payload, Value}

-- The enumerations, by their numbers on the wire.
pub data TimeoutType : Type 0 where
  start_to_close schedule_to_start schedule_to_close heartbeat : TimeoutType

pub data RetryState : Type 0 where
  in_progress non_retryable_failure timeout maximum_attempts_reached : RetryState
  retry_policy_not_set internal_server_error cancel_requested : RetryState

pub record ActivityFailureInfo (R : Type 0) : Type 0 where
  pub scheduled_event_id : ℕ
  pub started_event_id : ℕ
  pub identity : String
  pub activity_type : String
  pub activity_id : String
  pub retry_state : R

pub record ChildWorkflowFailureInfo (R : Type 0) : Type 0 where
  pub namespace : String
  pub workflow_id : String
  pub run_id : String
  pub workflow_type : String
  pub initiated_event_id : ℕ
  pub started_event_id : ℕ
  pub retry_state : R

-- The `failure_info` of the message; enumerations are numbers there, 0 if unset.
pub data FailureInfo : Type 0 where
  unset : FailureInfo
  application : (type : String) (non_retryable : Bool) (details : List Payload) → FailureInfo
  timeout : (timeout_type : ℕ) (last_heartbeat_details : List Payload) → FailureInfo
  canceled : (details : List Payload) → FailureInfo
  reset_workflow : (last_heartbeat_details : List Payload) → FailureInfo
  terminated : FailureInfo
  server : (non_retryable : Bool) → FailureInfo
  activity : ActivityFailureInfo ℕ → FailureInfo
  child_workflow : ChildWorkflowFailureInfo ℕ → FailureInfo

mutual
  pub data Failure : Type 0 where
    failure :
        (message stack_trace : String) (encoded_attributes : Option Payload) (info : FailureInfo)
        (cause : FailureCause)
        → Failure

  pub data FailureCause : Type 0 where
    no_cause : FailureCause
    caused_by : Failure → FailureCause

-- The subclasses of `FailureError`, with the attributes that each adds.
pub data FailureKind : Type 0 where
  plain : FailureKind
  application_error :
      (details : List Value) (type : Option String) (non_retryable : Bool) → FailureKind
  cancelled_error : (details : List Value) → FailureKind
  terminated_error : (details : List Value) → FailureKind
  timeout_error : Option TimeoutType → (last_heartbeat_details : List Value) → FailureKind
  server_error : (non_retryable : Bool) → FailureKind
  activity_error : ActivityFailureInfo (Option RetryState) → FailureKind
  child_workflow_error : ChildWorkflowFailureInfo (Option RetryState) → FailureKind
  workflow_already_started_error :
      (workflow_id workflow_type : String) (run_id : Option String) → FailureKind

-- An exception object. `cause` is `__cause__`; `context` is `__context__`, left out where
-- `__suppress_context__` is set; `trace` is the formatted `__traceback__`, empty without one.
-- `other` is an exception of another class, with the names of its classes, its own first.
mutual
  pub data Exc : Type 0 where
    failure_error :
        (kind : FailureKind) (message : String) (proto : Option Failure) (trace : String)
        (cause context : Cause)
        → Exc
    asyncio_cancelled : (text : String) → Exc
    continue_as_new : (args : List Value) → Exc
    read_only_context : (text : String) → Exc
    being_evicted : (text : String) → Exc
    other : (classes : List String) (text trace : String) (cause context : Cause) → Exc

  pub data Cause : Type 0 where
    no_cause : Cause
    caused_by : Exc → Cause

abbrev kind_classes : FailureKind → List String
kind_classes plain = []
kind_classes (application_error d t n) = "ApplicationError" ∷ []
kind_classes (cancelled_error d) = "CancelledError" ∷ []
kind_classes (terminated_error d) = "TerminatedError" ∷ []
kind_classes (timeout_error t d) = "TimeoutError" ∷ []
kind_classes (server_error n) = "ServerError" ∷ []
kind_classes (activity_error i) = "ActivityError" ∷ []
kind_classes (child_workflow_error i) = "ChildWorkflowError" ∷ []
kind_classes (workflow_already_started_error w t r) = "WorkflowAlreadyStartedError" ∷ []

-- The classes of an exception, its own first; the classes of the standard library that share a name
-- with one of the SDK carry their module.
abbrev pub classes : Exc → List String
classes (failure_error k m p t c x) =
    kind_classes k ++ "FailureError" ∷ "TemporalError" ∷ "Exception" ∷ "BaseException" ∷ []
classes (asyncio_cancelled t) = "asyncio.CancelledError" ∷ "BaseException" ∷ []
classes (continue_as_new args) = "_ContinueAsNewError" ∷ "ContinueAsNewError" ∷ "BaseException" ∷ []
classes (read_only_context t) =
    "ReadOnlyContextError" ∷ "TemporalError" ∷ "Exception" ∷ "BaseException" ∷ []
classes (being_evicted t) = "_WorkflowBeingEvictedError" ∷ "BaseException" ∷ []
classes (other cs t tr c x) = cs

abbrev pub isinstance : Exc → String → Bool
isinstance e name = contains name (classes e)

-- `str(e)`: an application error has its type before the message.
abbrev typed_message : Option String → String → String
typed_message none message = message
typed_message (some type) message =
    if type == "" then message else concat type (concat ": " message)

abbrev pub str : Exc → String
str (failure_error (application_error d type n) message p t c x) = typed_message type message
str (failure_error k message p t c x) = message
str (asyncio_cancelled text) = text
str (continue_as_new args) = "Continue as new"
str (read_only_context text) = text
str (being_evicted text) = text
str (other cs text t c x) = text

abbrev pub cause : Exc → Cause
cause (failure_error k m p t c x) = c
cause (other cs t tr c x) = c
cause e = no_cause

abbrev pub is_failure_error : Exc → Bool
is_failure_error (failure_error k m p t c x) = true
is_failure_error e = false

abbrev pub is_temporal_cancelled : Exc → Bool
is_temporal_cancelled (failure_error (cancelled_error d) m p t c x) = true
is_temporal_cancelled e = false

abbrev cancelled_cause : Cause → Bool
cancelled_cause no_cause = false
cancelled_cause (caused_by e) = is_temporal_cancelled e

unfoldable pub is_cancelled_exception : Exc → Bool
is_cancelled_exception (asyncio_cancelled t) = true
is_cancelled_exception (failure_error (cancelled_error d) m p t c x) = true
is_cancelled_exception (failure_error (activity_error i) m p t c x) = cancelled_cause c
is_cancelled_exception (failure_error (child_workflow_error i) m p t c x) = cancelled_cause c
is_cancelled_exception e = false
