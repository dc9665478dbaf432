-- ===== src/Converter/Failures.antt =====
-- temporalio/converter.py: `DefaultFailureConverter`.
pub mod Numbers
pub mod Sent
pub mod RoundTrip
pub mod Chains
use text.Mathlib.TextPositions.{eq_refl}
use temporalio_sdk_python.Common.{
  ℕ, suc, ◌+◌, ◌-◌, ◌≤◌, ◌<◌, Bool, true, false, not, ◌&&◌, ◌||◌, Option, none, some, List, [], ◌∷◌,
  ◌++◌, map, String, ◌≡◌, ◌≢◌, refl, sym, ap, subst, ◌∙◌, ◌⊎◌, inl, inr, string_eq, ℕ_eq, option_eq,
  arith, if◌then◌else◌, ◌==◌, contains, keep, or_else, is_some, Bool-cases, Option-cases, length,
  leb, ltb, eqb, keep-append, contains-append, length-append,
}
use temporalio_sdk_python.Common.Dict.{Dict, get, put, remove, has, get-put, get-remove, dict_laws}
use temporalio_sdk_python.Common.Result.{
  Result, ok, err, ◌>>=◌, ◌>>◌, raise_if, ok_of_bind, Result-cases,
}
use temporalio_sdk_python.Payload.{Payload, Value, null, raw_value, proto, seq, values}
use temporalio_sdk_python.Exceptions.{Exc, other, failure_error, isinstance, is_failure_error}
use temporalio_sdk_python.Payload.{dict, Fields, end, field}
use temporalio_sdk_python.Exceptions.{
  Cause, no_cause, caused_by, TimeoutType, RetryState, ActivityFailureInfo,
  ChildWorkflowFailureInfo, FailureInfo, Failure, FailureCause, failure, FailureKind, plain,
  application_error, cancelled_error, terminated_error, timeout_error, server_error, activity_error,
  child_workflow_error, workflow_already_started_error, asyncio_cancelled, continue_as_new,
  read_only_context, being_evicted,
}
use temporalio_sdk_python.Converter.Failures.Numbers.{
  timeout_type_number, retry_state_number, timeout_type, retry_state,
}

-- The payload converter that is handed over, and whether common attributes are encoded.
pub record FailureOptions : Type 0 where
  pub encode_common_attributes : Bool
  pub to_payloads : List Value → Result Exc (List Payload)
  pub from_payloads : List Payload → (type_hints : Option (List String)) → Result Exc (List Value)

-- `[0]`
abbrev pub index_error : Exc
index_error =
    other ("IndexError" ∷ "LookupError" ∷ "Exception" ∷ "BaseException" ∷ [])
      "list index out of range" "" no_cause no_cause

abbrev pub first_of : {A : Type 0} → List A → Result Exc A
first_of [] = err index_error
first_of (x ∷ xs) = ok x

-- `if details: … .CopyFrom(to_payloads_wrapper(details))`
abbrev pub details_to : FailureOptions → List Value → Result Exc (List Payload)
details_to o [] = ok []
details_to o (v ∷ vs) = o.to_payloads (v ∷ vs)

-- `from_payloads_wrapper`
abbrev pub details_from : FailureOptions → List Payload → Result Exc (List Value)
details_from o [] = ok []
details_from o (p ∷ ps) = o.from_payloads (p ∷ ps) none

abbrev pub text_or_empty : Option String → String
text_or_empty none = ""
text_or_empty (some t) = t

-- the specific subclass values of `_error_to_failure`
unfoldable pub kind_to_info : FailureOptions → FailureKind → Result Exc FailureInfo
kind_to_info o (application_error details type non_retryable) = do
  payloads ← details_to o details
  ok (FailureInfo.application (text_or_empty type) non_retryable payloads)
kind_to_info o (timeout_error type details) = do
  payloads ← details_to o details
  ok (FailureInfo.timeout (timeout_type_number type) payloads)
kind_to_info o (cancelled_error details) = do
  payloads ← details_to o details
  ok (FailureInfo.canceled payloads)
kind_to_info o (terminated_error details) = ok FailureInfo.terminated
kind_to_info o (server_error non_retryable) = ok (FailureInfo.server non_retryable)
kind_to_info o (activity_error i) = ok (
    FailureInfo.activity (record {
      scheduled_event_id = i.scheduled_event_id;
      started_event_id = i.started_event_id;
      identity = i.identity;
      activity_type = i.activity_type;
      activity_id = i.activity_id;
      retry_state = retry_state_number i.retry_state;
    }))
kind_to_info o (child_workflow_error i) = ok (
    FailureInfo.child_workflow (record {
      namespace = i.namespace;
      workflow_id = i.workflow_id;
      run_id = i.run_id;
      workflow_type = i.workflow_type;
      initiated_event_id = i.initiated_event_id;
      started_event_id = i.started_event_id;
      retry_state = retry_state_number i.retry_state;
    }))
kind_to_info o plain = ok FailureInfo.unset
kind_to_info o (workflow_already_started_error workflow_id workflow_type run_id) =
    ok FailureInfo.unset

abbrev pub common_attributes : (message stack_trace : String) → Value
common_attributes message stack_trace =
    dict (field "message" (Value.text message) (field "stack_trace" (Value.text stack_trace) end))

-- the end of `to_failure`
abbrev pub encode_attributes : FailureOptions → Failure → Result Exc Failure
encode_attributes o (failure message stack_trace encoded info cause) = do
  payloads ← o.to_payloads (common_attributes message stack_trace ∷ [])
  payload ← first_of payloads
  ok (failure "Encoded failure" "" (some payload) info cause)

abbrev pub with_attributes : FailureOptions → Failure → Result Exc Failure
with_attributes o f = if o.encode_common_attributes then encode_attributes o f else ok f

-- the message, the stack trace and the cause are filled in before the subclass's values
abbrev pub new_failure :
    FailureOptions
    → FailureKind
    → (message stack_trace : String) → Result Exc FailureCause
    → Result Exc Failure
new_failure o kind message stack_trace cause = do
  c ← cause
  info ← kind_to_info o kind
  with_attributes o (failure message stack_trace none info c)

-- `ApplicationError(str(exception), type=exception.__class__.__name__)`
abbrev pub as_application_error : (class_name : String) → FailureKind
as_application_error class_name = application_error [] (some class_name) false

abbrev pub class_name : List String → String
class_name [] = ""
class_name (name ∷ names) = name

-- `if error.__cause__: … elif not error.__suppress_context__ and error.__context__: …`
abbrev pub cause_or_context {ℓ} : {A : Type ℓ} → Cause → A → A → A
cause_or_context no_cause from_cause from_context = from_context
cause_or_context (caused_by e) from_cause from_context = from_cause

unfoldable mutual
  -- `to_failure` with `_error_to_failure`. An error with an underlying failure is that failure; any other exception
  -- becomes an application error with its `__cause__`, and without its `__context__`.
  pub to_failure : FailureOptions → Exc → Result Exc Failure
  to_failure o (failure_error kind message (some known) trace cause context) =
      with_attributes o known
  to_failure o (failure_error kind message none trace cause context) =
      new_failure o kind message trace
        (cause_or_context cause (cause_to_failure o cause) (cause_to_failure o context))
  to_failure o (other names text trace cause context) =
      new_failure o (as_application_error (class_name names)) text trace (cause_to_failure o cause)
  to_failure o (asyncio_cancelled text) =
      new_failure o (as_application_error "CancelledError") text "" (ok FailureCause.no_cause)
  to_failure o (continue_as_new args) =
      new_failure o (as_application_error "_ContinueAsNewError") "Continue as new" ""
        (ok FailureCause.no_cause)
  to_failure o (read_only_context text) =
      new_failure o (as_application_error "ReadOnlyContextError") text "" (ok FailureCause.no_cause)
  to_failure o (being_evicted text) =
      new_failure o (as_application_error "_WorkflowBeingEvictedError") text ""
        (ok FailureCause.no_cause)

  pub cause_to_failure : FailureOptions → Cause → Result Exc FailureCause
  cause_to_failure o no_cause = ok FailureCause.no_cause
  cause_to_failure o (caused_by e) = to_failure o e >>= λ f. ok (FailureCause.caused_by f)

-- What `encoded_attributes` says of the message and the stack trace, where it is a dict with text for them. All
-- exceptions of the extraction are passed over.
abbrev pub text_value : Value → Option String
text_value (Value.text t) = some t
text_value _ = none

abbrev pub field_text : String → Fields → Option String
field_text name end = none
field_text name (field key value rest) =
    if key == name then text_value value else field_text name rest

abbrev pub attribute : String → Result Exc (List Value) → Option String
attribute name (ok (dict fields ∷ rest)) = field_text name fields
attribute name _ = none

abbrev pub text_or : Option String → String → String
text_or none t = t
text_or (some u) t = u

abbrev pub decode_attributes : FailureOptions → Failure → Failure
decode_attributes o (failure message stack_trace none info cause) =
    failure message stack_trace none info cause
decode_attributes o (failure message stack_trace (some payload) info cause) =
    let decoded = o.from_payloads (payload ∷ []) none in
    failure (text_or (attribute "message" decoded) message)
      (text_or (attribute "stack_trace" decoded) stack_trace) (some payload) info cause

-- `failure.message or default`
abbrev pub message_or : String → String → String
message_or message default = if message == "" then default else message

abbrev pub text_if_any : String → Option String
text_if_any t = if t == "" then none else some t

abbrev pub default_message : FailureInfo → String
default_message FailureInfo.unset = "Failure error"
default_message (FailureInfo.application type non_retryable details) = "Application error"
default_message (FailureInfo.timeout type details) = "Timeout"
default_message (FailureInfo.canceled details) = "Cancelled"
default_message (FailureInfo.reset_workflow details) = "Failure error"
default_message FailureInfo.terminated = "Terminated"
default_message (FailureInfo.server non_retryable) = "Server error"
default_message (FailureInfo.activity i) = "Activity error"
default_message (FailureInfo.child_workflow i) = "Child workflow error"

-- the branches of `from_failure`
unfoldable pub kind_from_info : FailureOptions → FailureInfo → Result Exc FailureKind
kind_from_info o (FailureInfo.application type non_retryable payloads) = do
  details ← details_from o payloads
  ok (application_error details (text_if_any type) non_retryable)
kind_from_info o (FailureInfo.timeout type payloads) = do
  t ← timeout_type type
  details ← details_from o payloads
  ok (timeout_error t details)
kind_from_info o (FailureInfo.canceled payloads) = do
  details ← details_from o payloads
  ok (cancelled_error details)
kind_from_info o FailureInfo.terminated = ok (terminated_error [])
kind_from_info o (FailureInfo.server non_retryable) = ok (server_error non_retryable)
kind_from_info o (FailureInfo.activity i) = do
  state ← retry_state i.retry_state
  ok (
      activity_error (record {
        scheduled_event_id = i.scheduled_event_id;
        started_event_id = i.started_event_id;
        identity = i.identity;
        activity_type = i.activity_type;
        activity_id = i.activity_id;
        retry_state = state;
      }))
kind_from_info o (FailureInfo.child_workflow i) = do
  state ← retry_state i.retry_state
  ok (
      child_workflow_error (record {
        namespace = i.namespace;
        workflow_id = i.workflow_id;
        run_id = i.run_id;
        workflow_type = i.workflow_type;
        initiated_event_id = i.initiated_event_id;
        started_event_id = i.started_event_id;
        retry_state = state;
      }))
kind_from_info o FailureInfo.unset = ok plain
kind_from_info o (FailureInfo.reset_workflow payloads) = ok plain

-- the error of a failure whose attributes are decoded; the cause is converted last
abbrev pub as_error : FailureOptions → Failure → Result Exc Cause → Result Exc Exc
as_error o (failure message stack_trace encoded info cause) converted = do
  kind ← kind_from_info o info
  c ← converted
  ok (
      failure_error kind (message_or message (default_message info))
        (some (failure message stack_trace encoded info cause)) "" c no_cause)

unfoldable mutual
  pub from_failure : FailureOptions → Failure → Result Exc Exc
  from_failure o (failure message stack_trace encoded info cause) =
      as_error o (decode_attributes o (failure message stack_trace encoded info cause))
        (from_cause o cause)

  pub from_cause : FailureOptions → FailureCause → Result Exc Cause
  from_cause o FailureCause.no_cause = ok no_cause
  from_cause o (FailureCause.caused_by f) = from_failure o f >>= λ e. ok (caused_by e)
