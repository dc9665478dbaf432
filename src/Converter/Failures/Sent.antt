-- ===== src/Converter/Failures/Sent.antt =====
-- What is sent of an exception, and when it can be.
use temporalio_sdk_python.Common.{
  false, none, List, [], ◌∷◌, String, ◌≡◌, string_eq, ℕ_eq, option_eq, ◌==◌, length,
}
use temporalio_sdk_python.Common.Result.{ok}
use temporalio_sdk_python.Payload.{Payload, Value}
use temporalio_sdk_python.Exceptions.{Exc, other, failure_error}
use temporalio_sdk_python.Exceptions.{
  Cause, no_cause, caused_by, FailureKind, application_error, cancelled_error, terminated_error,
  timeout_error, workflow_already_started_error, asyncio_cancelled, continue_as_new,
  read_only_context, being_evicted,
}
use temporalio_sdk_python.Converter.Failures.{
  FailureOptions, common_attributes, as_application_error, class_name, cause_or_context,
  text_or_empty, text_if_any,
}

abbrev pub All : {A : Type 0} → (A → Type 0) → List A → Type 0
All P [] = Unit {0}
All P (x ∷ xs) = P x × All P xs

-- A payload converter that reads back the values that `P` allows, one payload for each.
pub record ReadsBack (P : Value → Type 0) (o : FailureOptions) : Type 0 where
  pub payloads :
      (vs : List Value) (ps : List Payload)
      → All P vs
      → o.to_payloads vs ≡ ok ps
      → (length ps ≡ length vs) × (o.from_payloads ps none ≡ ok vs)
  pub attributes : (message stack_trace : String) → P (common_attributes message stack_trace)

-- An exception and what led to it, each as the kind of failure and the message that it has as a failure.
unfoldable mutual
  pub chain : Exc → List (FailureKind × String)
  chain (failure_error kind message received trace cause context) =
      (kind, message) ∷ cause_or_context cause (cause_chain cause) (cause_chain context)
  chain (other names text trace cause context) =
      (as_application_error (class_name names), text) ∷ cause_chain cause
  chain (asyncio_cancelled text) = (as_application_error "CancelledError", text) ∷ []
  chain (continue_as_new args) =
      (as_application_error "_ContinueAsNewError", "Continue as new") ∷ []
  chain (read_only_context text) = (as_application_error "ReadOnlyContextError", text) ∷ []
  chain (being_evicted text) = (as_application_error "_WorkflowBeingEvictedError", text) ∷ []

  pub cause_chain : Cause → List (FailureKind × String)
  cause_chain no_cause = []
  cause_chain (caused_by e) = chain e

-- No error of the chain was made from a failure.
unfoldable mutual
  pub IsFresh : Exc → Type 0
  IsFresh (failure_error kind message received trace cause context) =
      (received ≡ none) × IsFreshCause cause × IsFreshCause context
  IsFresh (other names text trace cause context) = IsFreshCause cause
  IsFresh (asyncio_cancelled text) = Unit {0}
  IsFresh (continue_as_new args) = Unit {0}
  IsFresh (read_only_context text) = Unit {0}
  IsFresh (being_evicted text) = Unit {0}

  pub IsFreshCause : Cause → Type 0
  IsFreshCause no_cause = Unit {0}
  IsFreshCause (caused_by e) = IsFresh e

-- The attributes that a failure has room for.
abbrev pub Fits : (Value → Type 0) → FailureKind → Type 0
Fits P (application_error details type non_retryable) =
    All P details × (text_if_any (text_or_empty type) ≡ type)
Fits P (timeout_error type details) = All P details
Fits P (cancelled_error details) = All P details
Fits P (terminated_error details) = details ≡ []
Fits P (workflow_already_started_error workflow_id workflow_type run_id) = ⊥
Fits P _ = Unit {0}

abbrev pub Sendable : (Value → Type 0) → FailureKind × String → Type 0
Sendable P (kind, message) = Fits P kind × ((message == "") ≡ false)
