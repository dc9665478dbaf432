-- ===== src/Converter/Failures/Chains.antt =====
-- What becomes of failures that were received, and of the context of exceptions.
use temporalio_sdk_python.Common.{
  false, none, some, List, String, ◌≡◌, refl, string_eq, ℕ_eq, option_eq,
}
use temporalio_sdk_python.Common.Result.{ok, ◌>>=◌, ok_of_bind}
use temporalio_sdk_python.Exceptions.{Exc, other, failure_error}
use temporalio_sdk_python.Exceptions.{
  no_cause, caused_by, Failure, FailureCause, failure, FailureKind,
}
use temporalio_sdk_python.Converter.Failures.{
  FailureOptions, kind_to_info, to_failure, cause_to_failure, message_or, default_message,
  kind_from_info, from_failure, from_cause,
}

abbrev pub HasNoAttributes : Failure → Type 0
HasNoAttributes (failure message stack_trace encoded info cause) = encoded ≡ none

-- A failure that was received and is sent on, as a workflow does with the failure of an activity, is sent as it was
-- received, message, stack trace, details and all causes, where common attributes are not encoded.
pub to_failure-from_failure :
    (o : FailureOptions) (f : Failure) (e : Exc)
    → o.encode_common_attributes ≡ false
    → HasNoAttributes f
    → from_failure o f ≡ ok e
    → to_failure o e ≡ ok f
unfolding from_failure to_failure
to_failure-from_failure o (failure message trace (some p) info cause) e n a h = cc a
to_failure-from_failure o (failure message trace none info cause) e n a h =
    let f = failure message trace none info cause in
    let (kind, g, k) =
      ok_of_bind (kind_from_info o info)
        (λ kind. from_cause o cause >>= λ c.
          ok
            (failure_error kind (message_or message (default_message info)) (some f) "" c no_cause))
        h in
    let (c, i, j) =
      ok_of_bind (from_cause o cause)
        (λ c.
          ok
            (failure_error kind (message_or message (default_message info)) (some f) "" c no_cause))
        k in
    let l : e
        ≡ failure_error kind (message_or message (default_message info)) (some f) "" c no_cause =
      cc j in
    rw l (rw n refl)

-- While an exception of the SDK has the exception during whose handling it was raised as its cause, every other exception
-- loses it: an exception of another class is sent as if it had no context.
pub context_lost :
    (o : FailureOptions) (names : List String) (kind : FailureKind) (text trace : String) (x : Exc)
    (f : Failure)
    → o.encode_common_attributes ≡ false
    → to_failure o x ≡ ok f
    → (to_failure o (other names text trace no_cause (caused_by x))
        ≡ to_failure o (other names text trace no_cause no_cause))
      × (to_failure o (failure_error kind text none trace no_cause (caused_by x)) ≡ (
          kind_to_info o kind >>= λ info.
          ok (failure text trace none info (FailureCause.caused_by f))))
unfolding to_failure cause_to_failure
context_lost o names kind text trace x f n h = (refl, rw (h, n) refl)
