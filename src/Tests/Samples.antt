-- ===== src/Tests/Samples.antt =====
-- Concrete converters and jobs that the tests share.
use temporalio_sdk_python.Common.{none, List, [], ◌∷◌, String}
use temporalio_sdk_python.Common.Result.{ok, err}
use temporalio_sdk_python.Payload.{Payload, Value, raw_value, null}
use temporalio_sdk_python.Exceptions.{
  Exc, Failure, FailureInfo, FailureCause, other, no_cause, failure,
}
use temporalio_sdk_python.Instance.State.{SignalWorkflow}
use temporalio_sdk_python.Instance.Updates.{HandlerCode}
use temporalio_sdk_python.Instance.Handlers.{Converters}

abbrev pub empty_payload : Payload
empty_payload = record { metadata = []; bytes = "" }

abbrev one_each : List Value → List Payload
one_each [] = []
one_each (v ∷ vs) = empty_payload ∷ one_each vs

abbrev raw_each : List Payload → List Value
raw_each [] = []
raw_each (p ∷ ps) = raw_value p ∷ raw_each ps

abbrev pub bare_failure : Failure
bare_failure = failure "failed" "" none FailureInfo.unset FailureCause.no_cause

abbrev pub sample_error : Exc
sample_error = other ("ValueError" ∷ "Exception" ∷ "BaseException" ∷ []) "bad" "" no_cause no_cause

-- Converters that never raise.
abbrev pub total_converters : Converters
total_converters = record {
  to_payloads = λ vs. ok (one_each vs);
  from_payloads = λ ps ts. ok (raw_each ps);
  to_failure = λ e. ok bare_failure;
  from_failure = λ f. ok sample_error;
}

-- Converters that encode nothing.
abbrev pub failing_converters : Converters
failing_converters = record total_converters { to_payloads = λ vs. err sample_error }

abbrev pub signal : String → SignalWorkflow
signal name = record { signal_name = name; input = empty_payload ∷ []; headers = [] }

-- Handlers that return nothing and do nothing.
abbrev pub quiet_code : HandlerCode
quiet_code = record {
  validate = λ n args s. (ok tt, s);
  handle_update = λ n args s. (ok null, s);
  handle_query = λ n args s. (ok null, s);
}
