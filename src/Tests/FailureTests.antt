-- ===== src/Tests/FailureTests.antt =====
-- The theorems on failures at an application error whose cause is an error of Python.
use temporalio_sdk_python.Common.{
  Bool, true, false, none, some, List, [], ◌∷◌, map, String, ◌≡◌, refl, ap, string_eq, length, ◌⊎◌,
  inl, inr, suc,
}
use temporalio_sdk_python.Common.Result.{ok, ◌>>=◌}
use temporalio_sdk_python.Payload.{Payload, Value, dict, field, end, Fields}
use temporalio_sdk_python.Exceptions.{
  Exc, Failure, FailureInfo, FailureCause, FailureKind, failure_error, failure, other, no_cause,
  caused_by, application_error,
}
use temporalio_sdk_python.Converter.Failures.{
  FailureOptions, common_attributes, to_failure, from_failure, cause_to_failure, from_cause,
  kind_to_info, kind_from_info,
}
use temporalio_sdk_python.Converter.Failures.Sent.{
  All, ReadsBack, chain, cause_chain, IsFresh, IsFreshCause, Sendable,
}
use temporalio_sdk_python.Converter.Failures.RoundTrip.{from_failure-to_failure}
use temporalio_sdk_python.Converter.Failures.Chains.{to_failure-from_failure, context_lost}
use temporalio_sdk_python.Tests.Samples.{bare_failure}

abbrev field_payload : Fields → List (String × String)
field_payload (field name (Value.text t) rest) = (name, t) ∷ field_payload rest
field_payload _ = []

-- Text is kept as bytes, and a dict of text as metadata.
abbrev encode_one : Value → Payload
encode_one (Value.text t) = record { metadata = []; bytes = t }
encode_one (dict fields) = record { metadata = field_payload fields; bytes = "" }
encode_one _ = record { metadata = []; bytes = "" }

abbrev payload_fields : List (String × String) → Fields
payload_fields [] = end
payload_fields ((name, t) ∷ rest) = field name (Value.text t) (payload_fields rest)

abbrev decode_fields : String → List (String × String) → Value
decode_fields t [] = Value.text t
decode_fields t (m ∷ ms) = dict (payload_fields (m ∷ ms))

abbrev decode_one : Payload → Value
decode_one p = decode_fields p.bytes p.metadata

abbrev options : Bool → FailureOptions
options b = record {
  encode_common_attributes = b;
  to_payloads = λ vs. ok (map encode_one vs);
  from_payloads = λ ps ts. ok (map decode_one ps);
}

-- Text, and the attributes that failures have in common.
abbrev Known : Value → Type 0
Known v = ((t : String) × (v ≡ Value.text t)) ⊎ ((m s : String) × (v ≡ common_attributes m s))

decode-encode_one : (v : Value) → Known v → decode_one (encode_one v) ≡ v
decode-encode_one v (inl (t, e)) = rw e refl
decode-encode_one v (inr (m, s, e)) = rw e refl

decode-encode : (vs : List Value) → All Known vs → map decode_one (map encode_one vs) ≡ vs
decode-encode [] a = refl
decode-encode (v ∷ vs) a = rw (decode-encode_one v a.0, decode-encode vs a.1) refl

length-encode : (vs : List Value) → length (map encode_one vs) ≡ length vs
length-encode [] = refl
length-encode (v ∷ vs) = ap suc (length-encode vs)

options-ReadsBack : (b : Bool) → ReadsBack Known (options b)
options-ReadsBack b = record {
  payloads = λ vs ps a h.
      let e : map encode_one vs ≡ ps = cc h in
      rw (← e) (length-encode vs, ap ok (decode-encode vs a));
  attributes = λ m s. inr (m, s, refl);
}

abbrev pub error : Exc
error =
    failure_error (application_error (Value.text "d" ∷ []) (some "Denied") true) "denied" none
      "line 1"
      (caused_by (
        other ("ValueError" ∷ "Exception" ∷ "BaseException" ∷ []) "bad" "line 2" no_cause no_cause))
      no_cause

abbrev encoded_failure : FailureCause → String → String → FailureInfo → Failure
encoded_failure cause message trace info =
    failure "Encoded failure" ""
      (some (record { metadata = ("message", message) ∷ ("stack_trace", trace) ∷ []; bytes = "" }))
      info cause

abbrev error_sent : Failure
error_sent =
    encoded_failure
      (FailureCause.caused_by (
        encoded_failure FailureCause.no_cause "bad" "line 2"
          (FailureInfo.application "ValueError" false [])))
      "denied" "line 1"
      (FailureInfo.application "Denied" true (record { metadata = []; bytes = "d" } ∷ []))

error-sent : to_failure (options true) error ≡ ok error_sent
unfolding to_failure cause_to_failure kind_to_info
error-sent = refl

pub error-IsFresh : IsFresh error
unfolding IsFresh IsFreshCause
error-IsFresh = (refl, tt, tt)

error-Sendable : All (Sendable Known) (chain error)
unfolding chain cause_chain
error-Sendable = ((((inl ("d", refl), tt), refl), refl), (((tt, refl), refl), tt))

from_failure-to_failure_example :
    (e : Exc) × (from_failure (options true) error_sent ≡ ok e) × (chain e ≡ chain error)
from_failure-to_failure_example =
    from_failure-to_failure Known (options true) error error_sent (options-ReadsBack true)
      error-IsFresh error-Sendable error-sent

abbrev received : Failure
received = failure "outer" "trace" none FailureInfo.terminated (FailureCause.caused_by bare_failure)

abbrev received_error : Exc
received_error =
    failure_error (FailureKind.terminated_error []) "outer" (some received) ""
      (caused_by
        (failure_error FailureKind.plain "failed" (some bare_failure) "" no_cause no_cause))
      no_cause

received-read : from_failure (options false) received ≡ ok received_error
unfolding from_failure from_cause kind_from_info
received-read = refl

to_failure-from_failure_example : to_failure (options false) received_error ≡ ok received
to_failure-from_failure_example =
    to_failure-from_failure (options false) received received_error refl refl received-read

context_lost_example :
    (to_failure (options false) (other ("KeyError" ∷ []) "k" "" no_cause (caused_by received_error))
      ≡ to_failure (options false) (other ("KeyError" ∷ []) "k" "" no_cause no_cause))
    × (to_failure
          (options false)
          (failure_error FailureKind.plain "k" none "" no_cause (caused_by received_error))
        ≡ (kind_to_info (options false) FailureKind.plain >>= λ info.
            ok (failure "k" "" none info (FailureCause.caused_by received))))
context_lost_example =
    context_lost (options false) ("KeyError" ∷ []) FailureKind.plain "k" "" received_error received
      refl to_failure-from_failure_example
