-- ===== src/Converter/DataConverter.antt =====
-- temporalio/converter.py: `PayloadCodec` and `DataConverter`.
pub mod Codec
pub mod Crossing
use temporalio_sdk_python.Common.{Bool, Option, none, some, List, [], ◌∷◌, String}
use temporalio_sdk_python.Common.Result.{Result, ok, err, ◌>>=◌}
use temporalio_sdk_python.Payload.{Payload, Value}
use temporalio_sdk_python.Exceptions.{Exc, Failure, FailureInfo, FailureCause, failure}
use temporalio_sdk_python.Converter.Encoding.{Libraries}
use temporalio_sdk_python.Converter.Composite.{
  new_composite, to_payloads, from_payloads, default_encodings,
}
use temporalio_sdk_python.Converter.Failures.{FailureOptions, first_of, to_failure, from_failure}

-- `PayloadCodec`: the user's `encode` and `decode`
pub record PayloadCodec : Type 0 where
  pub encode : List Payload → Result Exc (List Payload)
  pub decode : List Payload → Result Exc (List Payload)

abbrev pub Callback : Type 0
Callback = List Payload → Result Exc (List Payload)

-- a field of payloads, which is not set if it is empty
abbrev pub apply_to_details : Callback → List Payload → Result Exc (List Payload)
apply_to_details cb [] = ok []
apply_to_details cb (p ∷ ps) = cb (p ∷ ps)

abbrev pub apply_to_attributes : Callback → Option Payload → Result Exc (Option Payload)
apply_to_attributes cb none = ok none
apply_to_attributes cb (some p) = do payloads ← cb (p ∷ []); q ← first_of payloads; ok (some q)

abbrev pub apply_to_info : Callback → FailureInfo → Result Exc FailureInfo
apply_to_info cb (FailureInfo.application type non_retryable details) =
    apply_to_details cb details >>= λ ps. ok (FailureInfo.application type non_retryable ps)
apply_to_info cb (FailureInfo.timeout type details) =
    apply_to_details cb details >>= λ ps. ok (FailureInfo.timeout type ps)
apply_to_info cb (FailureInfo.canceled details) =
    apply_to_details cb details >>= λ ps. ok (FailureInfo.canceled ps)
apply_to_info cb (FailureInfo.reset_workflow details) =
    apply_to_details cb details >>= λ ps. ok (FailureInfo.reset_workflow ps)
apply_to_info cb info = ok info

unfoldable mutual
  -- `_apply_to_failure_payloads`
  pub apply_to_failure_payloads : Callback → Failure → Result Exc Failure
  apply_to_failure_payloads cb (failure message stack_trace encoded info cause) = do
    attributes ← apply_to_attributes cb encoded
    i ← apply_to_info cb info
    c ← apply_to_cause cb cause
    ok (failure message stack_trace attributes i c)

  pub apply_to_cause : Callback → FailureCause → Result Exc FailureCause
  apply_to_cause cb FailureCause.no_cause = ok FailureCause.no_cause
  apply_to_cause cb (FailureCause.caused_by f) =
      apply_to_failure_payloads cb f >>= λ g. ok (FailureCause.caused_by g)

-- `DataConverter`: its payload converter, the options of its failure converter, and its codec
pub record DataConverter : Type 0 where
  pub options : FailureOptions
  pub payload_codec : Option PayloadCodec

-- `DataConverter()` with the default converters
abbrev pub default_options : Libraries → (encode_common_attributes : Bool) → FailureOptions
default_options lib b = record {
  encode_common_attributes = b;
  to_payloads = to_payloads (new_composite (default_encodings lib));
  from_payloads = from_payloads (new_composite (default_encodings lib));
}

abbrev pub new_data_converter :
    Libraries → (encode_common_attributes : Bool) → Option PayloadCodec → DataConverter
new_data_converter lib b codec = record { options = default_options lib b; payload_codec = codec }

-- `encode` and `decode`
unfoldable pub encode : DataConverter → List Value → Result Exc (List Payload)
encode dc vals = dc.options.to_payloads vals >>= λ ps. elim dc.payload_codec [
  | none ↦ ok ps
  | some codec ↦ codec.encode ps
]

unfoldable pub decode :
    DataConverter → List Payload → (type_hints : Option (List String)) → Result Exc (List Value)
decode dc payloads hints =
    (elim dc.payload_codec [ none ↦ ok payloads | some codec ↦ codec.decode payloads ]) >>= λ ps.
    dc.options.from_payloads ps hints

unfoldable pub encode_failure : DataConverter → Exc → Result Exc Failure
unfolding to_failure apply_to_failure_payloads
encode_failure dc e = to_failure dc.options e >>= λ f. elim dc.payload_codec [
  | none ↦ ok f
  | some codec ↦ apply_to_failure_payloads codec.encode f
]

unfoldable pub decode_failure : DataConverter → Failure → Result Exc Exc
unfolding from_failure apply_to_failure_payloads
decode_failure dc f =
    (elim dc.payload_codec [ none ↦ ok f | some codec ↦ apply_to_failure_payloads codec.decode f ])
    >>= λ g. from_failure dc.options g
