-- ===== src/Tests/DataConverterTests.antt =====
-- The theorems on data converters at a codec that marks payloads in their metadata.
use temporalio_sdk_python.Common.{
  true, false, none, some, List, [], ◌∷◌, map, ◌≡◌, refl, ap, string_eq, ℕ_eq, option_eq, length,
  suc, arith,
}
use temporalio_sdk_python.Common.Dict.{put}
use temporalio_sdk_python.Common.Result.{ok}
use temporalio_sdk_python.Payload.{Payload}
use temporalio_sdk_python.Exceptions.{Exc, Failure, FailureInfo, FailureCause, failure}
use temporalio_sdk_python.Converter.Composite.{new_composite, first_payload, to_payloads}
use temporalio_sdk_python.Converter.Failures.{to_failure, kind_to_info, cause_to_failure}
use temporalio_sdk_python.Converter.Failures.Sent.{All, Sendable, chain, cause_chain}
use temporalio_sdk_python.Converter.DataConverter.{
  PayloadCodec, new_data_converter, encode, decode, encode_failure, decode_failure,
  apply_to_failure_payloads, apply_to_cause,
}
use temporalio_sdk_python.Converter.DataConverter.Codec.{Decodes}
use temporalio_sdk_python.Converter.DataConverter.Crossing.{
  Plain, decode-encode, decode_failure-encode_failure,
}
use temporalio_sdk_python.Tests.ConverterTests.{
  libraries, Known, libraries-ReadsBack, sample, encoded,
}
use temporalio_sdk_python.Tests.FailureTests.{error, error-IsFresh}

abbrev mark : Payload → Payload
mark p = record p { metadata = ("codec", "marked") ∷ p.metadata }

abbrev unmark : Payload → Payload
unmark p = elim p.metadata [ [] ↦ p | m ∷ ms ↦ record p { metadata = ms } ]

abbrev marking : PayloadCodec
marking = record { encode = λ ps. ok (map mark ps); decode = λ ps. ok (map unmark ps) }

unmark-mark : (ps : List Payload) → map unmark (map mark ps) ≡ ps
unmark-mark [] = refl
unmark-mark (p ∷ ps) = ap (λ qs. p ∷ qs) (unmark-mark ps)

length-mark : (ps : List Payload) → length (map mark ps) ≡ length ps
length-mark [] = refl
length-mark (p ∷ ps) = ap suc (length-mark ps)

marking-Decodes : Decodes marking
marking-Decodes = record {
  back = λ ps qs h. let e : map mark ps ≡ qs = cc h in rw (← e) (ap ok (unmark-mark ps));
  some_left = λ p ps qs h. let e : map mark (p ∷ ps) ≡ qs = cc h in rw (← e) (omega arith);
  no_more = λ ps qs h.
      let e : map mark ps ≡ qs = cc h in let n = length-mark ps in rw (← e) (omega (arith, n));
}

encode-sample :
    encode (new_data_converter libraries false (some marking)) sample ≡ ok (map mark encoded)
unfolding encode to_payloads new_composite first_payload put
encode-sample = refl

decode-encode_example :
    decode (new_data_converter libraries false (some marking)) (map mark encoded) none ≡ ok sample
decode-encode_example =
    decode-encode Known libraries false (some marking) sample (map mark encoded) libraries-ReadsBack
      marking-Decodes ((tt, refl), ((tt, refl), ((tt, refl), ((refl, refl), tt)))) encode-sample

abbrev error_sent : Failure
error_sent =
    failure "denied" "line 1" none
      (FailureInfo.application "Denied" true (
        record { metadata = ("codec", "marked") ∷ ("encoding", "json/plain") ∷ []; bytes = "d" }
        ∷ []))
      (FailureCause.caused_by (
        failure "bad" "line 2" none (FailureInfo.application "ValueError" false [])
          FailureCause.no_cause))

encode_failure-error :
    encode_failure (new_data_converter libraries false (some marking)) error ≡ ok error_sent
unfolding encode_failure to_failure cause_to_failure kind_to_info apply_to_failure_payloads
    apply_to_cause to_payloads new_composite first_payload put
encode_failure-error = refl

error-Sendable : All (Sendable (Plain Known)) (chain error)
unfolding chain cause_chain
error-Sendable = (((((tt, refl), tt), refl), refl), (((tt, refl), refl), tt))

decode_failure-encode_failure_example :
    (e : Exc) × (decode_failure (new_data_converter libraries false (some marking)) error_sent
      ≡ ok e)
    × (chain e ≡ chain error)
decode_failure-encode_failure_example =
    decode_failure-encode_failure Known libraries false (some marking) error error_sent
      libraries-ReadsBack (λ m s. tt) marking-Decodes error-IsFresh error-Sendable
      encode_failure-error
