-- ===== src/Converter/DataConverter/Crossing.antt =====
-- What crosses the wire with the default converters and a codec.
use temporalio_sdk_python.Common.{
  Bool, false, Option, none, some, List, [], ◌∷◌, String, ◌≡◌, refl, ap, ◌∙◌,
}
use temporalio_sdk_python.Common.Result.{ok, ◌>>=◌, ok_of_bind}
use temporalio_sdk_python.Payload.{Payload, Value}
use temporalio_sdk_python.Exceptions.{Exc, Failure}
use temporalio_sdk_python.Converter.Encoding.{Libraries}
use temporalio_sdk_python.Converter.Composite.{
  new_composite, to_payloads, from_payloads, default_encodings,
}
use temporalio_sdk_python.Converter.Composite.RoundTrip.{is_raw, AllPlain}
use temporalio_sdk_python.Converter.Composite.Defaults.{
  ReadsBack, default-from_payloads-to_payloads,
}
use temporalio_sdk_python.Converter.Composite.Lengths.{length-to_payloads_ok}
use temporalio_sdk_python.Converter.Failures.{common_attributes, to_failure, from_failure}
use temporalio_sdk_python.Converter.Failures.Sent.{All, chain, IsFresh, Sendable}
use temporalio_sdk_python.Converter.Failures.RoundTrip.{from_failure-to_failure}
use temporalio_sdk_python.Converter.Failures.Sent
use temporalio_sdk_python.Converter.DataConverter.{
  PayloadCodec, default_options, new_data_converter, apply_to_failure_payloads, encode, decode,
  encode_failure, decode_failure,
}
use temporalio_sdk_python.Converter.DataConverter.Codec.{Decodes, failure-back}

-- No codec, or one that decodes what it encodes.
abbrev pub CodecDecodes : Option PayloadCodec → Type 0
CodecDecodes none = Unit {0}
CodecDecodes (some codec) = Decodes codec

-- A value that `P` allows and that is not raw.
abbrev pub Plain : (Value → Type 0) → Value → Type 0
Plain P v = P v × (is_raw v ≡ false)

AllPlain-All : (P : Value → Type 0) (vs : List Value) → All (Plain P) vs → AllPlain P vs
AllPlain-All P [] a = tt
AllPlain-All P (v ∷ vs) a = (a.0, AllPlain-All P vs a.1)

default_options-ReadsBack :
    (P : Value → Type 0) (lib : Libraries) (b : Bool)
    → ReadsBack P lib
    → ((message stack_trace : String) → P (common_attributes message stack_trace))
    → Sent.ReadsBack (Plain P) (default_options lib b)
default_options-ReadsBack P lib b laws a = record {
  payloads = λ vs ps p h. (
    length-to_payloads_ok (new_composite (default_encodings lib)) vs ps h,
    default-from_payloads-to_payloads P lib vs ps laws (AllPlain-All P vs p) h,
  );
  attributes = λ m s. (a m s, refl);
}

-- A data converter decodes what it encodes: with the default converters and a codec or none, None, bytes, the messages
-- whose JSON text is parsed to them, and the other values that JSON reads back, in any mixture, are the same after
-- `encode` and `decode` without hints, if the codec decodes what it encodes. No value is raw.
pub decode-encode :
    (P : Value → Type 0) (lib : Libraries) (b : Bool) (codec : Option PayloadCodec)
    (vals : List Value) (ps : List Payload)
    → ReadsBack P lib
    → CodecDecodes codec
    → All (Plain P) vals
    → encode (new_data_converter lib b codec) vals ≡ ok ps
    → decode (new_data_converter lib b codec) ps none ≡ ok vals
unfolding encode decode
decode-encode P lib b none vals ps laws c a h =
    let (qs, e, k) =
      ok_of_bind (to_payloads (new_composite (default_encodings lib)) vals) (λ qs. ok qs) h in
    default-from_payloads-to_payloads P lib vals ps laws (AllPlain-All P vals a) (e ∙ k)
decode-encode P lib b (some codec) vals ps laws c a h =
    let (qs, e, k) =
      ok_of_bind (to_payloads (new_composite (default_encodings lib)) vals) codec.encode h in
    ap (λ r. r >>= λ x. from_payloads (new_composite (default_encodings lib)) x none)
      (c.back qs ps k)
    ∙ default-from_payloads-to_payloads P lib vals qs laws (AllPlain-All P vals a) e

-- An exception that one side encodes and the other decodes arrives, through the default converters and a codec or none:
-- if the failure was made, it is decoded, and the exception and the chain of what led to it have the kinds, with all their
-- attributes, and the messages that were sent, whether or not the common attributes are encoded. The conditions: the
-- libraries read back the details, none of which is raw, and the dicts of common attributes, the codec decodes what it encodes, no message is
-- empty, no application error has an empty type, and no error of the chain was itself made from a failure, is a terminated
-- error with details or says that a workflow was already started.
pub decode_failure-encode_failure :
    (P : Value → Type 0) (lib : Libraries) (b : Bool) (codec : Option PayloadCodec) (e : Exc)
    (f : Failure)
    → ReadsBack P lib
    → ((message stack_trace : String) → P (common_attributes message stack_trace))
    → CodecDecodes codec
    → IsFresh e
    → All (Sendable (Plain P)) (chain e)
    → encode_failure (new_data_converter lib b codec) e ≡ ok f
    → (e' : Exc) × (decode_failure (new_data_converter lib b codec) f ≡ ok e')
      × (chain e' ≡ chain e)
unfolding encode_failure decode_failure
decode_failure-encode_failure P lib b none e f laws a c n s h =
    let (g, i, k) = ok_of_bind (to_failure (default_options lib b) e) (λ g. ok g) h in
    from_failure-to_failure (Plain P) (default_options lib b) e f
      (default_options-ReadsBack P lib b laws a) n s (i ∙ k)
decode_failure-encode_failure P lib b (some codec) e f laws a c n s h =
    let (g, i, k) =
      ok_of_bind (to_failure (default_options lib b) e) (apply_to_failure_payloads codec.encode)
        h in
    let (e', x, y) =
      from_failure-to_failure (Plain P) (default_options lib b) e g
        (default_options-ReadsBack P lib b laws a) n s i in
    (
      e',
      ap (λ r. r >>= λ z. from_failure (default_options lib b) z) (failure-back codec c g f k) ∙ x,
      y,
    )
