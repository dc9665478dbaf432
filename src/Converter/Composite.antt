-- ===== src/Converter/Composite.antt =====
-- temporalio/converter.py: `CompositePayloadConverter` and `DefaultPayloadConverter`.
pub mod RoundTrip
pub mod Defaults
pub mod Lengths
use text.Mathlib.TextPositions.{eq_refl}
use temporalio_sdk_python.Common.{
  ℕ, suc, ◌+◌, ◌-◌, ◌≤◌, ◌<◌, Bool, true, false, not, ◌&&◌, ◌||◌, Option, none, some, List, [], ◌∷◌,
  ◌++◌, map, String, ◌≡◌, ◌≢◌, refl, sym, ap, subst, ◌∙◌, ◌⊎◌, inl, inr, string_eq, ℕ_eq, option_eq,
  arith, if◌then◌else◌, ◌==◌, contains, keep, or_else, is_some, Bool-cases, Option-cases, length,
  leb, ltb, eqb, keep-append, contains-append, length-append,
}
use temporalio_sdk_python.Common.Dict.{Dict, get, put, remove, has, get-put, get-remove, dict_laws}
use temporalio_sdk_python.Common.Result.{
  Result, ok, err, ◌>>=◌, ◌>>◌, raise_if, ok_of_bind, Result-cases,
}
use temporalio_sdk_python.Payload.{Payload, Value, null, raw_value, proto, seq, values}
use temporalio_sdk_python.Exceptions.{
  Exc, other, failure_error, isinstance, classes, is_failure_error,
}
use temporalio_sdk_python.Exceptions.{Cause, no_cause, caused_by}
use temporalio_sdk_python.Converter.Encoding.{
  EncodingPayloadConverter, Libraries, runtime_error, except_raise, binary_null, binary_plain,
  json_proto, binary_proto, json_plain,
}

-- `{c.encoding.encode(): c for c in converters}`
abbrev by_encoding :
    Dict String EncodingPayloadConverter
    → List EncodingPayloadConverter
    → Dict String EncodingPayloadConverter
by_encoding table [] = table
by_encoding table (c ∷ cs) = by_encoding (put table c.encoding c) cs

unfoldable pub new_composite : List EncodingPayloadConverter → Dict String EncodingPayloadConverter
unfolding put
new_composite converters = by_encoding [] converters

-- `for converter in self.converters.values(): …`: the first that does not decline
unfoldable pub first_payload :
    Dict String EncodingPayloadConverter → Value → Result Exc (Option Payload)
first_payload [] value = ok none
first_payload ((name, c) ∷ table) value =
    let rest = first_payload table value in
    c.to_payload value >>= λ p. elim p [ none ↦ rest | some payload ↦ ok (some payload) ]

-- RawValue passes through.
abbrev pub one_payload : Dict String EncodingPayloadConverter → Value → Result Exc (Option Payload)
one_payload table (raw_value payload) = ok (some payload)
one_payload table value = first_payload table value

abbrev pub known_payload : Option Payload → Result Exc Payload
known_payload none = err (runtime_error "Value has no known converter" no_cause)
known_payload (some payload) = ok payload

unfoldable pub to_payloads :
    Dict String EncodingPayloadConverter → List Value → Result Exc (List Payload)
unfolding first_payload
to_payloads table [] = ok []
to_payloads table (value ∷ values) = do
  found ← one_payload table value
  payload ← known_payload found
  payloads ← to_payloads table values
  ok (payload ∷ payloads)

-- The hint of the first payload, and the hints of the rest.
abbrev pub first_hint : Option (List String) → Option String
first_hint (some (hint ∷ hints)) = some hint
first_hint _ = none

abbrev pub rest_hints : Option (List String) → Option (List String)
rest_hints (some (hint ∷ hints)) = some hints
rest_hints _ = none

abbrev pub encoding_of : Payload → String
encoding_of payload = elim (get payload.metadata "encoding") [
  | none ↦ "<unknown>"
  | some name ↦ name
]

abbrev pub decode_with :
    Payload → Option String → Option EncodingPayloadConverter → Result Exc Value
decode_with payload hint none = err (
    other ("KeyError" ∷ "LookupError" ∷ "Exception" ∷ "BaseException" ∷ [])
      "Unknown payload encoding" "" no_cause no_cause)
decode_with payload hint (some c) =
    except_raise "RuntimeError" "Payload could not be converted" (c.from_payload payload hint)

abbrev pub raw_hint : String
raw_hint = "temporalio.common.RawValue"

unfoldable pub one_value :
    Dict String EncodingPayloadConverter → Option String → Payload → Result Exc Value
unfolding get
one_value table hint payload =
    if hint == some raw_hint
    then ok (raw_value payload)
    else decode_with payload hint (get table (encoding_of payload))

unfoldable pub from_payloads :
    Dict String EncodingPayloadConverter
    → List Payload
    → Option (List String)
    → Result Exc (List Value)
unfolding one_value
from_payloads table [] hints = ok []
from_payloads table (payload ∷ payloads) hints = do
  value ← one_value table (first_hint hints) payload
  values ← from_payloads table payloads (rest_hints hints)
  ok (value ∷ values)

-- `DefaultPayloadConverter`
abbrev pub default_encodings : Libraries → List EncodingPayloadConverter
default_encodings lib =
    binary_null ∷ binary_plain ∷ json_proto lib ∷ binary_proto lib ∷ json_plain lib ∷ []
