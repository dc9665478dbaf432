-- ===== src/Converter/Encoding.antt =====
-- temporalio/converter.py: the encodings of single values.
use temporalio_sdk_python.Common.{
  Option, none, some, [], ◌∷◌, String, string_eq, ℕ_eq, option_eq, if◌then◌else◌, ◌==◌,
}
use temporalio_sdk_python.Common.Dict.{get}
use temporalio_sdk_python.Common.Result.{Result, ok, err, ◌>>=◌}
use temporalio_sdk_python.Payload.{Payload, Value, null, proto}
use temporalio_sdk_python.Exceptions.{Exc, other, isinstance}
use temporalio_sdk_python.Exceptions.{Cause, no_cause, caused_by}

-- `EncodingPayloadConverter`: a converter of one value, which may decline a value. A type hint is the type's name.
pub record EncodingPayloadConverter : Type 0 where
  pub encoding : String
  pub to_payload : Value → Result Exc (Option Payload)
  pub from_payload : Payload → (type_hint : Option String) → Result Exc Value

abbrev pub runtime_error : String → Cause → Exc
runtime_error text cause =
    other ("RuntimeError" ∷ "Exception" ∷ "BaseException" ∷ []) text "" cause no_cause

-- Python's json and protobuf, and `value_to_type` of this file. A message is its full name and its content in the wire
-- format; a name that the symbol database lacks raises KeyError.
pub record Libraries : Type 0 where
  pub json_dumps : Value → Result Exc String
  pub json_loads : String → Result Exc Value
  pub message_to_json : (full_name content : String) → Result Exc String
  pub parse_json : (full_name json : String) → Result Exc Value
  pub parse_binary : (full_name content : String) → Result Exc Value
  pub value_to_type : (hint : String) → Value → Result Exc Value

abbrev pub binary_null_to : Value → Result Exc (Option Payload)
binary_null_to null = ok (some (record { metadata = ("encoding", "binary/null") ∷ []; bytes = "" }))
binary_null_to _ = ok none

abbrev pub binary_null : EncodingPayloadConverter
binary_null = record {
  encoding = "binary/null";
  to_payload = binary_null_to;
  from_payload = λ payload hint.
      if payload.bytes == ""
      then ok null
      else err (runtime_error "Expected empty data set for binary/null" no_cause);
}

abbrev binary_plain_to : Value → Result Exc (Option Payload)
binary_plain_to (Value.bytes b) =
    ok (some (record { metadata = ("encoding", "binary/plain") ∷ []; bytes = b }))
binary_plain_to _ = ok none

abbrev pub binary_plain : EncodingPayloadConverter
binary_plain = record {
  encoding = "binary/plain";
  to_payload = binary_plain_to;
  from_payload = λ payload hint. ok (Value.bytes payload.bytes);
}

-- `except NAME as err: raise RuntimeError(text) from err`
abbrev pub except_raise : {A : Type 0} → String → String → Result Exc A → Result Exc A
except_raise name text (ok a) = ok a
except_raise name text (err e) =
    err (if isinstance e name then runtime_error text (caused_by e) else e)

abbrev pub message_payload : (encoding full_name content : String) → Payload
message_payload encoding full_name content = record {
  metadata = ("encoding", encoding) ∷ ("messageType", full_name) ∷ [];
  bytes = content;
}

-- `payload.metadata.get("messageType", b"<unknown>")`
abbrev pub message_type : Payload → String
message_type payload = elim (get payload.metadata "messageType") [
  | none ↦ "<unknown>"
  | some name ↦ name
]

abbrev pub except_unknown : String → Result Exc Value → Result Exc Value
except_unknown error r =
    except_raise error "Failed parsing" (except_raise "KeyError" "Unknown Protobuf type" r)

module _ (lib : Libraries) where
  abbrev json_proto_to : Value → Result Exc (Option Payload)
  json_proto_to (proto full_name content) = do
    json ← lib.message_to_json full_name content
    ok (some (message_payload "json/protobuf" full_name json))
  json_proto_to _ = ok none

  abbrev pub json_proto : EncodingPayloadConverter
  json_proto = record {
    encoding = "json/protobuf";
    to_payload = json_proto_to;
    from_payload = λ payload hint.
        except_unknown "ParseError" (lib.parse_json (message_type payload) payload.bytes);
  }

  abbrev binary_proto_to : Value → Result Exc (Option Payload)
  binary_proto_to (proto full_name content) =
      ok (some (message_payload "binary/protobuf" full_name content))
  binary_proto_to _ = ok none

  abbrev pub binary_proto : EncodingPayloadConverter
  binary_proto = record {
    encoding = "binary/protobuf";
    to_payload = binary_proto_to;
    from_payload = λ payload hint.
        except_unknown "DecodeError" (lib.parse_binary (message_type payload) payload.bytes);
  }

  abbrev typed : Option String → Value → Result Exc Value
  typed none value = ok value
  typed (some hint) value = lib.value_to_type hint value

  abbrev pub json_plain : EncodingPayloadConverter
  json_plain = record {
    encoding = "json/plain";
    to_payload = λ value.
        (lib.json_dumps value >>= λ json.
        ok (some (record { metadata = ("encoding", "json/plain") ∷ []; bytes = json })));
    from_payload = λ payload hint.
        except_raise "JSONDecodeError" "Failed parsing"
          (lib.json_loads payload.bytes >>= typed hint);
  }
