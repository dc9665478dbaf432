-- ===== src/Tests/ConverterTests.antt =====
-- The theorems on payload converters at libraries that write text only, and at None, bytes, text and a message.
use temporalio_sdk_python.Common.{
  true, if◌then◌else◌, ◌==◌, List, [], ◌∷◌, String, ◌≡◌, refl, string_eq, option_eq,
}
use temporalio_sdk_python.Common.Dict.{put}
use temporalio_sdk_python.Common.Result.{Result, ok, err}
use temporalio_sdk_python.Payload.{Payload, Value, null, proto}
use temporalio_sdk_python.Exceptions.{Exc}
use temporalio_sdk_python.Converter.Encoding.{Libraries}
use temporalio_sdk_python.Converter.Composite.{
  new_composite, first_payload, to_payloads, default_encodings,
}
use temporalio_sdk_python.Converter.Composite.Defaults.{ReadsBack, is_json}
use temporalio_sdk_python.Tests.Samples.{sample_error}

abbrev dumps : Value → Result Exc String
dumps (Value.text t) = ok t
dumps (Value.bytes b) = ok "[98]"
dumps _ = err sample_error

abbrev pub libraries : Libraries
libraries = record {
  json_dumps = dumps;
  json_loads = λ s. ok (Value.text s);
  message_to_json = λ name content. ok content;
  parse_json = λ name s. if name == "M" then ok (proto name s) else err sample_error;
  parse_binary = λ name content. if name == "M" then ok (proto name content) else err sample_error;
  value_to_type = λ hint v. ok v;
}

-- The messages of the one type that is known, and every other value.
abbrev pub Known : Value → Type 0
Known (proto name content) = name ≡ "M"
Known _ = Unit {0}

dumps-loads :
    (v : Value) (s : String)
    → is_json v ≡ true
    → dumps v ≡ ok s
    → ◌≡◌ {A = Result Exc Value} (ok (Value.text s)) (ok v)
dumps-loads (Value.text t) s j h = let e : t ≡ s = cc h in rw e refl
dumps-loads (Value.bytes b) s j h = cc j
dumps-loads _ s j h = cc h

pub libraries-ReadsBack : ReadsBack Known libraries
libraries-ReadsBack = record {
  json = λ v s p j h. dumps-loads v s j h;
  message_json = λ name content s p h. let e : content ≡ s = cc h in rw (e, p) refl;
}

abbrev pub sample : List Value
sample = null ∷ Value.bytes "b" ∷ Value.text "t" ∷ proto "M" "content" ∷ []

abbrev payload : String → String → Payload
payload encoding bytes = record { metadata = ("encoding", encoding) ∷ []; bytes = bytes }

abbrev pub encoded : List Payload
encoded =
    payload "binary/null" ""
    ∷ payload "binary/plain" "b"
    ∷ payload "json/plain" "t"
    ∷ record {
      metadata = ("encoding", "json/protobuf") ∷ ("messageType", "M") ∷ [];
      bytes = "content";
    }
    ∷ []

pub encodes : to_payloads (new_composite (default_encodings libraries)) sample ≡ ok encoded
unfolding to_payloads new_composite first_payload put
encodes = refl
