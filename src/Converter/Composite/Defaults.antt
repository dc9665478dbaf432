-- ===== src/Converter/Composite/Defaults.antt =====
-- The default converters decode what they encode.
use temporalio_sdk_python.Common.{
  Bool, true, false, Option, none, some, List, [], ◌∷◌, String, ◌≡◌, refl, string_eq, ℕ_eq,
  option_eq, ap, ◌∙◌,
}
use temporalio_sdk_python.Common.Dict.{Dict, get, put}
use temporalio_sdk_python.Common.Result.{Result, ok, ok_of_bind, ◌>>=◌}
use temporalio_sdk_python.Exceptions.{Exc}
use temporalio_sdk_python.Payload.{Payload, Value, null, proto}
use temporalio_sdk_python.Converter.Encoding.{
  Libraries, json_plain, json_proto, EncodingPayloadConverter, message_payload,
}
use temporalio_sdk_python.Converter.Composite.{
  new_composite, first_payload, one_value, to_payloads, from_payloads, default_encodings,
}
use temporalio_sdk_python.Converter.Composite.RoundTrip.{
  is_raw, AllPlain, from_payloads-to_payloads,
}

-- A value that is left to JSON: the converters before it encode None, bytes and messages.
abbrev pub is_json : Value → Bool
is_json null = false
is_json (Value.bytes b) = false
is_json (proto name content) = false
is_json (Value.raw_value p) = false
is_json _ = true

-- What the libraries promise of the values that `P` allows: JSON reads back what it writes, and the JSON text of a message
-- is parsed to the message.
pub record ReadsBack (P : Value → Type 0) (lib : Libraries) : Type 0 where
  pub json :
      (v : Value) (s : String)
      → P v
      → is_json v ≡ true
      → lib.json_dumps v ≡ ok s
      → lib.json_loads s ≡ ok v
  pub message_json :
      (name content s : String)
      → P (proto name content)
      → lib.message_to_json name content ≡ ok s
      → lib.parse_json name s ≡ ok (proto name content)

module _ (P : Value → Type 0) (lib : Libraries) (laws : ReadsBack P lib) where
  abbrev table : Dict String EncodingPayloadConverter
  table = new_composite (default_encodings lib)

  same_payload :
      (o : Option Payload) (p : Payload)
      → ◌≡◌ {A = Result Exc (Option Payload)}
          (elim o [ none ↦ ok none | some q ↦ ok (some q) ])
          (ok (some p))
      → ◌≡◌ {A = Result Exc (Option Payload)} (ok o) (ok (some p))
  same_payload none p h = h
  same_payload (some q) p h = h

  -- JSON is asked last.
  json_back :
      (v : Value) (p : Payload)
      → P v
      → is_json v ≡ true
      → ((json_plain lib).to_payload v >>= λ x. elim x [ none ↦ ok none | some q ↦ ok (some q) ])
        ≡ ok (some p)
      → one_value table none p ≡ ok v
  unfolding one_value get put new_composite
  json_back v p a j h =
      let (o, i, h') =
        ok_of_bind ((json_plain lib).to_payload v)
          (λ x. elim x [ none ↦ ok none | some q ↦ ok (some q) ]) h in
      let (s, e, k') =
        ok_of_bind (lib.json_dumps v)
          (λ s. ok (some (record { metadata = ("encoding", "json/plain") ∷ []; bytes = s }))) i in
      let k : ok (some (record { metadata = ("encoding", "json/plain") ∷ []; bytes = s }))
          ≡ ok (some p) =
        k' ∙ same_payload o p h' in
      let f : record { metadata = ("encoding", "json/plain") ∷ []; bytes = s } ≡ p = cc k in
      rw (← f) (rw (laws.json v s a j e) refl)

  message_back :
      (name content : String) (p : Payload)
      → P (proto name content)
      → first_payload table (proto name content) ≡ ok (some p)
      → one_value table none p ≡ ok (proto name content)
  unfolding first_payload one_value get put new_composite
  message_back name content p a h =
      let (o, i, h') =
        ok_of_bind ((json_proto lib).to_payload (proto name content))
          (λ x. elim x [ none ↦ rest | some q ↦ ok (some q) ]) h in
      let (s, e, k) =
        ok_of_bind (lib.message_to_json name content)
          (λ s. ok (some (message_payload "json/protobuf" name s))) i in
      let written : some (message_payload "json/protobuf" name s) ≡ o = cc k in
      let same : ok (some (message_payload "json/protobuf" name s)) ≡ ok (some p) =
        ap
          (λ x. elim x as (λ _. Result Exc (Option Payload)) [ none ↦ rest | some q ↦ ok (some q) ])
          written
        ∙ h' in
      let f : message_payload "json/protobuf" name s ≡ p = cc same in
      rw (← f) (rw (laws.message_json name content s a e) refl)
    where
      rest : Result Exc (Option Payload)
      rest = ok (some (message_payload "binary/protobuf" name content))

  value_back :
      (v : Value) (p : Payload)
      → P v
      → is_raw v ≡ false
      → first_payload table v ≡ ok (some p)
      → one_value table none p ≡ ok v
  unfolding first_payload one_value get put new_composite
  value_back null p a r h =
      let f : record { metadata = ("encoding", "binary/null") ∷ []; bytes = "" } ≡ p = cc h in
      rw (← f) refl
  value_back (Value.bytes b) p a r h =
      let f : record { metadata = ("encoding", "binary/plain") ∷ []; bytes = b } ≡ p = cc h in
      rw (← f) refl
  value_back (proto name content) p a r h = message_back name content p a h
  value_back (Value.raw_value q) p a r h = cc r
  value_back v p a r h = json_back v p a refl h

-- The default converters decode what they encode: None, bytes, the messages whose JSON text is parsed to them, and the
-- other values that JSON reads back, in one list and in any mixture, are the same after a round trip without hints.
pub default-from_payloads-to_payloads :
    (P : Value → Type 0) (lib : Libraries) (vs : List Value) (ps : List Payload)
    → ReadsBack P lib
    → AllPlain P vs
    → to_payloads (new_composite (default_encodings lib)) vs ≡ ok ps
    → from_payloads (new_composite (default_encodings lib)) ps none ≡ ok vs
default-from_payloads-to_payloads P lib vs ps laws a h =
    from_payloads-to_payloads P (new_composite (default_encodings lib)) vs ps
      (value_back P lib laws) a h
