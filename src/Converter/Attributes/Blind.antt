-- ===== src/Converter/Attributes/Blind.antt =====
-- The default converters do not look at the type of a search attribute.
use temporalio_sdk_python.Common.{
  Option, none, some, [], ◌∷◌, String, ◌≡◌, refl, ap, ◌∙◌, string_eq, ℕ_eq, option_eq, ◌==◌, inl,
  inr, Bool-cases,
}
use temporalio_sdk_python.Common.Dict.{Dict, get, put, get-put}
use temporalio_sdk_python.Common.Result.{Result, ok, ◌>>=◌}
use temporalio_sdk_python.Payload.{Payload, Value}
use temporalio_sdk_python.Exceptions.{Exc}
use temporalio_sdk_python.Converter.Encoding.{
  Libraries, EncodingPayloadConverter, message_type, except_unknown, except_raise,
}
use temporalio_sdk_python.Converter.Composite.{
  new_composite, decode_with, encoding_of, one_value, from_payloads, default_encodings,
}
use temporalio_sdk_python.Converter.Failures.{first_of}
use temporalio_sdk_python.Converter.Attributes.{Dates, with_type, from_payload}

module _ (lib : Libraries) (dates : Dates) where
  abbrev IsBlind : EncodingPayloadConverter → Type 0
  IsBlind c =
      (t : String) (p : Payload)
      → c.from_payload (with_type lib dates t p) none ≡ c.from_payload p none

  abbrev AllBlind : Dict String EncodingPayloadConverter → Type 0
  AllBlind [] = Unit {0}
  AllBlind ((name, c) ∷ table) = IsBlind c × AllBlind table

  message_type-with_type :
      (t : String) (p : Payload) → message_type (with_type lib dates t p) ≡ message_type p
  unfolding get put
  message_type-with_type t p =
      ap (λ (o : Option String). elim o [ none ↦ "<unknown>" | some name ↦ name ])
        (get-put p.metadata "type" "messageType" t)

  encoding_of-with_type :
      (t : String) (p : Payload) → encoding_of (with_type lib dates t p) ≡ encoding_of p
  unfolding get put
  encoding_of-with_type t p =
      ap (λ (o : Option String). elim o [ none ↦ "<unknown>" | some name ↦ name ])
        (get-put p.metadata "type" "encoding" t)

  defaults_blind : AllBlind (new_composite (default_encodings lib))
  unfolding new_composite put
  defaults_blind = (
    λ t p. refl,
    (
      λ t p. refl,
      (
        λ t p.
            ap (λ n. except_unknown "ParseError" (lib.parse_json n p.bytes))
              (message_type-with_type t p),
        (
          λ t p.
              ap (λ n. except_unknown "DecodeError" (lib.parse_binary n p.bytes))
                (message_type-with_type t p),
          (λ t p. refl, tt),
        ),
      ),
    ),
  )

  decode_with-blind :
      (table : Dict String EncodingPayloadConverter) (name t : String) (p : Payload)
      → AllBlind table
      → decode_with (with_type lib dates t p) none (get table name)
        ≡ decode_with p none (get table name)
  unfolding get
  decode_with-blind [] name t p a = refl
  decode_with-blind ((n, c) ∷ table) name t p a = elim (Bool-cases (n == name)) [
    | inl e ↦ rw e (ap (except_raise "RuntimeError" "Payload could not be converted") (a.0 t p))
    | inr e ↦ rw e (decode_with-blind table name t p a.1)
  ]

  -- The type changes nothing of what is decoded.
  pub from_payload-with_type :
      (t : String) (p : Payload)
      → from_payload lib dates (with_type lib dates t p) ≡ from_payload lib dates p
  unfolding from_payloads one_value
  from_payload-with_type t p =
      let table = new_composite (default_encodings lib) in
      ap (λ (r : Result Exc Value). (r >>= λ v. ok (v ∷ [])) >>= first_of)
        (ap (λ n. decode_with (with_type lib dates t p) none (get table n))
            (encoding_of-with_type t p)
          ∙ decode_with-blind table (encoding_of p) t p defaults_blind)
