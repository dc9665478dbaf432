-- ===== src/Tests/AttributeTests.antt =====
-- The theorems on search attributes at a collection of a number, a date and a keyword.
use temporalio_sdk_python.Common.{
  false, some, List, [], ◌∷◌, String, ◌≡◌, refl, sym, ap, subst, ◌∙◌, inl, inr, Bool-cases, ◌==◌,
  string_eq, ℕ_eq, option_eq, if◌then◌else◌,
}
use temporalio_sdk_python.Common.Integers.{pos, negsuc}
use temporalio_sdk_python.Common.Dict.{put}
use temporalio_sdk_python.Common.Result.{Result, ok, err}
use temporalio_sdk_python.Common.Text.{text_le}
use temporalio_sdk_python.Payload.{Payload, Value}
use temporalio_sdk_python.Exceptions.{Exc}
use temporalio_sdk_python.SearchAttributes.{
  IndexedValueType, int, keyword, datetime, SearchAttributePair, insert, sorted, has_duplicates,
  typed_search_attributes, updated, is_truthy, getitem, contains, metadata_type,
}
use temporalio_sdk_python.SearchAttributes.Sorted.{entry, Unique, IsSorted}
use temporalio_sdk_python.SearchAttributes.Updated.{override, updated-override}
use temporalio_sdk_python.SearchAttributes.Order.{swap}
use temporalio_sdk_python.SearchAttributes.Lookup.{contains-getitem}
use temporalio_sdk_python.Converter.Encoding.{Libraries}
use temporalio_sdk_python.Converter.Composite.{new_composite, first_payload, to_payloads}
use temporalio_sdk_python.Converter.Composite.Defaults.{ReadsBack}
use temporalio_sdk_python.Converter.Attributes.{
  Dates, IndexedFields, type_error, encode_typed_search_attribute_value, encode_search_attributes,
  decode_typed_search_attributes,
}
use temporalio_sdk_python.Converter.Attributes.Collection.{
  AllSound, decode-encode_search_attributes,
}
use temporalio_sdk_python.Tests.Samples.{sample_error}

abbrev pair : String → IndexedValueType → Value → SearchAttributePair
pair name type value = record {
  key = record { name = name; indexed_value_type = type };
  value = value;
}

abbrev pairs : List SearchAttributePair
pairs =
    pair "Runs" int (Value.int (pos 0))
    ∷ pair "Closed" datetime (Value.datetime "2024-05-01T00:00" (some "+00:00"))
    ∷ pair "Team" keyword (Value.text "core")
    ∷ []

abbrev attrs : List SearchAttributePair
attrs =
    pair "Closed" datetime (Value.datetime "2024-05-01T00:00" (some "+00:00"))
    ∷ pair "Runs" int (Value.int (pos 0))
    ∷ pair "Team" keyword (Value.text "core")
    ∷ []

constructed : typed_search_attributes pairs ≡ ok attrs
unfolding typed_search_attributes sorted insert text_le has_duplicates
constructed = refl

abbrev updates : List SearchAttributePair
updates = pair "Team" keyword (Value.text "ui") ∷ pair "Area" keyword (Value.text "x") ∷ []

updated-override_example :
    (new : List SearchAttributePair) × (updated attrs updates ≡ ok new)
    × IsSorted new
    × Unique new
    × ((n : String) → entry new n ≡ override (entry attrs) updates n)
updated-override_example = updated-override pairs attrs updates constructed

-- `in` says no, and `[]` gives 0.
contains-getitem_example :
    contains attrs (record { name = "Runs"; indexed_value_type = int })
    ≡ elim (getitem attrs (record { name = "Runs"; indexed_value_type = int })) [
      | ok v ↦ is_truthy v
      | err e ↦ false
    ]
contains-getitem_example =
    contains-getitem pairs attrs (record { name = "Runs"; indexed_value_type = int }) constructed

-- Libraries that write text and the number 0.
abbrev dumps : Value → Result Exc String
dumps (Value.text t) = if t == "0" then err sample_error else ok t
dumps (Value.int n) = elim n [
  | pos k ↦ if k == 0 then ok "0" else err sample_error
  | _ ↦ err sample_error
]
dumps _ = err sample_error

abbrev libraries : Libraries
libraries = record {
  json_dumps = dumps;
  json_loads = λ s. if s == "0" then ok (Value.int (pos 0)) else ok (Value.text s);
  message_to_json = λ name content. ok content;
  parse_json = λ name s. err sample_error;
  parse_binary = λ name content. err sample_error;
  value_to_type = λ hint v. ok v;
}

abbrev dates : Dates
dates = record {
  isoformat = λ naive zone. if zone == some "+00:00" then "2024-05-01T00:00+00:00" else naive;
  parse = λ s.
      if s == "2024-05-01T00:00+00:00"
      then ok ("2024-05-01T00:00", some "+00:00")
      else err (type_error "Invalid isoformat string");
}

-- No type of messages is known.
abbrev Known : Value → Type 0
Known (Value.proto name content) = ⊥
Known _ = Unit {0}

loads-dumps : (v : Value) (s : String) → dumps v ≡ ok s → libraries.json_loads s ≡ ok v
loads-dumps (Value.text t) s h = elim (Bool-cases (t == "0")) [
  | inl e ↦
      let k : err sample_error ≡ ok s =
        ap (λ b. if b then err sample_error else ok t) (sym e) ∙ h in
      cc k
  | inr e ↦
      let k : ok t ≡ ok s = ap (λ b. if b then err sample_error else ok t) (sym e) ∙ h in
      let same : t ≡ s = cc k in
      subst (λ x. libraries.json_loads x ≡ ok (Value.text t)) same (rw e refl)
]
loads-dumps (Value.int (pos n)) s h = elim (Bool-cases (n == 0)) [
  | inl e ↦
      let k : ok "0" ≡ ok s = ap (λ b. if b then ok "0" else err sample_error) (sym e) ∙ h in
      let same : "0" ≡ s = cc k in
      let zero_again : n ≡ 0 = (ℕ_eq.same_iff n 0).0 e in
      subst (λ x. libraries.json_loads x ≡ ok (Value.int (pos n))) same (rw zero_again refl)
  | inr e ↦
      let k : err sample_error ≡ ok s =
        ap (λ b. if b then ok "0" else err sample_error) (sym e) ∙ h in
      cc k
]
loads-dumps (Value.int (negsuc n)) s h = cc h
loads-dumps _ s h = cc h

libraries-ReadsBack : ReadsBack Known libraries
libraries-ReadsBack = record {
  json = λ v s p j h. loads-dumps v s h;
  message_json = λ name content s p h. absurd p;
}

abbrev payload : String → String → Payload
payload type bytes = record {
  metadata = ("encoding", "json/plain") ∷ ("type", type) ∷ [];
  bytes = bytes;
}

abbrev message : IndexedFields
message =
    ("Closed", payload "Datetime" "2024-05-01T00:00+00:00")
    ∷ ("Runs", payload "Int" "0")
    ∷ ("Team", payload "Keyword" "core")
    ∷ []

encoded : encode_search_attributes libraries dates attrs [] ≡ ok message
unfolding encode_search_attributes encode_typed_search_attribute_value metadata_type to_payloads
    new_composite first_payload put
encoded = refl

all_sound : AllSound Known dates libraries attrs
all_sound = (((λ h. cc h), tt, refl), (((λ h. cc h), tt, tt), (((λ h. cc h), tt, tt), tt)))

-- The entries of the message in another order.
abbrev received : IndexedFields
received =
    ("Runs", payload "Int" "0")
    ∷ ("Closed", payload "Datetime" "2024-05-01T00:00+00:00")
    ∷ ("Team", payload "Keyword" "core")
    ∷ []

decode-encode_search_attributes_example :
    decode_typed_search_attributes libraries dates received ≡ ok attrs
decode-encode_search_attributes_example =
    decode-encode_search_attributes libraries dates Known pairs attrs message received
      libraries-ReadsBack constructed all_sound encoded
      (swap ("Closed", payload "Datetime" "2024-05-01T00:00+00:00") ("Runs", payload "Int" "0"))
