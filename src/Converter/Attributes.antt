-- ===== src/Converter/Attributes.antt =====
-- temporalio/converter.py: search attributes as payloads.
pub mod Blind
pub mod RoundTrip
pub mod Collection
use temporalio_sdk_python.Common.{
  ℕ, Bool, true, false, not, ◌&&◌, ◌||◌, Option, none, some, List, [], ◌∷◌, String, string_eq, ℕ_eq,
  if◌then◌else◌, ◌==◌, eqb,
}
use temporalio_sdk_python.Common.Dict.{Dict, get, put}
use temporalio_sdk_python.Common.Result.{Result, ok, err, ◌>>=◌, ◌>>◌}
use temporalio_sdk_python.Payload.{Payload, Value, Values, nil, cons, null}
use temporalio_sdk_python.Exceptions.{Exc, other, no_cause}
use temporalio_sdk_python.SearchAttributes.{
  IndexedValueType, text, keyword, int, double, bool, datetime, keyword_list, SearchAttributeKey,
  SearchAttributePair, metadata_type, from_metadata_type, typed_search_attributes,
}
use temporalio_sdk_python.Converter.Encoding.{Libraries}
use temporalio_sdk_python.Converter.Composite.{
  new_composite, to_payloads, from_payloads, default_encodings,
}
use temporalio_sdk_python.Converter.Failures.{first_of}

-- Python's datetime: `isoformat`, and the parser of `_get_iso_datetime_parser`.
pub record Dates : Type 0 where
  pub isoformat : (naive : String) (zone : Option String) → String
  pub parse : String → Result Exc (String × Option String)

-- temporalio.api.common.v1.SearchAttributes
abbrev pub IndexedFields : Type 0
IndexedFields = Dict String Payload

abbrev pub type_error : String → Exc
type_error message =
    other ("TypeError" ∷ "Exception" ∷ "BaseException" ∷ []) message "" no_cause no_cause

-- `isinstance(value, key.origin_value_type)`: a bool is an int, and text and bytes are sequences
abbrev pub is_instance : IndexedValueType → Value → Bool
is_instance text (Value.text t) = true
is_instance keyword (Value.text t) = true
is_instance int (Value.int n) = true
is_instance int (Value.bool b) = true
is_instance double (Value.float f) = true
is_instance bool (Value.bool b) = true
is_instance datetime (Value.datetime t z) = true
is_instance keyword_list (Value.seq vs) = true
is_instance keyword_list (Value.text t) = true
is_instance keyword_list (Value.bytes b) = true
is_instance _ _ = false

abbrev all_text : Values → Bool
all_text nil = true
all_text (cons (Value.text t) vs) = all_text vs
all_text (cons v vs) = false

-- every item of a sequence is text; the items of bytes are numbers
abbrev pub has_text_items : Value → Bool
has_text_items (Value.seq vs) = all_text vs
has_text_items (Value.bytes b) = b == ""
has_text_items _ = true

module _ (lib : Libraries) (dates : Dates) where
  -- `default().payload_converter`, with its `to_payload` and `from_payload`
  abbrev pub to_payload : Value → Result Exc Payload
  to_payload v = to_payloads (new_composite (default_encodings lib)) (v ∷ []) >>= first_of

  abbrev pub from_payload : Payload → Result Exc Value
  from_payload p = from_payloads (new_composite (default_encodings lib)) (p ∷ []) none >>= first_of

  -- a datetime in its ISO format
  abbrev pub iso_value : Value → Value
  iso_value (Value.datetime t z) = Value.text (dates.isoformat t z)
  iso_value v = v

  abbrev pub with_type : (metadata_type : String) → Payload → Payload
  with_type t p = record p { metadata = put p.metadata "type" t }

  abbrev encode_value : IndexedValueType → Value → Result Exc Payload
  encode_value type value =
      if not (is_instance type value)
      then err (type_error "Value not suitable for indexed value type")
      else if not (has_text_items (iso_value value))
      then err (type_error "All values of a keyword list must be strings")
      else (to_payload (iso_value value) >>= λ p. ok (with_type (metadata_type type) p))

  unfoldable pub encode_typed_search_attribute_value :
      SearchAttributeKey → Value → Result Exc Payload
  unfolding to_payloads new_composite metadata_type put
  encode_typed_search_attribute_value key null = to_payload null
  encode_typed_search_attribute_value key value = encode_value key.indexed_value_type value

  -- `encode_search_attributes`, of typed attributes
  unfoldable pub encode_search_attributes :
      List SearchAttributePair → IndexedFields → Result Exc IndexedFields
  unfolding encode_typed_search_attribute_value put
  encode_search_attributes [] api = ok api
  encode_search_attributes (a ∷ attrs) api = do
    payload ← encode_typed_search_attribute_value a.key a.value
    encode_search_attributes attrs (put api a.key.name payload)

  -- a list of one item is that item, and a list of another length is not a value, except for keyword lists
  abbrev pub single_item : IndexedValueType → Value → Option Value
  single_item keyword_list v = some v
  single_item t (Value.seq (cons v nil)) = some v
  single_item t (Value.seq vs) = none
  single_item t v = some v

  abbrev parse_text : Value → Result Exc Value
  parse_text (Value.text s) = dates.parse s >>= λ d. ok (Value.datetime d.0 d.1)
  parse_text v = err (type_error "fromisoformat: argument must be str")

  abbrev pub parse_date : IndexedValueType → Value → Result Exc Value
  parse_date datetime v = parse_text v
  parse_date t v = ok v

  -- a value of a wrong type is passed over
  abbrev pub checked : SearchAttributeKey → Value → Option SearchAttributePair
  checked key v =
      if is_instance key.indexed_value_type v then some (record { key = key; value = v }) else none

  abbrev pub decode_item :
      SearchAttributeKey → Option Value → Result Exc (Option SearchAttributePair)
  decode_item key none = ok none
  decode_item key (some v) = parse_date key.indexed_value_type v >>= λ w. ok (checked key w)

  abbrev pub known_key : (name : String) → (metadata : Option String) → Option SearchAttributeKey
  known_key name none = none
  known_key name (some t) = if t == "" then none else from_metadata_type name t

  -- one entry of the loop
  unfoldable pub decode_one : (name : String) → Payload → Result Exc (Option SearchAttributePair)
  unfolding get from_metadata_type from_payloads new_composite
  decode_one name p = elim (known_key name (get p.metadata "type")) [
    | none ↦ ok none
    | some key ↦ from_payload p >>= λ v. decode_item key (single_item key.indexed_value_type v)
  ]

  abbrev pub added :
      Option SearchAttributePair → List SearchAttributePair → List SearchAttributePair
  added none pairs = pairs
  added (some pair) pairs = pair ∷ pairs

  unfoldable pub decode_pairs : IndexedFields → Result Exc (List SearchAttributePair)
  unfolding decode_one
  decode_pairs [] = ok []
  decode_pairs ((name, p) ∷ api) = do
    pair ← decode_one name p
    pairs ← decode_pairs api
    ok (added pair pairs)

  unfoldable pub decode_typed_search_attributes :
      IndexedFields → Result Exc (List SearchAttributePair)
  unfolding decode_pairs typed_search_attributes
  decode_typed_search_attributes api = decode_pairs api >>= typed_search_attributes
