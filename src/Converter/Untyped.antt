-- ===== src/Converter/Untyped.antt =====
-- temporalio/converter.py: the search attributes of the deprecated kind, lists of values by name.
use temporalio_sdk_python.Common.{
  Bool, true, Option, none, some, List, [], ◌∷◌, String, string_eq, option_eq, if◌then◌else◌, ◌==◌,
}
use temporalio_sdk_python.Common.Dict.{Dict, get, put}
use temporalio_sdk_python.Common.Result.{Result, ok, err, ◌>>=◌}
use temporalio_sdk_python.Payload.{Payload, Value, Values, nil, cons}
use temporalio_sdk_python.Exceptions.{Exc}
use temporalio_sdk_python.RetryPolicy.{value_error}
use temporalio_sdk_python.SearchAttributes.{SearchAttributePair}
use temporalio_sdk_python.Converter.Encoding.{Libraries}
use temporalio_sdk_python.Converter.Composite.{new_composite, to_payloads, from_payloads}
use temporalio_sdk_python.Converter.Attributes.{
  Dates, IndexedFields, type_error, to_payload, from_payload, encode_search_attributes,
}

-- `type(v)`, if it is one of str, int, float and bool
abbrev scalar_type : Value → Option String
scalar_type (Value.text t) = some "str"
scalar_type (Value.int n) = some "int"
scalar_type (Value.float f) = some "float"
scalar_type (Value.bool b) = some "bool"
scalar_type _ = none

-- the last three branches of the loop: the type that is expected from now on
abbrev scalar_step : (val_type : Option String) → Option String → Result Exc (Option String)
scalar_step val_type none =
    err (type_error "Search attribute value not one of str, int, float, bool, or datetime")
scalar_step none (some t) = ok (some t)
scalar_step (some u) (some t) =
    if t == u
    then ok (some u)
    else err (type_error "Search attribute values must have the same type for the same key")

module _ (lib : Libraries) (dates : Dates) where
  -- one value, with the type that is expected after it; a date is not checked against the type
  abbrev safe_value : (val_type : Option String) → Value → Result Exc (Option String × Value)
  safe_value val_type (Value.datetime d none) =
      err (value_error "Timezone must be present on all search attribute dates")
  safe_value val_type (Value.datetime d (some z)) =
      ok (val_type, Value.text (dates.isoformat d (some z)))
  safe_value val_type v = scalar_step val_type (scalar_type v) >>= λ t. ok (t, v)

  unfoldable pub safe_values : (val_type : Option String) → Values → Result Exc Values
  safe_values val_type nil = ok nil
  safe_values val_type (cons v vs) = do
    step ← safe_value val_type v
    rest ← safe_values step.0 vs
    ok (cons step.1 rest)

  unfoldable pub encode_search_attribute_values : Value → Result Exc Payload
  unfolding safe_values to_payloads new_composite
  encode_search_attribute_values (Value.seq vs) =
      safe_values none vs >>= λ safe. to_payload lib dates (Value.seq safe)
  encode_search_attribute_values v = err (type_error "Search attribute values must be lists")

  -- `encode_search_attributes`, of attributes that are not typed
  unfoldable pub encode_untyped : Dict String Value → IndexedFields → Result Exc IndexedFields
  unfolding encode_search_attribute_values put
  encode_untyped [] api = ok api
  encode_untyped ((k, v) ∷ attributes) api = do
    payload ← encode_search_attribute_values v
    encode_untyped attributes (put api k payload)

  abbrev encode_typed_if_any : List SearchAttributePair → IndexedFields → Result Exc IndexedFields
  encode_typed_if_any [] api = ok api
  encode_typed_if_any (a ∷ attrs) api = encode_search_attributes lib dates (a ∷ attrs) api

  -- `_encode_maybe_typed_search_attributes`; no attributes of a kind are none or empty
  unfoldable pub encode_maybe_typed_search_attributes :
      Dict String Value → List SearchAttributePair → IndexedFields → Result Exc IndexedFields
  unfolding encode_untyped encode_search_attributes
  encode_maybe_typed_search_attributes [] typed api = encode_typed_if_any typed api
  encode_maybe_typed_search_attributes (kv ∷ attributes) [] api =
      encode_untyped (kv ∷ attributes) api
  encode_maybe_typed_search_attributes (kv ∷ attributes) (a ∷ attrs) api =
      err
        (value_error "Cannot provide both deprecated search attributes and typed search attributes")

  abbrev parse_one : Value → Result Exc Value
  parse_one (Value.text s) = dates.parse s >>= λ d. ok (Value.datetime d.0 d.1)
  parse_one v = err (type_error "fromisoformat: argument must be str")

  abbrev parse_all : Values → Result Exc Values
  parse_all nil = ok nil
  parse_all (cons v vs) = do w ← parse_one v; ws ← parse_all vs; ok (cons w ws)

  -- a value that is no list becomes a list of one item
  abbrev as_list : Value → Values
  as_list (Value.seq vs) = vs
  as_list v = cons v nil

  abbrev is_date : Payload → Bool
  is_date p = get p.metadata "type" == some "Datetime"

  unfoldable pub decode_search_attributes : IndexedFields → Result Exc (Dict String Values)
  unfolding get from_payloads new_composite
  decode_search_attributes [] = ok []
  decode_search_attributes ((k, p) ∷ api) = do
    v ← from_payload lib dates p
    vs ← if is_date p then parse_all (as_list v) else ok (as_list v)
    rest ← decode_search_attributes api
    ok ((k, vs) ∷ rest)

  abbrev date_of_text : Bool → Value → Result Exc Value
  date_of_text true (Value.text s) = parse_one (Value.text s)
  date_of_text _ v = ok v

  -- `_decode_search_attribute_value`
  unfoldable pub decode_search_attribute_value : Payload → Result Exc Value
  unfolding get from_payloads new_composite
  decode_search_attribute_value p = from_payload lib dates p >>= date_of_text (is_date p)
