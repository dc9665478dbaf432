-- ===== src/SearchAttributes.antt =====
-- temporalio/common.py: `SearchAttributeKey` and `TypedSearchAttributes`.
pub mod Sorted
pub mod Updated
pub mod Lookup
pub mod Order
use temporalio_sdk_python.Common.{
  ℕ, Bool, true, false, ◌&&◌, ◌||◌, Option, none, some, List, [], ◌∷◌, String, string_eq,
  if◌then◌else◌, ◌==◌, eqb, not, ℕ_eq,
}
use temporalio_sdk_python.Common.Result.{Result, ok, err, ◌>>=◌}
use temporalio_sdk_python.Common.Text.{text_le}
use temporalio_sdk_python.Common.Integers.{pos, negsuc}
use temporalio_sdk_python.Payload.{Value, nil, end, null}
use temporalio_sdk_python.Exceptions.{Exc, other, no_cause}

-- `SearchAttributeIndexedValueType`
pub data IndexedValueType : Type 0 where
  text keyword int double bool datetime keyword_list : IndexedValueType

-- `_SearchAttributeKey`; the `for` methods settle the Python type of the values by the indexed type.
pub record SearchAttributeKey : Type 0 where
  pub name : String
  pub indexed_value_type : IndexedValueType

-- `_metadata_type`
unfoldable pub metadata_type : IndexedValueType → String
metadata_type text = "Text"
metadata_type keyword = "Keyword"
metadata_type int = "Int"
metadata_type double = "Double"
metadata_type bool = "Bool"
metadata_type datetime = "Datetime"
metadata_type keyword_list = "KeywordList"

abbrev new_key : (name : String) → IndexedValueType → Option SearchAttributeKey
new_key name t = some (record { name = name; indexed_value_type = t })

-- `_from_metadata_type`
unfoldable pub from_metadata_type : (name metadata : String) → Option SearchAttributeKey
from_metadata_type name metadata =
    if metadata == "Text"
    then new_key name text
    else if metadata == "Keyword"
    then new_key name keyword
    else if metadata == "Int"
    then new_key name int
    else if metadata == "Double"
    then new_key name double
    else if metadata == "Bool"
    then new_key name bool
    else if metadata == "Datetime"
    then new_key name datetime
    else if metadata == "KeywordList"
    then new_key name keyword_list
    else none

-- `isinstance(vals[0], …)`, in the order of the tests; a bool is an int
abbrev guess_one : Value → Option IndexedValueType
guess_one (Value.text t) = some keyword
guess_one (Value.int n) = some int
guess_one (Value.bool b) = some int
guess_one (Value.float f) = some double
guess_one (Value.datetime t z) = some datetime
guess_one _ = none

abbrev guess_many : Value → Option IndexedValueType
guess_many (Value.text t) = some keyword_list
guess_many _ = none

-- `_guess_from_untyped_values`
unfoldable pub guess_from_untyped_values : (name : String) → List Value → Option SearchAttributeKey
guess_from_untyped_values name [] = none
guess_from_untyped_values name (v ∷ []) = elim (guess_one v) [
  | none ↦ none
  | some t ↦ new_key name t
]
guess_from_untyped_values name (v ∷ w ∷ vals) = elim (guess_many v) [
  | none ↦ none
  | some t ↦ new_key name t
]

-- `SearchAttributePair`
pub record SearchAttributePair : Type 0 where
  pub key : SearchAttributeKey
  pub value : Value

-- The key's name, by which the pairs are sorted.
abbrev pub name_of : SearchAttributePair → String
name_of pair = pair.key.name

-- `sorted(pairs, key=lambda pair: pair.key.name)`, which is stable
unfoldable pub insert : SearchAttributePair → List SearchAttributePair → List SearchAttributePair
unfolding text_le
insert a [] = a ∷ []
insert a (b ∷ l) = if text_le (name_of a) (name_of b) then a ∷ b ∷ l else b ∷ insert a l

unfoldable pub sorted : List SearchAttributePair → List SearchAttributePair
unfolding insert
sorted [] = []
sorted (a ∷ l) = insert a (sorted l)

-- the loop over neighbours
unfoldable pub has_duplicates : List SearchAttributePair → Bool
has_duplicates [] = false
has_duplicates (a ∷ []) = false
has_duplicates (a ∷ b ∷ l) = (name_of a == name_of b) || has_duplicates (b ∷ l)

abbrev pub duplicate_error : Exc
duplicate_error =
    other ("ValueError" ∷ "Exception" ∷ "BaseException" ∷ [])
      "Duplicate search attribute entries found" "" no_cause no_cause

-- `TypedSearchAttributes(pairs)`, by its `__post_init__`
unfoldable pub typed_search_attributes :
    List SearchAttributePair → Result Exc (List SearchAttributePair)
unfolding sorted has_duplicates
typed_search_attributes pairs =
    if has_duplicates (sorted pairs) then err duplicate_error else ok (sorted pairs)

-- `attrs.append(attr)`, or `attrs[existing_index] = attr` where there is one of that name
unfoldable pub replace_or_add :
    List SearchAttributePair → SearchAttributePair → List SearchAttributePair
replace_or_add [] attr = attr ∷ []
replace_or_add (a ∷ attrs) attr =
    if name_of attr == name_of a then attr ∷ attrs else a ∷ replace_or_add attrs attr

unfoldable pub replace_all :
    List SearchAttributePair → List SearchAttributePair → List SearchAttributePair
unfolding replace_or_add
replace_all attrs [] = attrs
replace_all attrs (attr ∷ updates) = replace_all (replace_or_add attrs attr) updates

unfoldable pub updated :
    List SearchAttributePair → List SearchAttributePair → Result Exc (List SearchAttributePair)
unfolding replace_all typed_search_attributes
updated attrs updates = typed_search_attributes (replace_all attrs updates)

abbrev type_number : IndexedValueType → ℕ
type_number text = 1
type_number keyword = 2
type_number int = 3
type_number double = 4
type_number bool = 5
type_number datetime = 6
type_number keyword_list = 7

abbrev pub same_key : SearchAttributeKey → SearchAttributeKey → Bool
same_key a b =
    (a.name == b.name) && eqb (type_number a.indexed_value_type) (type_number b.indexed_value_type)

-- `bool(v)`
abbrev pub is_truthy : Value → Bool
is_truthy null = false
is_truthy (Value.bool b) = b
is_truthy (Value.int (pos n)) = not (n == 0)
is_truthy (Value.float repr) = not (repr == "0.0" || repr == "-0.0")
is_truthy (Value.text t) = not (t == "")
is_truthy (Value.bytes b) = not (b == "")
is_truthy (Value.seq nil) = false
is_truthy (Value.dict end) = false
is_truthy _ = true

-- `next((v for k, v in self if k == key), None)`
abbrev pub first_value : List SearchAttributePair → SearchAttributeKey → Value
first_value [] key = null
first_value (a ∷ attrs) key =
    let rest = first_value attrs key in if same_key a.key key then a.value else rest

abbrev pub key_error : Exc
key_error =
    other ("KeyError" ∷ "LookupError" ∷ "Exception" ∷ "BaseException" ∷ []) "" "" no_cause no_cause

-- `ret is None`
abbrev pub unless_none : Value → Result Exc Value
unless_none null = err key_error
unless_none v = ok v

-- `__getitem__`
unfoldable pub getitem : List SearchAttributePair → SearchAttributeKey → Result Exc Value
getitem attrs key = unless_none (first_value attrs key)

-- `__contains__`
unfoldable pub contains : List SearchAttributePair → SearchAttributeKey → Bool
contains [] key = false
contains (a ∷ attrs) key =
    let rest = contains attrs key in (same_key a.key key && is_truthy a.value) || rest
