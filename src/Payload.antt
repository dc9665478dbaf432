-- ===== src/Payload.antt =====
-- The data that crosses the SDK's border: `temporalio.api.common.v1.Payload`, and the Python values
-- that a payload converter turns into payloads and back.
use temporalio_sdk_python.Common.Integers.{ℤ}
use temporalio_sdk_python.Common.{Bool, Option, List, [], ◌∷◌, String}

-- Metadata in insertion order, and the bytes.
pub record Payload : Type 0 where
  pub metadata : List (String × String)
  pub bytes : String

-- `raw_value` is `temporalio.common.RawValue` (common.py); `proto` is a protobuf message, with its
-- full name; `object` is an instance of a user's class; `dict` has text for keys.
-- A float is known by how it is written, a datetime by its date and time and the offset of its time zone, if any.
mutual
  pub data Value : Type 0 where
    null : Value
    bool : Bool → Value
    int : ℤ → Value
    float : (repr : String) → Value
    datetime : (naive : String) (zone : Option String) → Value
    text : String → Value
    bytes : String → Value
    raw_value : Payload → Value
    proto : String → String → Value
    object : String → String → Value
    seq : Values → Value
    dict : Fields → Value

  pub data Values : Type 0 where
    nil : Values
    cons : Value → Values → Values

  pub data Fields : Type 0 where
    end : Fields
    field : String → Value → Fields → Fields

-- A Python list as one value.
abbrev pub values : List Value → Values
values [] = nil
values (v ∷ vs) = cons v (values vs)
