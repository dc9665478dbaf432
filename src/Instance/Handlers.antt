-- ===== src/Instance/Handlers.antt =====
-- temporalio/worker/_workflow_instance.py: the arguments of handlers, `_convert_payloads` and `_process_handler_args`.
use temporalio_sdk_python.Common.{
  Bool, false, not, Option, none, some, List, [], ◌∷◌, String, string_eq, ℕ_eq, option_eq,
  if◌then◌else◌, ◌==◌, length,
}
use temporalio_sdk_python.Common.Result.{Result, ok, err}
use temporalio_sdk_python.Payload.{Payload, Value, seq, values}
use temporalio_sdk_python.Exceptions.{
  Exc, Failure, other, no_cause, caused_by, is_failure_error, isinstance,
}
use temporalio_sdk_python.Instance.State.{HandlerDefn}

-- The payload converter and the failure converter are the user's to choose: parameters, each call of which may raise.
pub record Converters : Type 0 where
  pub to_payloads : List Value → Result Exc (List Payload)
  pub from_payloads : List Payload → Option (List String) → Result Exc (List Value)
  pub to_failure : Exc → Result Exc Failure
  pub from_failure : Failure → Result Exc Exc

-- `try: … except FailureError: raise; except Exception as err: raise RuntimeError(…) from err`
abbrev decoding_error : Exc → Exc
decoding_error e =
    if is_failure_error e
    then e
    else if isinstance e "Exception"
    then other ("RuntimeError" ∷ "Exception" ∷ "BaseException" ∷ []) "Failed decoding arguments" ""
        (caused_by e) no_cause
    else e

-- type hints are used only if there is one for each payload
abbrev pub hints : Option (List String) → List Payload → Option (List String)
hints none ps = none
hints (some []) ps = some []
hints (some (t ∷ ts)) ps = if length (t ∷ ts) == length ps then some (t ∷ ts) else none

abbrev pub rename_error : Result Exc (List Value) → Result Exc (List Value)
rename_error (ok vs) = ok vs
rename_error (err e) = err (decoding_error e)

unfoldable pub convert_payloads :
    Converters → List Payload → Option (List String) → Result Exc (List Value)
convert_payloads c [] types = ok []
convert_payloads c (p ∷ ps) types = rename_error (c.from_payloads (p ∷ ps) (hints types (p ∷ ps)))

-- `not name`: the empty name is false too
abbrev pub has_name : Option String → Bool
has_name none = false
has_name (some n) = not (n == "")

abbrev pub raw_types : List Payload → List String
raw_types [] = []
raw_types (p ∷ ps) = "temporalio.common.RawValue" ∷ raw_types ps

-- `arg_types[1:] if arg_types else None`
abbrev pub without_first : Option (List String) → Option (List String)
without_first none = none
without_first (some []) = none
without_first (some (t ∷ ts)) = some ts

abbrev pub with_name : String → Result Exc (List Value) → Result Exc (List Value)
with_name name (ok vs) = ok (Value.text name ∷ vs)
with_name name (err e) = err e

abbrev pub with_name_and_list : String → Result Exc (List Value) → Result Exc (List Value)
with_name_and_list name (ok vs) = ok (Value.text name ∷ seq (values vs) ∷ [])
with_name_and_list name (err e) = err e

unfoldable pub process_handler_args :
    Converters
    → (job_name : String) → (input : List Payload) → HandlerDefn
    → Result Exc (List Value)
unfolding convert_payloads
process_handler_args c job_name input defn =
    if has_name defn.name
    then convert_payloads c input defn.arg_types
    else if defn.dynamic_vararg
    then with_name job_name (convert_payloads c input (without_first defn.arg_types))
    else with_name_and_list job_name (convert_payloads c input (some (raw_types input)))
