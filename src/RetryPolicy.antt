-- ===== src/RetryPolicy.antt =====
-- temporalio/common.py: `RetryPolicy`.
pub mod Proto
use text.Mathlib.TextPositions.{eq_refl}
use temporalio_sdk_python.Common.{
  ℕ, suc, ◌+◌, ◌-◌, ◌≤◌, ◌<◌, Bool, true, false, not, ◌&&◌, ◌||◌, Option, none, some, List, [], ◌∷◌,
  ◌++◌, map, String, ◌≡◌, ◌≢◌, refl, sym, ap, subst, ◌∙◌, ◌⊎◌, inl, inr, string_eq, ℕ_eq, option_eq,
  arith, if◌then◌else◌, ◌==◌, contains, keep, or_else, is_some, Bool-cases, Option-cases, length,
  leb, ltb, eqb, keep-append, contains-append, length-append,
}
use temporalio_sdk_python.Common.Dict.{Dict, get, put, remove, has, get-put, get-remove, dict_laws}
use temporalio_sdk_python.Common.Integers.{ℤ, pos, negsuc}
use temporalio_sdk_python.Common.Result.{
  Result, ok, err, ◌>>=◌, ◌>>◌, raise_if, ok_of_bind, Result-cases,
}
use temporalio_sdk_python.Payload.{Payload, Value, null, raw_value, proto, seq, values}
use temporalio_sdk_python.Exceptions.{
  Exc, other, failure_error, isinstance, classes, is_failure_error,
}
use temporalio_sdk_python.Common.{◌*◌}
use temporalio_sdk_python.Exceptions.{no_cause}

-- A length of time in microseconds.
abbrev pub Timedelta : Type 0
Timedelta = ℤ

-- `n < 0`, and `td.total_seconds() < 0`
abbrev pub is_negative : ℤ → Bool
is_negative (pos n) = false
is_negative (negsuc n) = true

-- `n == 1`
abbrev pub is_one : ℤ → Bool
is_one (pos n) = n == 1
is_one (negsuc n) = false

-- `if td`
abbrev pub is_truthy : Timedelta → Bool
is_truthy (pos n) = not (n == 0)
is_truthy (negsuc n) = true

-- `a < b`
abbrev pub is_below : Timedelta → Timedelta → Bool
is_below (pos a) (pos b) = ltb a b
is_below (pos a) (negsuc b) = false
is_below (negsuc a) (pos b) = true
is_below (negsuc a) (negsuc b) = ltb b a

-- `td * 100`
abbrev pub times_100 : Timedelta → Timedelta
times_100 (pos n) = pos (100 * n)
times_100 (negsuc n) = negsuc (100 * n + 99)

-- A float: what the code asks of it, and the number as it is written.
pub record Coefficient : Type 0 where
  pub below_one : Bool
  pub repr : String

pub record RetryPolicy : Type 0 where
  pub initial_interval : Timedelta
  pub backoff_coefficient : Coefficient
  pub maximum_interval : Option Timedelta
  pub maximum_attempts : ℤ
  pub non_retryable_error_types : Option (List String)

-- google.protobuf.Duration
pub record Duration : Type 0 where
  pub seconds : ℤ
  pub nanos : ℤ

-- What the code uses of the protobuf library: the conversions of durations, and how a number is put in an int32 field,
-- which raises an error for one that is out of range.
pub record Protobuf : Type 0 where
  pub from_timedelta : Timedelta → Duration
  pub to_timedelta : Duration → Timedelta
  pub int32 : ℤ → Result Exc ℤ

-- A duration reads back as the time it was made from, and a field holds the number that was put in it.
pub record Keeps (P : Protobuf) : Type 0 where
  pub time : (t : Timedelta) → P.to_timedelta (P.from_timedelta t) ≡ t
  pub number : (n m : ℤ) → P.int32 n ≡ ok m → m ≡ n

-- temporalio.api.common.v1.RetryPolicy
pub record RetryPolicyProto : Type 0 where
  pub initial_interval : Duration
  pub backoff_coefficient : Coefficient
  pub maximum_interval : Option Duration
  pub maximum_attempts : ℤ
  pub non_retryable_error_types : List String

abbrev pub value_error : String → Exc
value_error text =
    other ("ValueError" ∷ "Exception" ∷ "BaseException" ∷ []) text "" no_cause no_cause

-- the checks on a maximum interval, which are made if there is one and it is not zero
abbrev pub validate_maximum : (initial : Timedelta) → Option Timedelta → Result Exc (Unit {0})
validate_maximum initial none = ok tt
validate_maximum initial (some maximum) =
    if is_truthy maximum
    then (raise_if (is_negative maximum) (value_error "Maximum interval cannot be negative")
        >> raise_if (is_below maximum initial)
            (value_error "Maximum interval cannot be less than initial interval"))
    else ok tt

-- `_validate`
unfoldable pub validate : RetryPolicy → Result Exc (Unit {0})
validate p =
    if is_one p.maximum_attempts
    then ok tt
    else (raise_if (is_negative p.initial_interval)
          (value_error "Initial interval cannot be negative")
        >> raise_if p.backoff_coefficient.below_one
            (value_error "Backoff coefficient cannot be less than 1")
        >> validate_maximum p.initial_interval p.maximum_interval
        >> raise_if (is_negative p.maximum_attempts)
            (value_error "Maximum attempts cannot be negative"))

-- `self.maximum_interval or self.initial_interval * 100`
abbrev pub maximum_or_default : RetryPolicy → Timedelta
maximum_or_default p = elim p.maximum_interval [
  | none ↦ times_100 p.initial_interval
  | some m ↦ if is_truthy m then m else times_100 p.initial_interval
]

abbrev pub types_or_none : List String → Option (List String)
types_or_none [] = none
types_or_none (t ∷ ts) = some (t ∷ ts)

abbrev pub types_or_empty : Option (List String) → List String
types_or_empty none = []
types_or_empty (some ts) = ts

-- The fields of the message, with the number of attempts that it holds.
abbrev pub filled : Protobuf → RetryPolicy → ℤ → RetryPolicyProto
filled P p attempts = record {
  initial_interval = P.from_timedelta p.initial_interval;
  backoff_coefficient = p.backoff_coefficient;
  maximum_interval = some (P.from_timedelta (maximum_or_default p));
  maximum_attempts = attempts;
  non_retryable_error_types = types_or_empty p.non_retryable_error_types;
}

unfoldable pub apply_to_proto : Protobuf → RetryPolicy → Result Exc RetryPolicyProto
unfolding validate
apply_to_proto P p = do
  _ ← validate p
  attempts ← P.int32 p.maximum_attempts
  ok (filled P p attempts)

unfoldable pub from_proto : Protobuf → RetryPolicyProto → RetryPolicy
from_proto P q = record {
  initial_interval = P.to_timedelta q.initial_interval;
  backoff_coefficient = q.backoff_coefficient;
  maximum_interval = elim q.maximum_interval [ none ↦ none | some d ↦ some (P.to_timedelta d) ];
  maximum_attempts = q.maximum_attempts;
  non_retryable_error_types = types_or_none q.non_retryable_error_types;
}
