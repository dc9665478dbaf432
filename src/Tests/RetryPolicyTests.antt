-- ===== src/Tests/RetryPolicyTests.antt =====
-- The theorems on retry policies at a policy of three attempts without a maximum interval.
use temporalio_sdk_python.Common.{false, none, some, [], ◌∷◌, ◌≡◌, refl, if◌then◌else◌, ltb, arith}
use temporalio_sdk_python.Common.Result.{Result, ok, err}
use temporalio_sdk_python.Exceptions.{Exc}
use temporalio_sdk_python.Common.Integers.{ℤ, pos, negsuc}
use temporalio_sdk_python.RetryPolicy.{
  Protobuf, Keeps, RetryPolicy, RetryPolicyProto, value_error, filled, apply_to_proto, from_proto,
  validate,
}
use temporalio_sdk_python.RetryPolicy.Proto.{
  IsBounded, apply_to_proto_bounds, apply_to_proto-from_proto,
}

abbrev fits : ℤ → Result Exc ℤ
fits (pos n) = if ltb n 2147483648 then ok (pos n) else err (value_error "Value out of range")
fits (negsuc n) = if ltb n 2147483648 then ok (negsuc n) else err (value_error "Value out of range")

abbrev protobuf : Protobuf
protobuf = record {
  from_timedelta = λ t. record { seconds = pos 0; nanos = t };
  to_timedelta = λ d. d.nanos;
  int32 = fits;
}

fits-same : (n m : ℤ) → fits n ≡ ok m → m ≡ n
fits-same (pos n) m h = ground arith
fits-same (negsuc n) m h = ground arith

protobuf-Keeps : Keeps protobuf
protobuf-Keeps = record { time = λ t. refl; number = fits-same }

abbrev policy : RetryPolicy
policy = record {
  initial_interval = pos 1000000;
  backoff_coefficient = record { below_one = false; repr = "2.0" };
  maximum_interval = none;
  maximum_attempts = pos 3;
  non_retryable_error_types = some ("ValueError" ∷ []);
}

abbrev message : RetryPolicyProto
message = filled protobuf policy (pos 3)

policy_sent : apply_to_proto protobuf policy ≡ ok message
unfolding apply_to_proto validate
policy_sent = refl

apply_to_proto_bounds_example : IsBounded (from_proto protobuf message)
apply_to_proto_bounds_example =
    apply_to_proto_bounds protobuf policy message protobuf-Keeps policy_sent refl

apply_to_proto-from_proto_example :
    apply_to_proto protobuf (from_proto protobuf message) ≡ ok message
apply_to_proto-from_proto_example =
    apply_to_proto-from_proto protobuf policy message protobuf-Keeps policy_sent
