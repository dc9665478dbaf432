-- ===== src/Converter/Failures/Numbers.antt =====
-- temporalio/converter.py: the enumerations of failures and their numbers.
use temporalio_sdk_python.Common.{
  ℕ, Option, none, some, [], ◌∷◌, string_eq, ℕ_eq, option_eq, if◌then◌else◌, ◌==◌,
}
use temporalio_sdk_python.Common.Result.{Result, ok, err}
use temporalio_sdk_python.Exceptions.{Exc, other}
use temporalio_sdk_python.Exceptions.{no_cause, TimeoutType, RetryState}

-- `error.type or 0`, by the numbers of temporalio.api.enums.v1
abbrev pub timeout_type_number : Option TimeoutType → ℕ
timeout_type_number none = 0
timeout_type_number (some TimeoutType.start_to_close) = 1
timeout_type_number (some TimeoutType.schedule_to_start) = 2
timeout_type_number (some TimeoutType.schedule_to_close) = 3
timeout_type_number (some TimeoutType.heartbeat) = 4

abbrev pub retry_state_number : Option RetryState → ℕ
retry_state_number none = 0
retry_state_number (some RetryState.in_progress) = 1
retry_state_number (some RetryState.non_retryable_failure) = 2
retry_state_number (some RetryState.timeout) = 3
retry_state_number (some RetryState.maximum_attempts_reached) = 4
retry_state_number (some RetryState.retry_policy_not_set) = 5
retry_state_number (some RetryState.internal_server_error) = 6
retry_state_number (some RetryState.cancel_requested) = 7

abbrev invalid_number : Exc
invalid_number =
    other ("ValueError" ∷ "Exception" ∷ "BaseException" ∷ []) "not a valid member" "" no_cause
      no_cause

-- `TimeoutType(int(n)) if n else None`
abbrev pub timeout_type : ℕ → Result Exc (Option TimeoutType)
timeout_type n =
    if n == 0
    then ok none
    else if n == 1
    then ok (some TimeoutType.start_to_close)
    else if n == 2
    then ok (some TimeoutType.schedule_to_start)
    else if n == 3
    then ok (some TimeoutType.schedule_to_close)
    else if n == 4
    then ok (some TimeoutType.heartbeat)
    else err invalid_number

abbrev pub retry_state : ℕ → Result Exc (Option RetryState)
retry_state n =
    if n == 0
    then ok none
    else if n == 1
    then ok (some RetryState.in_progress)
    else if n == 2
    then ok (some RetryState.non_retryable_failure)
    else if n == 3
    then ok (some RetryState.timeout)
    else if n == 4
    then ok (some RetryState.maximum_attempts_reached)
    else if n == 5
    then ok (some RetryState.retry_policy_not_set)
    else if n == 6
    then ok (some RetryState.internal_server_error)
    else if n == 7
    then ok (some RetryState.cancel_requested)
    else err invalid_number
