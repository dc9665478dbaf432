-- ===== src/Tests/TimerTests.antt =====
-- The theorem on timers at a workflow that starts two timers, cancels one twice and lets the other fire.
use temporalio_sdk_python.Common.{ℕ, false, List, [], ◌∷◌, arith}
use temporalio_sdk_python.Common.Dict.{get}
use temporalio_sdk_python.Instance.State.{new_instance}
use temporalio_sdk_python.Instance.Timers.{Delay}
use temporalio_sdk_python.Instance.Timers.Once.{
  TimerOp, later, cancel, fire_timer, run_ops, Accounts, run_ops-Accounts,
}

abbrev second : Delay
second = record { negative = false; nanos = 1000000000 }

abbrev ops : List TimerOp
ops =
    later second 7
    ∷ later second 8
    ∷ cancel (record { seq = 1; callback = 7 })
    ∷ fire_timer 2
    ∷ fire_timer 1
    ∷ cancel (record { seq = 1; callback = 7 })
    ∷ []

new_instance-Accounts : (n : ℕ) → Accounts n new_instance
unfolding get
new_instance-Accounts n = ground arith

run_ops-Accounts_example : Accounts 1 (run_ops ops new_instance)
run_ops-Accounts_example = run_ops-Accounts ops new_instance new_instance-Accounts 1
