-- ===== src/Instance/Tasks.antt =====
-- temporalio/worker/_workflow_instance.py: `call_soon`, `create_task` with `_register_task`, and the futures of
-- asyncio that the instance creates and resolves.
use temporalio_sdk_python.Common.{
  ℕ, ◌+◌, Bool, true, false, not, Option, some, [], ◌∷◌, ◌++◌, String, string_eq, ℕ_eq, option_eq,
}
use temporalio_sdk_python.Common.Dict.{get, put, remove}
use temporalio_sdk_python.Common.Result.{ok, err}
use temporalio_sdk_python.Exceptions.{Exc, other, no_cause}
use temporalio_sdk_python.Instance.State.{
  Instance, Action, Future, pending, pure, gets, modify, ◌>>=◌, ◌>>◌, Ready, task_step, Work,
}
use temporalio_sdk_python.Instance.Guards.{assert_not_read_only}

-- `RuntimeError(text)` and `ValueError(text)`
abbrev pub runtime_error : String → Exc
runtime_error t = other ("RuntimeError" ∷ "Exception" ∷ "BaseException" ∷ []) t "" no_cause no_cause

abbrev pub value_error : String → Exc
value_error t = other ("ValueError" ∷ "Exception" ∷ "BaseException" ∷ []) t "" no_cause no_cause

-- `call_soon`: tasks schedule their cancellation by it, so it is allowed during delete
unfoldable pub call_soon : Ready → Action Unit
unfolding assert_not_read_only
call_soon r = do
  assert_not_read_only "schedule task" true
  modify (λ s. record s { ready = s.ready ++ r ∷ [] })

-- `_register_task`; the name of the task is left out
unfoldable pub register_task : (task : ℕ) → Work → Action Unit
unfolding assert_not_read_only
register_task task work = do
  assert_not_read_only "create task" false
  modify (λ s. record s { tasks = put s.tasks task work })

-- `create_task`: asyncio's `Task` schedules its first step by `call_soon` before it is registered
unfoldable pub create_task : Work → Action ℕ
unfolding call_soon register_task
create_task work = do
  task ← gets (λ s. s.next_task)
  modify (λ s. record s { next_task = task + 1 })
  call_soon (task_step task)
  register_task task work
  pure task

-- The done callbacks of a task: it leaves the set of tasks.
unfoldable pub task_done : (task : ℕ) → Action Unit
task_done task = modify (λ s. record s { tasks = remove s.tasks task })

-- `create_future`
unfoldable pub create_future : Action ℕ
create_future s = (
  ok s.next_future,
  record s { futures = put s.futures s.next_future pending; next_future = s.next_future + 1 },
)

-- `asyncio.InvalidStateError`: a future is resolved once
abbrev pub invalid_state : Exc
invalid_state =
    other ("InvalidStateError" ∷ "Exception" ∷ "BaseException" ∷ []) "invalid state" "" no_cause
      no_cause

abbrev pub is_pending : Option Future → Bool
is_pending (some pending) = true
is_pending _ = false

abbrev pub done : Instance → ℕ → Bool
done s f = not (is_pending (get s.futures f))

-- `set_result`, `set_exception`
unfoldable pub resolve : (fut : ℕ) → Future → Action Unit
resolve f outcome s = elim (is_pending (get s.futures f)) [
  | true ↦ (ok tt, record s { futures = put s.futures f outcome })
  | false ↦ (err invalid_state, s)
]
