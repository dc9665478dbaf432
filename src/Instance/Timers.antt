-- ===== src/Instance/Timers.antt =====
-- temporalio/worker/_workflow_instance.py: timers, `call_later`, `_timer_handle_cancelled` and `_apply_fire_timer`.
pub mod Once
use package.text.Mathlib.TextPositions.{eq_refl}
use temporalio_sdk_python.Common.{
  ℕ, suc, ◌+◌, ◌-◌, ◌≤◌, ◌<◌, Bool, true, false, not, ◌&&◌, ◌||◌, Option, none, some, List, [], ◌∷◌,
  ◌++◌, map, String, ◌≡◌, ◌≢◌, refl, sym, ap, ◌∙◌, ◌⊎◌, inl, inr, string_eq, ℕ_eq, option_eq, arith,
  if◌then◌else◌, ◌==◌, contains, keep, or_else, is_some, Bool-cases, Option-cases, length, leb, ltb,
  eqb, keep-append, contains-append, length-append,
}
use temporalio_sdk_python.Common.Dict.{Dict, get, put, remove, has, get-put, get-remove, dict_laws}
use temporalio_sdk_python.Common.Result.{Result, ok, err}
use temporalio_sdk_python.Payload.{Payload, Value, null, raw_value, seq, values}
use temporalio_sdk_python.Exceptions.{
  Exc, Cause, Failure, failure_error, asyncio_cancelled, continue_as_new, other, read_only_context,
  being_evicted, no_cause, caused_by, plain, cancelled_error, is_failure_error,
  is_cancelled_exception, isinstance, classes,
}
use temporalio_sdk_python.Instance.State.{
  Instance, Action, Command, Future, pending, finished, failed, cancelled, pure, raise, lift, gets,
  modify, raise_if, ◌>>=◌, ◌>>◌, set_patch_marker, start_timer, cancel_timer, TimerHandle, Ready,
  fire, task_step, cancel_task, Work, new_instance, HandlerDefn, HandlerExecution, UnfinishedPolicy,
  warn_and_abandon, abandon, SignalWorkflow, QueryWorkflow, DoUpdate, UpdateResponse,
  ActivityHandle, ChildHandle,
}
use temporalio_sdk_python.Instance.Guards.{
  assert_not_read_only, add_command, as_read_only, next_seq, curr_seq, IsWritable,
  assert-IsWritable, add_command-IsWritable,
}

-- A delay in seconds is a float: here its sign, and `int(delay * 1e9)`.
pub record Delay : Type 0 where
  pub negative : Bool
  pub nanos : ℕ

unfoldable pub call_later : Delay → (callback : ℕ) → Action TimerHandle
unfolding assert_not_read_only next_seq add_command
call_later delay callback = do
  assert_not_read_only "schedule timer" false
  raise_if delay.negative (
      other ("RuntimeError" ∷ "Exception" ∷ "BaseException" ∷ [])
        "Attempting to schedule timer with negative delay" "" no_cause no_cause)
  n ← next_seq "timer"
  add_command (start_timer n delay.nanos)
  modify (λ s. record s {
    pending_timers = put s.pending_timers n (record { seq = n; callback = callback });
  })
  pure (record { seq = n; callback = callback })

-- A handle that is not pending, because it fired or was cancelled, is left alone.
unfoldable pub timer_handle_cancelled : TimerHandle → Action Unit
unfolding add_command
timer_handle_cancelled handle s = elim (get s.pending_timers handle.seq) [
  | none ↦ (ok tt, s)
  | some h ↦
      add_command (cancel_timer handle.seq)
        (record s { pending_timers = remove s.pending_timers handle.seq })
]

unfoldable pub apply_fire_timer : (seq : ℕ) → Action Unit
apply_fire_timer n s = elim (get s.pending_timers n) [
  | none ↦ (ok tt, s)
  | some handle ↦ (
    ok tt,
    record s { pending_timers = remove s.pending_timers n; ready = s.ready ++ fire handle ∷ [] },
  )
]
