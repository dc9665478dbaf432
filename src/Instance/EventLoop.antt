-- ===== src/Instance/EventLoop.antt =====
-- temporalio/worker/_workflow_instance.py: the event loop, `_run_once`, with the conditions that workflow code waits for.
pub mod Returns
pub mod Fuel
use package.text.Mathlib.TextPositions.{eq_refl}
use temporalio_sdk_python.Common.{
  ℕ, suc, ◌+◌, ◌-◌, ◌≤◌, ◌<◌, Bool, true, false, not, ◌&&◌, ◌||◌, Option, none, some, List, [], ◌∷◌,
  ◌++◌, map, String, ◌≡◌, ◌≢◌, refl, sym, ap, subst, ◌∙◌, ◌⊎◌, inl, inr, string_eq, ℕ_eq, option_eq,
  arith, if◌then◌else◌, ◌==◌, contains, keep, or_else, is_some, Bool-cases, Option-cases, length,
  leb, ltb, eqb, keep-append, contains-append, length-append,
}
use temporalio_sdk_python.Common.Dict.{Dict, get, put, remove, has, get-put, get-remove, dict_laws}
use temporalio_sdk_python.Common.Result.{Result, ok, err}
use temporalio_sdk_python.Payload.{Payload, Value, null, raw_value, seq, values}
use temporalio_sdk_python.Exceptions.{
  Exc, Cause, Failure, failure_error, asyncio_cancelled, continue_as_new, other, read_only_context,
  being_evicted, no_cause, caused_by, plain, cancelled_error, is_failure_error,
  is_cancelled_exception, isinstance, classes,
}
use temporalio_sdk_python.Instance.State.{
  Instance, Action, Command, Future, pending, finished, failed, cancelled, pure, raise, lift, gets,
  modify, raise_if, ◌>>=◌, ◌>>◌, set_patch_marker, start_timer, cancel_timer, TimerHandle, Ready,
  fire, task_step, cancel_task, Work, new_instance, HandlerDefn, HandlerExecution, UnfinishedPolicy,
  warn_and_abandon, abandon, SignalWorkflow, QueryWorkflow, DoUpdate, UpdateResponse, accepted,
  completed, rejected, ActivityHandle, ChildHandle, update_response, respond_to_query,
  complete_workflow, continue_as_new_workflow, fail_workflow, cancel_workflow, schedule_activity,
  request_cancel_activity, start_child_workflow, cancel_child_workflow,
}
use temporalio_sdk_python.Instance.Guards.{
  assert_not_read_only, add_command, as_read_only, next_seq, curr_seq, IsWritable,
  assert-IsWritable, add_command-IsWritable,
}
use temporalio_sdk_python.Instance.Tasks.{resolve, done, create_future}

-- What the event loop calls that is not its own: what a handle runs, the functions of conditions, the class of the
-- workflow, and asyncio's scheduling of the callbacks of a future that is done.
pub record Callbacks : Type 0 where
  pub run : Ready → Action Unit
  pub condition : ℕ → Instance → Result Exc Bool
  pub new_object : Action Unit
  pub wake : ℕ → Instance → List Ready

-- `raise self._current_activation_error`, checked after every handle
abbrev pub check_activation_error : Action Unit
check_activation_error s =
    (elim s.activation_error [ none ↦ ok tt | some e ↦ if s.deleting then ok tt else err e ], s)

-- `handle = self._ready.popleft(); handle._run()` and the check of the error
abbrev pub run_first : Callbacks → Ready → (rest : List Ready) → Action Unit
run_first code r rest = do
  modify (λ s. record s { ready = rest })
  code.run r
  check_activation_error

-- `fut.set_result(True)`, with the callbacks that it schedules
abbrev set_result : Callbacks → (fut : ℕ) → Action Unit
set_result code f = do
  resolve f (finished (Value.bool true))
  modify (λ s. record s { ready = s.ready ++ code.wake f s })

abbrev pub resolve_condition : Callbacks → (fut : ℕ) → (holds : Bool) → Action Bool
resolve_condition code f false = pure false
resolve_condition code f true = set_result code f >>= λ _. pure true

unfoldable pub check_condition : Callbacks → (fn fut : ℕ) → Action Bool
unfolding resolve
check_condition code fn fut = do
  holds ← gets (code.condition fn)
  b ← lift holds
  resolve_condition code fut b

abbrev pub keep_condition : Callbacks → (condition : ℕ × ℕ) → (is_done : Bool) → Action Bool
keep_condition code t true = pure false
keep_condition code t false = check_condition code t.0 t.1 >>= λ b. pure (not b)

-- the list comprehension over `_conditions`: what stays
unfoldable pub waiting_conditions : Callbacks → List (ℕ × ℕ) → Action (List (ℕ × ℕ))
unfolding check_condition
waiting_conditions code [] = pure []
waiting_conditions code (t ∷ ts) = do
  is_done ← gets (λ s. done s t.1)
  stays ← keep_condition code t is_done
  rest ← waiting_conditions code ts
  pure (if stays then t ∷ rest else rest)

unfoldable pub update_conditions : Callbacks → (check_conditions : Bool) → Action Unit
unfolding waiting_conditions
update_conditions code false = pure tt
update_conditions code true = do
  all ← gets (λ s. s.conditions)
  left ← waiting_conditions code all
  modify (λ s. record s { conditions = left })

-- `if not self._object: self._object = self._defn.cls()`
abbrev pub create_object : Callbacks → Action Unit
create_object code s =
    if s.has_object
    then (ok tt, s)
    else (code.new_object >>= λ _. modify (λ u. record u { has_object = true })) s

-- The inner loop, on fuel: `none` means that the fuel ran out.
unfoldable pub drain :
    ℕ → Callbacks → (ready : List Ready) → Instance → Option (Result Exc (Unit {0}) × Instance)
drain n code [] s = some (ok tt, s)
drain Prim.Native.Nat.zero code (r ∷ rest) s = none
drain (suc n) code (r ∷ rest) s =
    let p = run_first code r rest s in
    elim p.0 [ ok u ↦ drain n code p.1.ready p.1 | err e ↦ some (err e, p.1) ]

-- The outer loop: each round drains what is ready, and then checks the conditions.
unfoldable pub rounds :
    ℕ
    → ℕ
    → Callbacks
    → (check_conditions : Bool) → (ready : List Ready) → Instance
    → Option (Result Exc (Unit {0}) × Instance)
unfolding drain update_conditions
rounds n m code check [] s = some (ok tt, s)
rounds Prim.Native.Nat.zero m code check (r ∷ rest) s = none
rounds (suc n) m code check (r ∷ rest) s = elim (drain m code (r ∷ rest) s) [
  | none ↦ none
  | some p ↦ elim p.0 [
    | err e ↦ some (err e, p.1)
    | ok u ↦
        let q = update_conditions code check p.1 in
        elim q.0 [ err e ↦ some (err e, q.1) | ok u' ↦ rounds n m code check q.1.ready q.1 ]
  ]
]

-- `_run_once`, with fuel for each of the loops
unfoldable pub run_once :
    ℕ → Callbacks → (check_conditions : Bool) → Instance → Option (Result Exc (Unit {0}) × Instance)
unfolding rounds
run_once fuel code check s =
    let p = create_object code s in
    elim p.0 [ err e ↦ some (err e, p.1) | ok u ↦ rounds fuel fuel code check p.1.ready p.1 ]

-- `workflow_wait_condition`, up to the wait for the future
unfoldable pub workflow_wait_condition : (fn : ℕ) → Action ℕ
unfolding assert_not_read_only create_future
workflow_wait_condition fn = do
  assert_not_read_only "wait condition" false
  fut ← create_future
  modify (λ s. record s { conditions = s.conditions ++ (fn, fut) ∷ [] })
  pure fut
