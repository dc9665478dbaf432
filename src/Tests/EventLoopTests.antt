-- ===== src/Tests/EventLoopTests.antt =====
-- The theorem on the event loop at two handles and one condition that does not hold.
use temporalio_sdk_python.Common.{
  ℕ, Bool, true, false, some, List, [], ◌∷◌, ◌≡◌, refl, ◌≤◌, length, ap, sym, subst, arith, ℕ_eq,
  if◌then◌else◌,
}
use temporalio_sdk_python.Common.Result.{Result, ok}
use temporalio_sdk_python.Exceptions.{Exc}
use temporalio_sdk_python.Instance.State.{
  Instance, Action, pure, modify, ◌>>=◌, task_step, cancel_task, new_instance,
}
use temporalio_sdk_python.Instance.EventLoop.{
  Callbacks, check_condition, waiting_conditions, update_conditions, keep_condition, run_once,
}
use temporalio_sdk_python.Instance.Tasks.{done}
use temporalio_sdk_python.Instance.EventLoop.Returns.{Bounded, run_once-returns}

-- Handles that do nothing, and conditions that never hold.
abbrev pub idle : Callbacks
idle = record {
  run = λ r s. (ok tt, s);
  condition = λ fn s. ok false;
  new_object = λ s. (ok tt, s);
  wake = λ fut s. [];
}

abbrev pub count_ready : Instance → ℕ
count_ready s = length s.ready

-- What stays of a list whose first condition is done or not.
waiting-one :
    (t : ℕ × ℕ) (s : Instance) (left : List (ℕ × ℕ)) (rest : Action (List (ℕ × ℕ)))
    → rest s ≡ (ok left, s)
    → (is_done : Bool)
    → (kept : List (ℕ × ℕ)) × ((keep_condition idle t is_done >>= λ stays.
            rest >>= λ others. pure (if stays then t ∷ others else others))
          s
        ≡ (ok kept, s))
unfolding check_condition
waiting-one t s left rest e true = (left, ap (λ p. ◌>>=◌ (λ _. p) (λ others. pure others) s) e)
waiting-one t s left rest e false =
    (t ∷ left, ap (λ p. ◌>>=◌ (λ _. p) (λ others. pure (t ∷ others)) s) e)

-- The check of conditions that never hold changes nothing.
waiting-idle :
    (ts : List (ℕ × ℕ)) (s : Instance)
    → (left : List (ℕ × ℕ)) × (waiting_conditions idle ts s ≡ (ok left, s))
unfolding waiting_conditions check_condition
waiting-idle [] s = ([], refl)
waiting-idle (t ∷ ts) s =
    let (left, e) = waiting-idle ts s in
    waiting-one t s left (waiting_conditions idle ts) e (done s t.1)

checks_add_nothing :
    (check : Bool) (s : Instance) → count_ready (update_conditions idle check s).1 ≤ count_ready s
unfolding update_conditions
checks_add_nothing false s = omega arith
checks_add_nothing true s =
    let (left, e) = waiting-idle s.conditions s in
    subst
      (λ (p : Result Exc (List (ℕ × ℕ)) × Instance).
        count_ready (◌>>=◌ (λ _. p) (λ left. modify (λ u. record u { conditions = left })) s).1
        ≤ count_ready s)
      (sym e) (omega arith)

pub idle-Bounded : Bounded idle count_ready
idle-Bounded = record {
  runs = λ r rest s e. omega (arith, ap (λ l. length l) e);
  checks = checks_add_nothing;
}

abbrev two_ready : Instance
two_ready = record new_instance {
  ready = task_step 1 ∷ cancel_task 2 ∷ [];
  conditions = (7, 0) ∷ [];
}

run_once-returns_example :
    (p : Result Exc Unit × Instance) × (run_once 3 idle true two_ready ≡ some p)
    × (p.0 ≡ ok tt → p.1.ready ≡ [])
run_once-returns_example =
    run_once-returns idle count_ready 3 true two_ready idle-Bounded (omega arith)
