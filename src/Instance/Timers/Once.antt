-- ===== src/Instance/Timers/Once.antt =====
-- A timer fires or is cancelled, once.
use package.text.Mathlib.TextPositions.{eq_refl}
use temporalio_sdk_python.Common.{
  ℕ, ◌+◌, ◌≤◌, ◌<◌, ◌||◌, none, some, List, [], ◌∷◌, ◌++◌, ◌≡◌, inl, inr, string_eq, ℕ_eq,
  option_eq, arith, if◌then◌else◌, ◌==◌, Bool-cases, Option-cases,
}
use temporalio_sdk_python.Common.Dict.{get, put, get-put, get-remove}
use temporalio_sdk_python.Instance.State.{
  Instance, Command, start_timer, cancel_timer, TimerHandle, Ready, fire,
}
use temporalio_sdk_python.Instance.Guards.{curr_seq}
use temporalio_sdk_python.Instance.Timers.{
  Delay, call_later, timer_handle_cancelled, apply_fire_timer,
}

-- How often a timer was started, cancelled, and handed to the event loop.
abbrev pub starts : ℕ → List Command → ℕ
starts n [] = 0
starts n (start_timer m d ∷ rest) = (if m == n then 1 else 0) + starts n rest
starts n (c ∷ rest) = starts n rest

abbrev pub cancels : ℕ → List Command → ℕ
cancels n [] = 0
cancels n (cancel_timer m ∷ rest) = (if m == n then 1 else 0) + cancels n rest
cancels n (c ∷ rest) = cancels n rest

abbrev pub fires : ℕ → List Ready → ℕ
fires n [] = 0
fires n (fire h ∷ rest) = (if h.seq == n then 1 else 0) + fires n rest
fires n (r ∷ rest) = fires n rest

starts-append : (n : ℕ) (xs ys : List Command) → starts n (xs ++ ys) ≡ starts n xs + starts n ys
starts-append n [] ys = omega arith
starts-append n (start_timer m d ∷ xs) ys = omega (arith, starts-append n xs ys)
starts-append n (_ ∷ xs) ys = starts-append n xs ys

cancels-append : (n : ℕ) (xs ys : List Command) → cancels n (xs ++ ys) ≡ cancels n xs + cancels n ys
cancels-append n [] ys = omega arith
cancels-append n (cancel_timer m ∷ xs) ys = omega (arith, cancels-append n xs ys)
cancels-append n (_ ∷ xs) ys = cancels-append n xs ys

fires-append : (n : ℕ) (xs ys : List Ready) → fires n (xs ++ ys) ≡ fires n xs + fires n ys
fires-append n [] ys = omega arith
fires-append n (fire h ∷ xs) ys = omega (arith, fires-append n xs ys)
fires-append n (_ ∷ xs) ys = fires-append n xs ys

abbrev waiting : ℕ → Instance → ℕ
waiting n s = elim (get s.pending_timers n) [ none ↦ 0 | some h ↦ 1 ]

-- The account of one timer: each start is answered at most once. A number that was not given out has no timer, and
-- a pending handle is filed under its own number.
pub record Accounts (n : ℕ) (s : Instance) : Type 0 where
  pub once : starts n s.commands ≤ 1
  pub answered : fires n s.ready + cancels n s.commands + waiting n s ≤ starts n s.commands
  pub fresh : curr_seq s "timer" < n → starts n s.commands ≡ 0
  pub filed : (h : TimerHandle) → get s.pending_timers n ≡ some h → h.seq ≡ n

pub data TimerOp : Type 0 where
  later : Delay → ℕ → TimerOp
  cancel : TimerHandle → TimerOp
  fire_timer : ℕ → TimerOp

abbrev pub run_op : TimerOp → Instance → Instance
run_op (later d c) s = (call_later d c s).1
run_op (cancel h) s = (timer_handle_cancelled h s).1
run_op (fire_timer n) s = (apply_fire_timer n s).1

-- Calls by workflow code and jobs of the server, in any order; what raises is passed over.
abbrev pub run_ops : List TimerOp → Instance → Instance
run_ops [] s = s
run_ops (op ∷ ops) s = run_ops ops (run_op op s)

abbrev started : Delay → ℕ → Instance → Instance
started d c s =
    let m = curr_seq s "timer" + 1 in
    record s {
      curr_seqs = put s.curr_seqs "timer" m;
      commands = s.commands ++ start_timer m d.nanos ∷ [];
      pending_timers = put s.pending_timers m (record { seq = m; callback = c });
    }

-- The state after `call_later`, on each branch.
call_later_state :
    (d : Delay) (c : ℕ) (s : Instance)
    → (call_later d c s).1 ≡ (if s.deleting || s.read_only || d.negative then s else started d c s)
unfolding call_later
call_later_state d c s = ground arith

started-Accounts :
    (n : ℕ) (d : Delay) (c : ℕ) (s : Instance) → Accounts n s → Accounts n (started d c s)
started-Accounts n d c s a =
    let m = curr_seq s "timer" + 1 in
    ground (
      arith,
      starts-append n s.commands (start_timer m d.nanos ∷ []),
      cancels-append n s.commands (start_timer m d.nanos ∷ []),
      get-put s.pending_timers m n (record { seq = m; callback = c }),
      get-put s.curr_seqs "timer" "timer" m,
      eq_refl "timer",
    )

call_later-Accounts :
    (n : ℕ) (d : Delay) (c : ℕ) (s : Instance) → Accounts n s → Accounts n (call_later d c s).1
call_later-Accounts n d c s a =
    rw (call_later_state d c s) (elim (Bool-cases (s.deleting || s.read_only || d.negative)) [
      | inl e ↦ rw e a
      | inr e ↦ rw e (started-Accounts n d c s a)
    ])

cancel-Accounts :
    (n : ℕ) (h : TimerHandle) (s : Instance)
    → Accounts n s
    → Accounts n (timer_handle_cancelled h s).1
unfolding timer_handle_cancelled
cancel-Accounts n h s a = elim (Option-cases (get s.pending_timers h.seq)) [
  | inl e ↦ ground arith
  | inr (k, e) ↦ ground (
    arith,
    a.filed,
    cancels-append n s.commands (cancel_timer h.seq ∷ []),
    starts-append n s.commands (cancel_timer h.seq ∷ []),
    get-remove s.pending_timers h.seq n,
  )
]

fire-Accounts :
    (n : ℕ) (m : ℕ) (s : Instance)
    → Accounts m s
    → Accounts n s
    → Accounts n (apply_fire_timer m s).1
unfolding apply_fire_timer
fire-Accounts n m s b a = elim (Option-cases (get s.pending_timers m)) [
  | inl e ↦ ground arith
  | inr (k, e) ↦ ground (
    arith,
    a.filed,
    b.filed k e,
    fires-append n s.ready (fire k ∷ []),
    get-remove s.pending_timers m n,
  )
]

run_op-Accounts :
    (op : TimerOp) (s : Instance) → ((n : ℕ) → Accounts n s) → (n : ℕ) → Accounts n (run_op op s)
run_op-Accounts (later d c) s a n = call_later-Accounts n d c s (a n)
run_op-Accounts (cancel h) s a n = cancel-Accounts n h s (a n)
run_op-Accounts (fire_timer m) s a n = fire-Accounts n m s (a m) (a n)

-- Whatever timers the workflow starts and cancels and the server fires, in whatever order and also where calls are
-- refused, every timer is started at most once, and is cancelled or handed to the event loop at most once, never both,
-- and only after it was started; a timer that is pending has been neither.
pub run_ops-Accounts :
    (ops : List TimerOp) (s : Instance)
    → ((n : ℕ) → Accounts n s)
    → (n : ℕ) → Accounts n (run_ops ops s)
run_ops-Accounts [] s a n = a n
run_ops-Accounts (op ∷ ops) s a n = run_ops-Accounts ops (run_op op s) (run_op-Accounts op s a) n
