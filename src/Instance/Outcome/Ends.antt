-- ===== src/Instance/Outcome/Ends.antt =====
-- How the workflow function ends: by one completion command, or by one error that fails the task.
use temporalio_sdk_python.Common.{
  ap, ◌∙◌, ◌&&◌, ℕ, ◌+◌, Bool, true, false, none, some, List, [], ◌∷◌, ◌++◌, String, ◌≡◌, refl,
  string_eq, ℕ_eq, option_eq, arith, if◌then◌else◌, is_some,
}
use temporalio_sdk_python.Common.Result.{Result, ok, err}
use temporalio_sdk_python.Payload.{Payload, Value}
use temporalio_sdk_python.Exceptions.{
  Exc, Failure, failure_error, asyncio_cancelled, continue_as_new, no_cause, cancelled_error,
  is_cancelled_exception,
}
use temporalio_sdk_python.Instance.State.{
  Instance, Action, Command, complete_workflow, continue_as_new_workflow, fail_workflow,
  cancel_workflow,
}
use temporalio_sdk_python.Instance.Guards.{IsWritable}
use temporalio_sdk_python.Instance.Handlers.{Converters}
use temporalio_sdk_python.Instance.Outcome.{
  FailureTypes, optional_payloads, temporal_cancelled, catchable, end_by, end_by_error,
  run_top_level, run_workflow,
}

-- `is_completion` of `activate`
abbrev pub is_completion : Command → Bool
is_completion (complete_workflow p) = true
is_completion (continue_as_new_workflow ps) = true
is_completion (fail_workflow f) = true
is_completion cancel_workflow = true
is_completion _ = false

abbrev pub completions : List Command → ℕ
completions [] = 0
completions (c ∷ cs) = (if is_completion c then 1 else 0) + completions cs

abbrev pub pending_errors : Instance → ℕ
pending_errors s = if is_some s.activation_error then 1 else 0

-- The ways in which the run of a workflow has been told to end.
abbrev pub endings : Instance → ℕ
endings s = completions s.commands + pending_errors s

completions-append :
    (xs ys : List Command) → completions (xs ++ ys) ≡ completions xs + completions ys
completions-append [] ys = omega arith
completions-append (x ∷ xs) ys = omega (arith, completions-append xs ys)

-- The converters do not raise.
pub record Converts (c : Converters) : Type 0 where
  pub failures : (e : Exc) → (f : Failure) × (c.to_failure e ≡ ok f)
  pub payloads : (vs : List Value) → (ps : List Payload) × (c.to_payloads vs ≡ ok ps)

-- What the handlers of `_run_top_level_workflow_function` catch.
abbrev pub is_caught : Exc → Bool
is_caught (continue_as_new args) = true
is_caught e = catchable e

optional_payloads-ok :
    (c : Converters) (vs : List Value)
    → Converts c
    → (ps : List Payload) × (optional_payloads c vs ≡ ok ps)
optional_payloads-ok c [] h = ([], refl)
optional_payloads-ok c (v ∷ vs) h = h.payloads (v ∷ vs)

end_by_error-once :
    (c : Converters) (types : FailureTypes) (e : Exc) (s : Instance)
    → Converts c
    → IsWritable s
    → s.activation_error ≡ none
    → ((end_by_error c types e s).0 ≡ ok tt)
      × (endings (end_by_error c types e s).1 ≡ endings s + 1)
unfolding end_by_error
end_by_error-once c types e s h w n =
    let (f, ef) = h.failures e in
    ground (
      arith,
      completions-append s.commands (cancel_workflow ∷ []),
      completions-append s.commands (fail_workflow (some f) ∷ []),
    )

-- An exception of the workflow function or of a signal handler, if the converters do not raise, ends the run in one
-- way: by one completion command, or as the error of the activation. While the instance is deleted it does nothing.
pub end_by-once :
    (c : Converters) (types : FailureTypes) (e : Exc) (s : Instance)
    → Converts c
    → is_caught e ≡ true
    → s.activation_error ≡ none
    → (IsWritable s
        → ((end_by c types e s).0 ≡ ok tt) × (endings (end_by c types e s).1 ≡ endings s + 1))
      × (s.deleting ≡ true → (end_by c types e s).1 ≡ s)
unfolding end_by
end_by-once c types (continue_as_new args) s h k n =
    let (ps, ep) = optional_payloads-ok c args h in
    (
      λ w. ground (arith, completions-append s.commands (continue_as_new_workflow ps ∷ [])),
      λ d. ground arith,
    )
end_by-once c types e s h k n = (
  λ w. ground (arith, end_by_error-once c types (temporal_cancelled e) s h w n),
  λ d. ground arith,
)

-- Asyncio's cancellation, reaching the top of the workflow function, ends the workflow: as cancelled if a cancellation
-- was requested, as failed otherwise. It never fails the task.
pub end_by-asyncio_cancelled :
    (c : Converters) (types : FailureTypes) (t : String) (s : Instance)
    → Converts c
    → IsWritable s
    → let u = (end_by c types (asyncio_cancelled t) s).1 in
      (u.activation_error ≡ s.activation_error)
      × ((f : Failure) × (u.commands
            ≡ s.commands
              ++ (if s.cancel_requested then cancel_workflow else fail_workflow (some f)) ∷ []))
unfolding end_by end_by_error is_cancelled_exception
end_by-asyncio_cancelled c types t s h w =
    let e = failure_error (cancelled_error []) t none "" no_cause no_cause in
    let (f, ef) = h.failures e in (ground arith, (f, ground arith))

-- If the arguments of a continue-as-new cannot be converted, the exception leaves the handler: there is no completion
-- command and no error of the activation.
end_by-unconverted :
    (c : Converters) (types : FailureTypes) (v : Value) (vs : List Value) (x : Exc) (s : Instance)
    → c.to_payloads (v ∷ vs) ≡ err x
    → end_by c types (continue_as_new (v ∷ vs)) s ≡ (err x, s)
unfolding end_by
end_by-unconverted c types v vs x s e = ground arith

-- What a workflow's code may raise here: no exception that passes the handlers by.
abbrev pub CaughtOnly : Result Exc Value → Type 0
CaughtOnly (ok v) = Unit {0}
CaughtOnly (err e) = is_caught e ≡ true

-- One payload for one value.
abbrev pub OnePayload : Converters → Type 0
OnePayload c = (v : Value) → (p : Payload) × (c.to_payloads (v ∷ []) ≡ ok (p ∷ []))

run_from :
    (c : Converters) (types : FailureTypes) (p : Result Exc Value × Instance) (s : Instance)
    → Converts c
    → OnePayload c
    → CaughtOnly p.0
    → IsWritable p.1
    → p.1.activation_error ≡ none
    → let q = run_top_level c types (run_workflow c (λ _. p)) s in
      (q.0 ≡ ok tt) × (endings q.1 ≡ endings p.1 + 1)
unfolding run_top_level run_workflow
run_from c types (ok v, t) s h one k w n =
    let (x, e) = one v in ground (arith, completions-append t.commands (complete_workflow x ∷ []))
run_from c types (err e, t) s h one k w n = ground (arith, (end_by-once c types e t h k n).0 w)

-- The whole run of a workflow's code, whether it returns or raises, ends the run in exactly one way, if the converters
-- do not raise.
pub run_workflow-once :
    (c : Converters) (types : FailureTypes) (body : Action Value) (s : Instance)
    → Converts c
    → OnePayload c
    → CaughtOnly (body s).0
    → IsWritable (body s).1
    → (body s).1.activation_error ≡ none
    → let p = run_top_level c types (run_workflow c body) s in
      (p.0 ≡ ok tt) × (endings p.1 ≡ endings (body s).1 + 1)
unfolding run_top_level run_workflow
run_workflow-once c types body s = run_from c types (body s) s

and_false : (b : Bool) → (b && false) ≡ false
and_false true = refl
and_false false = refl

unconverted_from :
    (c : Converters) (types : FailureTypes) (v : Value) (vs : List Value) (x : Exc)
    (p : Result Exc Value × Instance) (s : Instance)
    → p.0 ≡ err (continue_as_new (v ∷ vs))
    → c.to_payloads (v ∷ vs) ≡ err x
    → run_top_level c types (run_workflow c (λ _. p)) s ≡ (err x, p.1)
unfolding run_top_level run_workflow
unconverted_from c types v vs x (r, t) s e h =
    ap (λ q. run_top_level c types (run_workflow c (λ _. (q, t))) s) e
    ∙ ap
        (λ b.
          run_top_level c types (λ _. (if b then ok tt else err (continue_as_new (v ∷ vs)), t)) s)
        (and_false t.deleting)
    ∙ end_by-unconverted c types v vs x t h

-- If a workflow continues as new with arguments that cannot be converted, its run does not end: the converter's
-- exception leaves the task, with neither a completion command nor an error of the activation.
pub run_workflow-unconverted :
    (c : Converters) (types : FailureTypes) (body : Action Value) (v : Value) (vs : List Value)
    (x : Exc) (s : Instance)
    → (body s).0 ≡ err (continue_as_new (v ∷ vs))
    → c.to_payloads (v ∷ vs) ≡ err x
    → let p = run_top_level c types (run_workflow c body) s in
      (p.0 ≡ err x) × (endings p.1 ≡ endings (body s).1)
unfolding run_top_level run_workflow
run_workflow-unconverted c types body v vs x s e h =
    let g = unconverted_from c types v vs x (body s) s e h in
    (
      ap (λ (q : Result Exc (Unit {0}) × Instance). q.0) g,
      ap (λ (q : Result Exc (Unit {0}) × Instance). endings q.1) g,
    )
