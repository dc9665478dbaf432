-- ===== src/Instance/Signals/Steps.antt =====
-- Signals that arrive and handlers that are set, one step at a time.
use mathlib.Core.List.{append-nil}
use temporalio_sdk_python.Common.{
  Bool-cases, some, true, Option, none, List, [], ◌∷◌, ◌++◌, String, ◌≡◌, refl, sym, ap, subst, ◌∙◌,
  inl, inr, string_eq, ℕ_eq, option_eq, arith, if◌then◌else◌, ◌==◌, is_some, Option-cases,
}
use temporalio_sdk_python.Common.Dict.{Dict, put, get-put}
use temporalio_sdk_python.Common.Result.{Result, ok}
use temporalio_sdk_python.Exceptions.{Exc}
use temporalio_sdk_python.Instance.State.{Instance, HandlerDefn, SignalWorkflow}
use temporalio_sdk_python.Instance.Handlers.{Converters}
use temporalio_sdk_python.Instance.Signals.{
  jobs_of, buffered, find_handler, apply_signal_workflow, Handler, workflow_set_signal_handler,
}
use temporalio_sdk_python.Instance.Signals.Handed.{IsOpen, Decodes, delivered}
use temporalio_sdk_python.Instance.Signals.Delivery.{apply_signal-handled, apply_signal-buffered}
use temporalio_sdk_python.Instance.Signals.Served.{AllServed, find_handler-Serves}
use temporalio_sdk_python.Instance.Signals.Buffer.{
  named, jobs_in, inputs_of, Filed, AllNamed-snoc, AllNamed-jobs_of, Filed-put,
}

-- A signal arrives, or workflow code sets or removes a handler.
pub data SignalOp : Type 0 where
  arrive : SignalWorkflow → SignalOp
  set_handler : Option String → Option Handler → SignalOp

abbrev pub run_op : Converters → SignalOp → Instance → Instance
run_op c (arrive job) s = (apply_signal_workflow c job s).1
run_op c (set_handler name h) s = (workflow_set_signal_handler c name h s).1

abbrev pub run_ops : Converters → List SignalOp → Instance → Instance
run_ops c [] s = s
run_ops c (op ∷ ops) s = run_ops c ops (run_op c op s)

-- The signals of a name that arrive, in their order.
abbrev pub arrivals : String → List SignalOp → List SignalWorkflow
arrivals n [] = []
arrivals n (arrive job ∷ ops) =
    let rest = arrivals n ops in if job.signal_name == n then job ∷ rest else rest
arrivals n (set_handler m h ∷ ops) = arrivals n ops

pub arrivals-cons :
    (n : String) (op : SignalOp) (ops : List SignalOp)
    → arrivals n (op ∷ ops) ≡ arrivals n (op ∷ []) ++ arrivals n ops
arrivals-cons n (arrive job) ops = ground arith
arrivals-cons n (set_handler m h) ops = refl

-- What each call hands over goes to handlers that are registered after it.
abbrev pub HandedBy :
    Converters → List SignalOp → Instance → List (HandlerDefn × SignalWorkflow) → Type 0
HandedBy c [] s handed = handed ≡ []
HandedBy c (op ∷ ops) s handed =
    (now : List (HandlerDefn × SignalWorkflow)) × (later : List (HandlerDefn × SignalWorkflow))
    × (handed ≡ now ++ later)
    × AllServed (run_op c op s).signals now
    × HandedBy c ops (run_op c op s) later

-- The instance is open, its buffer is in order, and no signal waits for which there is a handler.
pub record IsSettled (s : Instance) : Type 0 where
  pub is_open : IsOpen s
  pub filed : Filed s.buffered_signals
  pub idle : (n : String) → is_some (find_handler s.signals n) ≡ true → buffered s n ≡ []

-- A call hands over signals to their handlers, with their inputs, and keeps what is handed over and what waits, in its order.
pub record Steps (c : Converters) (op : SignalOp) (s t : Instance) : Type 0 where
  pub settled : IsSettled t
  pub handed : List (HandlerDefn × SignalWorkflow)
  pub served : AllServed t.signals handed
  pub log : delivered t ≡ delivered s ++ inputs_of c handed
  pub order :
      (n : String) → named n (jobs_in handed) ++ buffered t n ≡ buffered s n ++ arrivals n (op ∷ [])

jobs_of-put :
    (b : Dict String (List SignalWorkflow)) (k j : String) (jobs : List SignalWorkflow)
    → jobs_of (put b k jobs) j ≡ (if k == j then jobs else jobs_of b j)
jobs_of-put b k j jobs = ground (arith, get-put b k j jobs)

buffer_state : SignalWorkflow → Instance → Instance
buffer_state job s = record s {
  buffered_signals =
      put s.buffered_signals job.signal_name (buffered s job.signal_name ++ job ∷ []);
}

arrival_order :
    (job : SignalWorkflow) (s : Instance) (n : String)
    → buffered (buffer_state job s) n ≡ buffered s n ++ arrivals n (arrive job ∷ [])
unfolding buffer_state
arrival_order job s n =
    jobs_of-put s.buffered_signals job.signal_name n (buffered s job.signal_name ++ job ∷ [])
    ∙ (elim (Bool-cases (job.signal_name == n)) [
      | inl e ↦
          let same : job.signal_name ≡ n = (string_eq.same_iff job.signal_name n).0 e in
          ap (λ b. if b then buffered s job.signal_name ++ job ∷ [] else buffered s n) e
          ∙ ap (λ m. buffered s m ++ job ∷ []) same
          ∙ ap (λ b. buffered s n ++ (if b then job ∷ [] else [])) (sym e)
      | inr e ↦
          ap (λ b. if b then buffered s job.signal_name ++ job ∷ [] else buffered s n) e
          ∙ sym (append-nil (buffered s n))
          ∙ ap (λ b. buffered s n ++ (if b then job ∷ [] else [])) (sym e)
    ])

buffered-Steps :
    (c : Converters) (job : SignalWorkflow) (s : Instance)
    → IsSettled s
    → find_handler s.signals job.signal_name ≡ none
    → Steps c (arrive job) s (buffer_state job s)
unfolding buffer_state
buffered-Steps c job s w e = record {
  settled = record {
    is_open = record { writable = w.is_open.writable; fresh = w.is_open.fresh };
    filed =
        Filed-put s.buffered_signals job.signal_name (buffered s job.signal_name ++ job ∷ [])
          w.filed
          (AllNamed-snoc job.signal_name (buffered s job.signal_name) job
            (AllNamed-jobs_of job.signal_name s.buffered_signals w.filed) refl);
    idle = λ n h. ground (
      arith,
      w.idle n,
      jobs_of-put s.buffered_signals job.signal_name n (buffered s job.signal_name ++ job ∷ []),
      string_eq.same_iff job.signal_name n,
    );
  };
  handed = [];
  served = tt;
  log = sym (append-nil (delivered s));
  order = λ n. arrival_order job s n;
}

pub Steps-result :
    (c : Converters) (op : SignalOp) (s t : Instance) (p : Result Exc (Unit {0}) × Instance)
    → p ≡ (ok tt, t)
    → Steps c op s t
    → Steps c op s p.1
Steps-result c op s t p e h =
    subst (λ (u : Instance). Steps c op s u)
      (sym (ap (λ (q : Result Exc (Unit {0}) × Instance). q.1) e)) h

-- A signal with a handler is handed over at once, since none of its name waits.
handled_order :
    (defn : HandlerDefn) (job : SignalWorkflow) (s : Instance) (n : String)
    → IsSettled s
    → find_handler s.signals job.signal_name ≡ some defn
    → named n (jobs_in ((defn, job) ∷ [])) ++ buffered s n
      ≡ buffered s n ++ arrivals n (arrive job ∷ [])
handled_order defn job s n w e = elim (Bool-cases (job.signal_name == n)) [
  | inl x ↦
      let same : job.signal_name ≡ n = (string_eq.same_iff job.signal_name n).0 x in
      let empty : buffered s n ≡ [] =
        w.idle n (ap (λ m. is_some (find_handler s.signals m)) (sym same) ∙ ap is_some e) in
      let here = if job.signal_name == n then job ∷ [] else [] in
      ap (λ l. here ++ l) empty ∙ append-nil here ∙ ap (λ l. l ++ here) (sym empty)
  | inr x ↦
      ap (λ b. (if b then job ∷ [] else []) ++ buffered s n) x
      ∙ sym (append-nil (buffered s n))
      ∙ ap (λ b. buffered s n ++ (if b then job ∷ [] else [])) (sym x)
]

pub arrive-Steps :
    (c : Converters) (job : SignalWorkflow) (s : Instance)
    → Decodes c
    → IsSettled s
    → Steps c (arrive job) s (run_op c (arrive job) s)
arrive-Steps c job s d w = elim (Option-cases (find_handler s.signals job.signal_name)) [
  | inl e ↦
      Steps-result c (arrive job) s (buffer_state job s) (apply_signal_workflow c job s)
        (unfold buffer_state in apply_signal-buffered c job s e) (buffered-Steps c job s w e)
  | inr (defn, e) ↦
      let (t, p, l, o, g, b) = apply_signal-handled c job defn s d w.is_open e in
      Steps-result c (arrive job) s t (apply_signal_workflow c job s) p (record {
        settled = record {
          is_open = o;
          filed = subst Filed (sym b) w.filed;
          idle = λ n h.
              ap (λ x. jobs_of x n) b ∙ w.idle n (ap (λ x. is_some (find_handler x n)) (sym g) ∙ h);
        };
        handed = (defn, job) ∷ [];
        served = (
          find_handler-Serves t.signals defn job.signal_name
              (ap (λ x. find_handler x job.signal_name) g ∙ e),
          tt,
        );
        log = l;
        order = λ n.
            ap (λ x. named n (jobs_in ((defn, job) ∷ [])) ++ jobs_of x n) b
            ∙ handled_order defn job s n w e;
      })
]
