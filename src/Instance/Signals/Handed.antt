-- ===== src/Instance/Signals/Handed.antt =====
-- What handing signals over to a handler does to the instance.
use temporalio_sdk_python.Common.{
  ℕ, ◌+◌, ◌≤◌, Option, none, some, List, [], ◌∷◌, ◌++◌, String, ◌≡◌, refl, sym, ap, ◌∙◌, inl, inr,
  string_eq, ℕ_eq, option_eq, arith, Bool-cases,
}
use mathlib.Core.List.{append_assoc, append-nil}
use temporalio_sdk_python.Common.Dict.{Dict, get, put, get-put}
use temporalio_sdk_python.Common.Result.{Result, ok, err}
use temporalio_sdk_python.Payload.{Payload, Value, seq, values}
use temporalio_sdk_python.Exceptions.{Exc}
use temporalio_sdk_python.Instance.State.{
  Instance, ◌>>=◌, task_step, Work, HandlerDefn, SignalWorkflow,
}
use temporalio_sdk_python.Instance.Guards.{IsWritable}
use temporalio_sdk_python.Instance.Handlers.{
  Converters, convert_payloads, process_handler_args, has_name, hints, rename_error, raw_types,
  without_first, with_name, with_name_and_list,
}
use temporalio_sdk_python.Instance.Signals.{
  start_signal, signal_outcome, process_signal_job, process_all,
}

abbrev pub log : Dict ℕ Work → List (String × List Value)
log [] = []
log ((k, Work.handle_signal id name args) ∷ rest) = (name, args) ∷ log rest
log ((k, w) ∷ rest) = log rest

abbrev pub delivered : Instance → List (String × List Value)
delivered s = log s.tasks

-- The instance may act, and no task has the next number.
pub record IsOpen (s : Instance) : Type 0 where
  pub writable : IsWritable s
  pub fresh : (k : ℕ) → s.next_task ≤ k → get s.tasks k ≡ none

-- The payload converter decodes whatever it is given.
abbrev pub Decodes : Converters → Type 0
Decodes c =
    (ps : List Payload) (ts : Option (List String))
    → (vs : List Value) × (c.from_payloads ps ts ≡ ok vs)

log-put :
    (d : Dict ℕ Work) (k : ℕ) (w : Work)
    → get d k ≡ none
    → log (put d k w) ≡ log d ++ log ((k, w) ∷ [])
unfolding get put
log-put [] k w h = refl
log-put ((j, Work.handle_signal i n a) ∷ d) k w h = ground (arith, log-put d k w)
log-put ((j, _) ∷ d) k w h = ground (arith, log-put d k w)

abbrev or_empty : Result Exc (List Value) → List Value
or_empty (ok vs) = vs
or_empty (err e) = []

-- the arguments that a handler gets for a job
abbrev pub args_of : Converters → HandlerDefn → SignalWorkflow → List Value
args_of c defn job = or_empty (process_handler_args c job.signal_name job.input defn)

convert_payloads-ok :
    (c : Converters) (ps : List Payload) (ts : Option (List String))
    → Decodes c
    → (vs : List Value) × (convert_payloads c ps ts ≡ ok vs)
unfolding convert_payloads
convert_payloads-ok c [] ts d = ([], refl)
convert_payloads-ok c (p ∷ ps) ts d =
    let (vs, e) = d (p ∷ ps) (hints ts (p ∷ ps)) in (vs, ap rename_error e)

process_handler_args-ok :
    (c : Converters) (name : String) (input : List Payload) (defn : HandlerDefn)
    → Decodes c
    → (vs : List Value) × (process_handler_args c name input defn ≡ ok vs)
unfolding process_handler_args
process_handler_args-ok c name input defn d = elim (Bool-cases (has_name defn.name)) [
  | inl e ↦ let (vs, f) = convert_payloads-ok c input defn.arg_types d in (vs, rw e f)
  | inr e ↦ elim (Bool-cases defn.dynamic_vararg) [
    | inl v ↦
        let (vs, f) = convert_payloads-ok c input (without_first defn.arg_types) d in
        (Value.text name ∷ vs, rw (e, v) (ap (with_name name) f))
    | inr v ↦
        let (vs, f) = convert_payloads-ok c input (some (raw_types input)) d in
        (Value.text name ∷ seq (values vs) ∷ [], rw (e, v) (ap (with_name_and_list name) f))
  ]
]

args-ok :
    (c : Converters) (defn : HandlerDefn) (job : SignalWorkflow)
    → Decodes c
    → process_handler_args c job.signal_name job.input defn ≡ ok (args_of c defn job)
args-ok c defn job d =
    let (vs, e) = process_handler_args-ok c job.signal_name job.input defn d in
    e ∙ ap (λ r. ok (or_empty r)) (sym e)

-- What handing over signals does to the instance.
pub record Delivers (s t : Instance) (items : List (String × List Value)) : Type 0 where
  pub open_still : IsOpen t
  pub signals : t.signals ≡ s.signals
  pub buffer : t.buffered_signals ≡ s.buffered_signals
  pub log : delivered t ≡ delivered s ++ items

abbrev pub begun : HandlerDefn → String → List Value → Instance → Instance
begun defn name args s =
    let id = s.handled_signals_seq + 1 in
    record s {
      handled_signals_seq = id;
      in_progress_signals =
          put s.in_progress_signals id
            (record { name = name; unfinished_policy = defn.unfinished_policy; id = none });
      next_task = s.next_task + 1;
      ready = s.ready ++ task_step s.next_task ∷ [];
      tasks = put s.tasks s.next_task (Work.handle_signal id name args);
    }

start_signal-begun :
    (defn : HandlerDefn) (name : String) (args : List Value) (s : Instance)
    → IsWritable s
    → start_signal defn name args s ≡ (ok tt, begun defn name args s)
unfolding start_signal
start_signal-begun defn name args s w = ground arith

pub begun-Delivers :
    (defn : HandlerDefn) (name : String) (args : List Value) (s : Instance)
    → IsOpen s
    → Delivers s (begun defn name args s) ((name, args) ∷ [])
begun-Delivers defn name args s o = record {
  open_still = record {
    writable = o.writable;
    fresh = λ k h. ground (
      arith,
      o.fresh k,
      get-put s.tasks s.next_task k (Work.handle_signal (s.handled_signals_seq + 1) name args),
    );
  };
  signals = refl;
  buffer = refl;
  log =
      log-put s.tasks s.next_task (Work.handle_signal (s.handled_signals_seq + 1) name args)
        (o.fresh s.next_task (omega arith));
}

pub process_signal_job-begun :
    (c : Converters) (defn : HandlerDefn) (job : SignalWorkflow) (s : Instance)
    → Decodes c
    → IsWritable s
    → process_signal_job c defn job s ≡ (ok tt, begun defn job.signal_name (args_of c defn job) s)
unfolding process_signal_job
process_signal_job-begun c defn job s d w =
    ap (λ r. signal_outcome defn job r s) (args-ok c defn job d)
    ∙ start_signal-begun defn job.signal_name (args_of c defn job) s w

abbrev pub items_of : Converters → HandlerDefn → List SignalWorkflow → List (String × List Value)
items_of c defn [] = []
items_of c defn (job ∷ jobs) = (job.signal_name, args_of c defn job) ∷ items_of c defn jobs

Delivers-trans :
    {s t u : Instance} {xs ys : List (String × List Value)}
    → Delivers s t xs
    → Delivers t u ys
    → Delivers s u (xs ++ ys)
Delivers-trans {s} {t} {u} {xs} {ys} p q = record {
  open_still = q.open_still;
  signals = q.signals ∙ p.signals;
  buffer = q.buffer ∙ p.buffer;
  log = rw (q.log, p.log) (append_assoc (delivered s) xs ys);
}

-- The loop returns, and hands over each job once, in order.
pub process_all-Delivers :
    (c : Converters) (defn : HandlerDefn) (jobs : List SignalWorkflow) (s : Instance)
    → Decodes c
    → IsOpen s
    → (t : Instance) × (process_all c defn jobs s ≡ (ok tt, t))
      × Delivers s t (items_of c defn jobs)
unfolding process_all
process_all-Delivers c defn [] s d o = (
  s,
  refl,
  record { open_still = o; signals = refl; buffer = refl; log = sym (append-nil (delivered s)) },
)
process_all-Delivers c defn (job ∷ jobs) s d o =
    let first = begun-Delivers defn job.signal_name (args_of c defn job) s o in
    let (t, e, rest) =
      process_all-Delivers c defn jobs (begun defn job.signal_name (args_of c defn job) s) d
        first.open_still in
    (
      t,
      ap (λ (p : Result Exc (Unit {0}) × Instance). ◌>>=◌ (λ _. p) (λ _. process_all c defn jobs) s)
            (process_signal_job-begun c defn job s d o.writable)
          ∙ e,
      Delivers-trans first rest,
    )
