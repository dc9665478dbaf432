-- ===== src/Instance/Signals/Delivery.antt =====
-- Buffered signals: when they wait, and how they are delivered.
use temporalio_sdk_python.Common.{
  true, false, Option, none, some, List, [], ◌∷◌, ◌++◌, String, ◌≡◌, refl, ap, ◌∙◌, string_eq, ℕ_eq,
  option_eq, arith, if◌then◌else◌, ◌==◌,
}
use temporalio_sdk_python.Common.Dict.{Dict, put, remove, get-remove}
use temporalio_sdk_python.Common.Result.{Result, ok}
use temporalio_sdk_python.Exceptions.{Exc}
use temporalio_sdk_python.Instance.State.{
  Instance, Action, gets, modify, ◌>>=◌, ◌>>◌, HandlerDefn, SignalWorkflow,
}
use temporalio_sdk_python.Instance.Guards.{IsWritable, assert-IsWritable}
use temporalio_sdk_python.Instance.Handlers.{Converters, has_name}
use temporalio_sdk_python.Instance.Signals.{
  process_all, all_jobs, jobs_of, buffered, find_handler, apply_signal_workflow, deliver_or_buffer,
  Handler, signal_definition, flush_buffer, workflow_set_signal_handler,
}
use temporalio_sdk_python.Instance.Signals.Handed.{
  delivered, IsOpen, Decodes, args_of, begun, begun-Delivers, process_signal_job-begun, items_of,
  process_all-Delivers,
}

jobs_of-remove :
    (b : Dict String (List SignalWorkflow)) (k j : String)
    → jobs_of (remove b k) j ≡ (if k == j then [] else jobs_of b j)
jobs_of-remove b k j = ground (arith, get-remove b k j)

flush-named :
    (c : Converters) (name : String) (defn : HandlerDefn) (s : Instance)
    → has_name (some name) ≡ true
    → flush_buffer c (some name) defn s
      ≡ process_all c defn
          (buffered s name)
          (record s { buffered_signals = remove s.buffered_signals name })
flush-named c name defn s n = rw n refl

abbrev defined : Option String → Handler → Instance → Instance
defined name h s = record s { signals = put s.signals name (signal_definition name h) }

set_handler-flush :
    (c : Converters) (name : Option String) (h : Handler) (s : Instance)
    → IsWritable s
    → workflow_set_signal_handler c name (some h) s
      ≡ flush_buffer c name (signal_definition name h) (defined name h s)
unfolding workflow_set_signal_handler
set_handler-flush c name h s w =
    ap
      (λ (p : Result Exc (Unit {0}) × Instance).
        ◌>>=◌ (λ _. p)
          (λ _. modify (defined name h) >> flush_buffer c name (signal_definition name h)) s)
      (assert-IsWritable "set signal handler" false s w)

-- Setting a handler for a name hands over the signals that were buffered under the name, each once, in the order of
-- their arrival, leaves none of them in the buffer, and leaves the other names' signals there; the handler is
-- registered.
pub set_handler_delivers :
    (c : Converters) (name : String) (h : Handler) (s : Instance)
    → Decodes c
    → IsOpen s
    → has_name (some name) ≡ true
    → (t : Instance) × (workflow_set_signal_handler c (some name) (some h) s ≡ (ok tt, t))
      × (delivered t
          ≡ delivered s ++ items_of c (signal_definition (some name) h) (buffered s name))
      × ((other_name : String)
          → buffered t other_name ≡ (if name == other_name then [] else buffered s other_name))
      × IsOpen t
      × (t.signals ≡ put s.signals (some name) (signal_definition (some name) h))
      × (t.buffered_signals ≡ remove s.buffered_signals name)
set_handler_delivers c name h s d o n =
    let defn = signal_definition (some name) h in
    let s1 = record s {
      signals = put s.signals (some name) defn;
      buffered_signals = remove s.buffered_signals name;
    } in
    let o1 : IsOpen s1 = record { writable = o.writable; fresh = o.fresh } in
    let (t, e, p) = process_all-Delivers c defn (buffered s name) s1 d o1 in
    (
      t,
      set_handler-flush c (some name) h s o.writable
          ∙ flush-named c name defn (defined (some name) h s) n
          ∙ e,
      p.log,
      λ j. ap (λ b. jobs_of b j) p.buffer ∙ jobs_of-remove s.buffered_signals name j,
      p.open_still,
      p.signals,
      p.buffer,
    )

abbrev flush_all : Converters → HandlerDefn → Action Unit
flush_all c defn = do
  jobs ← gets (λ s. all_jobs s.buffered_signals)
  process_all c defn jobs
  modify (λ s. record s { buffered_signals = [] })

flush-unnamed :
    (c : Converters) (name : Option String) (defn : HandlerDefn) (s : Instance)
    → has_name name ≡ false
    → flush_buffer c name defn s ≡ flush_all c defn s
flush-unnamed c none defn s n = refl
flush-unnamed c (some name) defn s n = rw n refl

pub set_dynamic_handler_delivers :
    (c : Converters) (name : Option String) (h : Handler) (s : Instance)
    → Decodes c
    → IsOpen s
    → has_name name ≡ false
    → (t : Instance) × (workflow_set_signal_handler c name (some h) s ≡ (ok tt, t))
      × (delivered t
          ≡ delivered s ++ items_of c (signal_definition name h) (all_jobs s.buffered_signals))
      × (t.buffered_signals ≡ [])
      × IsOpen t
      × (t.signals ≡ put s.signals name (signal_definition name h))
set_dynamic_handler_delivers c name h s d o n =
    let defn = signal_definition name h in
    let s1 = record s { signals = put s.signals name defn } in
    let o1 : IsOpen s1 = record { writable = o.writable; fresh = o.fresh } in
    let (t, e, p) = process_all-Delivers c defn (all_jobs s.buffered_signals) s1 d o1 in
    (
      record t { buffered_signals = [] },
      set_handler-flush c name h s o.writable
          ∙ flush-unnamed c name defn (defined name h s) n
          ∙ ap
              (λ (q : Result Exc (Unit {0}) × Instance).
                ◌>>=◌ (λ _. q) (λ _. modify (λ (u : Instance). record u { buffered_signals = [] }))
                  s)
              e,
      p.log,
      refl,
      record { writable = p.open_still.writable; fresh = p.open_still.fresh },
      p.signals,
    )

-- A signal with a handler, its own or the dynamic one, is handed over at once; nothing else changes for signals.
pub apply_signal-handled :
    (c : Converters) (job : SignalWorkflow) (defn : HandlerDefn) (s : Instance)
    → Decodes c
    → IsOpen s
    → find_handler s.signals job.signal_name ≡ some defn
    → (t : Instance) × (apply_signal_workflow c job s ≡ (ok tt, t))
      × (delivered t ≡ delivered s ++ (job.signal_name, args_of c defn job) ∷ [])
      × IsOpen t
      × (t.signals ≡ s.signals)
      × (t.buffered_signals ≡ s.buffered_signals)
unfolding apply_signal_workflow
apply_signal-handled c job defn s d o e =
    let p = begun-Delivers defn job.signal_name (args_of c defn job) s o in
    (
      begun defn job.signal_name (args_of c defn job) s,
      ap (λ o'. deliver_or_buffer c job o' s) e
          ∙ process_signal_job-begun c defn job s d o.writable,
      p.log,
      p.open_still,
      p.signals,
      p.buffer,
    )

-- A signal without a handler waits behind those of its name.
pub apply_signal-buffered :
    (c : Converters) (job : SignalWorkflow) (s : Instance)
    → find_handler s.signals job.signal_name ≡ none
    → apply_signal_workflow c job s ≡ (
      ok tt,
      record s {
        buffered_signals =
            put s.buffered_signals job.signal_name (buffered s job.signal_name ++ job ∷ []);
      },
    )
unfolding apply_signal_workflow
apply_signal-buffered c job s e = ap (λ o. deliver_or_buffer c job o s) e
