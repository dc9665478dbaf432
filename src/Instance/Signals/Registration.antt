-- ===== src/Instance/Signals/Registration.antt =====
-- A signal handler is set or removed: what it is handed, and what still waits.
use mathlib.Core.List.{append-nil}
use temporalio_sdk_python.Common.{
  ◌++◌, true, false, Option, none, some, List, [], String, ◌≡◌, refl, sym, ap, subst, ◌∙◌, inl, inr,
  string_eq, ℕ_eq, option_eq, arith, if◌then◌else◌, ◌==◌, is_some, Bool-cases,
}
use temporalio_sdk_python.Common.Dict.{Dict, get, put, remove, get-put, get-remove}
use temporalio_sdk_python.Common.Result.{Result, ok}
use temporalio_sdk_python.Exceptions.{Exc}
use temporalio_sdk_python.Instance.State.{Instance, modify, ◌>>=◌, HandlerDefn, SignalWorkflow}
use temporalio_sdk_python.Instance.Guards.{IsWritable, assert-IsWritable}
use temporalio_sdk_python.Instance.Handlers.{Converters, has_name}
use temporalio_sdk_python.Instance.Signals.{
  all_jobs, jobs_of, buffered, find_handler, Handler, signal_definition,
  workflow_set_signal_handler,
}
use temporalio_sdk_python.Instance.Signals.Handed.{Decodes, delivered, items_of}
use temporalio_sdk_python.Instance.Signals.Delivery.{
  set_handler_delivers, set_dynamic_handler_delivers,
}
use temporalio_sdk_python.Instance.Signals.Buffer.{
  named, with_handler, jobs_in-with_handler, inputs_of-with_handler, Filed, named-AllNamed,
  named-all_jobs, AllNamed-jobs_of, Filed-remove,
}
use temporalio_sdk_python.Instance.Signals.Served.{AllServed, named-AllServed, unnamed-AllServed}
use temporalio_sdk_python.Instance.Signals.Steps.{
  run_op, IsSettled, Steps, Steps-result, set_handler,
}

remove_state : Option String → Instance → Instance
remove_state name s = record s { signals = remove s.signals name }

unset_handler :
    (c : Converters) (name : Option String) (s : Instance)
    → IsWritable s
    → workflow_set_signal_handler c name none s ≡ (ok tt, remove_state name s)
unfolding workflow_set_signal_handler remove_state
unset_handler c name s w =
    ap
      (λ (p : Result Exc (Unit {0}) × Instance).
        ◌>>=◌ (λ _. p) (λ _. modify (λ u. record u { signals = remove u.signals name })) s)
      (assert-IsWritable "set signal handler" false s w)

unset-Steps :
    (c : Converters) (name : Option String) (s : Instance)
    → IsSettled s
    → Steps c (set_handler name none) s (remove_state name s)
unfolding remove_state
unset-Steps c name s w = record {
  settled = record {
    is_open = record { writable = w.is_open.writable; fresh = w.is_open.fresh };
    filed = w.filed;
    idle = λ n h.
        w.idle n
          (ground (arith, get-remove s.signals name (some n), get-remove s.signals name none));
  };
  handed = [];
  served = tt;
  log = sym (append-nil (delivered s));
  order = λ n. sym (append-nil (buffered s n));
}

idle-put :
    (signals : Dict (Option String) HandlerDefn) (name n : String) (defn : HandlerDefn)
    (jobs : List SignalWorkflow)
    → is_some (find_handler (put signals (some name) defn) n) ≡ true
    → (is_some (find_handler signals n) ≡ true → jobs ≡ [])
    → (if name == n then [] else jobs) ≡ []
idle-put signals name n defn jobs h i = elim (Bool-cases (name == n)) [
  | inl e ↦ rw e refl
  | inr e ↦ rw e (
      i (
        ground (
          arith,
          get-put signals (some name) (some n) defn,
          get-put signals (some name) none defn,
        )))
]

-- What leaves the buffer of a name is what is handed over.
moved :
    (name n : String) (b : Dict String (List SignalWorkflow)) (left : List SignalWorkflow)
    → Filed b
    → left ≡ (if name == n then [] else jobs_of b n)
    → named n (jobs_of b name) ++ left ≡ jobs_of b n
moved name n b left f e =
    ap (λ l. l ++ left) (named-AllNamed name n (jobs_of b name) (AllNamed-jobs_of name b f))
    ∙ ap (λ l. (if name == n then jobs_of b name else []) ++ l) e
    ∙ (elim (Bool-cases (name == n)) [
      | inl t ↦
          ap (λ x. (if x then jobs_of b name else []) ++ (if x then [] else jobs_of b n)) t
          ∙ append-nil (jobs_of b name)
          ∙ ap (jobs_of b) ((string_eq.same_iff name n).0 t)
      | inr t ↦ ap (λ x. (if x then jobs_of b name else []) ++ (if x then [] else jobs_of b n)) t
    ])

-- Setting a handler hands it signals that waited.
set-Steps :
    (c : Converters) (name : Option String) (h : Option Handler) (s t : Instance)
    (defn : HandlerDefn) (jobs : List SignalWorkflow)
    → IsSettled t
    → AllServed t.signals (with_handler defn jobs)
    → delivered t ≡ delivered s ++ items_of c defn jobs
    → ((n : String) → named n jobs ++ buffered t n ≡ buffered s n)
    → Steps c (set_handler name h) s t
set-Steps c name h s t defn jobs w v l k = record {
  settled = w;
  handed = with_handler defn jobs;
  served = v;
  log = l ∙ ap (λ x. delivered s ++ x) (sym (inputs_of-with_handler c defn jobs));
  order = λ n.
      ap (λ x. named n x ++ buffered t n) (jobs_in-with_handler defn jobs)
      ∙ k n
      ∙ sym (append-nil (buffered s n));
}

get-put_same :
    (signals : Dict (Option String) HandlerDefn) (k : Option String) (defn : HandlerDefn)
    → get (put signals k defn) k ≡ some defn
get-put_same signals k defn =
    get-put signals k k defn
    ∙ ap (λ b. if b then some defn else get signals k) ((option_eq.same_iff k k).1 refl)

named-Steps :
    (c : Converters) (name : String) (h : Handler) (s : Instance)
    → Decodes c
    → IsSettled s
    → has_name (some name) ≡ true
    → Steps c (set_handler (some name) (some h)) s (run_op c (set_handler (some name) (some h)) s)
named-Steps c name h s d w e =
    let (t, p, l, k, o, g, b) = set_handler_delivers c name h s d w.is_open e in
    let defn = signal_definition (some name) h in
    Steps-result c (set_handler (some name) (some h)) s t
      (workflow_set_signal_handler c (some name) (some h) s) p
      (set-Steps c (some name) (some h) s t defn (buffered s name)
        (record {
          is_open = o;
          filed = subst Filed (sym b) (Filed-remove s.buffered_signals name w.filed);
          idle = λ n x.
              k n
              ∙ idle-put s.signals name n defn (buffered s n)
                  (ap (λ y. is_some (find_handler y n)) (sym g) ∙ x) (w.idle n);
        })
        (named-AllServed t.signals defn name (buffered s name)
          (ap (λ y. get y (some name)) g ∙ get-put_same s.signals (some name) defn)
          (AllNamed-jobs_of name s.buffered_signals w.filed))
        l (λ n. moved name n s.buffered_signals (buffered t n) w.filed (k n)))

unnamed-Steps :
    (c : Converters) (name : Option String) (h : Handler) (s : Instance)
    → Decodes c
    → IsSettled s
    → has_name name ≡ false
    → Steps c (set_handler name (some h)) s (run_op c (set_handler name (some h)) s)
unfolding get
unnamed-Steps c name h s d w e =
    let (t, p, l, b, o, g) = set_dynamic_handler_delivers c name h s d w.is_open e in
    let defn = signal_definition name h in
    Steps-result c (set_handler name (some h)) s t (workflow_set_signal_handler c name (some h) s) p
      (set-Steps c name (some h) s t defn (all_jobs s.buffered_signals)
        (record {
          is_open = o;
          filed = subst Filed (sym b) tt;
          idle = λ n x. ap (λ y. jobs_of y n) b;
        })
        (unnamed-AllServed t.signals defn name (all_jobs s.buffered_signals)
          (ap (λ y. get y name) g ∙ get-put_same s.signals name defn) e)
        l
        (λ n.
          ap (λ y. named n (all_jobs s.buffered_signals) ++ jobs_of y n) b
          ∙ append-nil (named n (all_jobs s.buffered_signals))
          ∙ named-all_jobs n s.buffered_signals w.filed))

pub set_handler-Steps :
    (c : Converters) (name : Option String) (h : Option Handler) (s : Instance)
    → Decodes c
    → IsSettled s
    → Steps c (set_handler name h) s (run_op c (set_handler name h) s)
set_handler-Steps c name none s d w =
    Steps-result c (set_handler name none) s (remove_state name s)
      (workflow_set_signal_handler c name none s) (unset_handler c name s w.is_open.writable)
      (unset-Steps c name s w)
set_handler-Steps c none (some h) s d w = unnamed-Steps c none h s d w refl
set_handler-Steps c (some name) (some h) s d w = elim (Bool-cases (has_name (some name))) [
  | inl e ↦ named-Steps c name h s d w e
  | inr e ↦ unnamed-Steps c (some name) h s d w e
]
