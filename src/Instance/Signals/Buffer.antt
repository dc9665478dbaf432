-- ===== src/Instance/Signals/Buffer.antt =====
-- The buffer of signals and the signals that were handed over, name by name.
use temporalio_sdk_python.Common.{
  Option, some, sym, ap, ◌∙◌, inl, inr, Bool-cases, none, List, [], ◌∷◌, ◌++◌, String, ◌≡◌, refl,
  string_eq, ℕ_eq, option_eq, arith, if◌then◌else◌, ◌==◌,
}
use mathlib.Core.List.{append-nil}
use temporalio_sdk_python.Common.Dict.{Dict, get, put, remove, get-put, get-remove}
use temporalio_sdk_python.Payload.{Value}
use temporalio_sdk_python.Instance.State.{HandlerDefn, SignalWorkflow}
use temporalio_sdk_python.Instance.Handlers.{Converters}
use temporalio_sdk_python.Instance.Signals.{all_jobs, jobs_of}
use temporalio_sdk_python.Instance.Signals.Handed.{args_of, items_of}

-- The signals of a name, in their order.
abbrev pub named : String → List SignalWorkflow → List SignalWorkflow
named n [] = []
named n (job ∷ jobs) = let rest = named n jobs in if job.signal_name == n then job ∷ rest else rest

-- Signals that were handed over, each with the handler that it was given to.
abbrev pub jobs_in : List (HandlerDefn × SignalWorkflow) → List SignalWorkflow
jobs_in [] = []
jobs_in ((defn, job) ∷ handed) = job ∷ jobs_in handed

-- What the handlers get: the name, and the input as it is decoded for the handler.
abbrev pub inputs_of : Converters → List (HandlerDefn × SignalWorkflow) → List (String × List Value)
inputs_of c [] = []
inputs_of c ((defn, job) ∷ handed) = (job.signal_name, args_of c defn job) ∷ inputs_of c handed

abbrev pub with_handler : HandlerDefn → List SignalWorkflow → List (HandlerDefn × SignalWorkflow)
with_handler defn [] = []
with_handler defn (job ∷ jobs) = (defn, job) ∷ with_handler defn jobs

pub jobs_in-with_handler :
    (defn : HandlerDefn) (jobs : List SignalWorkflow) → jobs_in (with_handler defn jobs) ≡ jobs
jobs_in-with_handler defn [] = refl
jobs_in-with_handler defn (job ∷ jobs) = ap (λ l. job ∷ l) (jobs_in-with_handler defn jobs)

pub inputs_of-with_handler :
    (c : Converters) (defn : HandlerDefn) (jobs : List SignalWorkflow)
    → inputs_of c (with_handler defn jobs) ≡ items_of c defn jobs
inputs_of-with_handler c defn [] = refl
inputs_of-with_handler c defn (job ∷ jobs) =
    ap (λ l. (job.signal_name, args_of c defn job) ∷ l) (inputs_of-with_handler c defn jobs)

pub jobs_in-append :
    (xs ys : List (HandlerDefn × SignalWorkflow)) → jobs_in (xs ++ ys) ≡ jobs_in xs ++ jobs_in ys
jobs_in-append [] ys = refl
jobs_in-append ((defn, job) ∷ xs) ys = ap (λ l. job ∷ l) (jobs_in-append xs ys)

pub inputs_of-append :
    (c : Converters) (xs ys : List (HandlerDefn × SignalWorkflow))
    → inputs_of c (xs ++ ys) ≡ inputs_of c xs ++ inputs_of c ys
inputs_of-append c [] ys = refl
inputs_of-append c ((defn, job) ∷ xs) ys =
    ap (λ l. (job.signal_name, args_of c defn job) ∷ l) (inputs_of-append c xs ys)

pub named-append :
    (n : String) (xs ys : List SignalWorkflow) → named n (xs ++ ys) ≡ named n xs ++ named n ys
named-append n [] ys = refl
named-append n (x ∷ xs) ys = ground (arith, named-append n xs ys)

abbrev pub AllNamed : String → List SignalWorkflow → Type 0
AllNamed n [] = Unit {0}
AllNamed n (job ∷ jobs) = (job.signal_name ≡ n) × AllNamed n jobs

-- Every buffered signal is filed under its own name, and every name has one entry.
abbrev pub Filed : Dict String (List SignalWorkflow) → Type 0
Filed [] = Unit {0}
Filed ((n, jobs) ∷ rest) = AllNamed n jobs × (get rest n ≡ none) × Filed rest

pub named-AllNamed :
    (n m : String) (jobs : List SignalWorkflow)
    → AllNamed n jobs
    → named m jobs ≡ (if n == m then jobs else [])
named-AllNamed n m [] a = ground arith
named-AllNamed n m (job ∷ jobs) a = ground (arith, named-AllNamed n m jobs)

pub AllNamed-snoc :
    (n : String) (jobs : List SignalWorkflow) (job : SignalWorkflow)
    → AllNamed n jobs
    → job.signal_name ≡ n
    → AllNamed n (jobs ++ job ∷ [])
AllNamed-snoc n [] job a e = (e, tt)
AllNamed-snoc n (x ∷ jobs) job a e = (a.0, AllNamed-snoc n jobs job a.1 e)

abbrev or_nil : Option (List SignalWorkflow) → List SignalWorkflow
or_nil o = elim o [ none ↦ [] | some jobs ↦ jobs ]

-- All jobs of the buffer that have a name are the jobs filed under it, in their order.
pub named-all_jobs :
    (n : String) (b : Dict String (List SignalWorkflow))
    → Filed b
    → named n (all_jobs b) ≡ jobs_of b n
unfolding get
named-all_jobs n [] f = refl
named-all_jobs n ((m, jobs) ∷ b) f =
    named-append n jobs (all_jobs b)
    ∙ ap (λ l. l ++ named n (all_jobs b)) (named-AllNamed m n jobs f.0)
    ∙ ap (λ l. (if m == n then jobs else []) ++ l) (named-all_jobs n b f.2)
    ∙ (elim (Bool-cases (m == n)) [
      | inl e ↦
          let none_left : jobs_of b n ≡ [] =
            ap or_nil (ap (get b) (sym ((string_eq.same_iff m n).0 e)) ∙ f.1) in
          ap (λ l. (if m == n then jobs else []) ++ l) none_left
          ∙ ap (λ x. (if x then jobs else []) ++ []) e
          ∙ append-nil jobs
          ∙ ap (λ x. or_nil (if x then some jobs else get b n)) (sym e)
      | inr e ↦
          ap (λ x. (if x then jobs else []) ++ jobs_of b n) e
          ∙ ap (λ x. or_nil (if x then some jobs else get b n)) (sym e)
    ])

pub AllNamed-jobs_of :
    (n : String) (b : Dict String (List SignalWorkflow)) → Filed b → AllNamed n (jobs_of b n)
unfolding get
AllNamed-jobs_of n [] f = tt
AllNamed-jobs_of n ((m, jobs) ∷ b) f =
    ground (arith, AllNamed-jobs_of n b f.2, string_eq.same_iff m n)

pub Filed-remove :
    (b : Dict String (List SignalWorkflow)) (k : String) → Filed b → Filed (remove b k)
unfolding remove
Filed-remove [] k f = tt
Filed-remove ((m, jobs) ∷ b) k f = ground (arith, Filed-remove b k f.2, get-remove b k m)

pub Filed-put :
    (b : Dict String (List SignalWorkflow)) (k : String) (jobs : List SignalWorkflow)
    → Filed b
    → AllNamed k jobs
    → Filed (put b k jobs)
unfolding put get
Filed-put [] k jobs f a = (a, refl, tt)
Filed-put ((m, old) ∷ b) k jobs f a = ground (
  arith,
  Filed-put b k jobs f.2,
  get-put b k m jobs,
  string_eq.same_iff m k,
  string_eq.same_iff k m,
)
