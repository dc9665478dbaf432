-- ===== src/Instance/Signals/Served.antt =====
-- Signals go to their own handler, or to one without a name.
use temporalio_sdk_python.Common.{
  false, Option, none, some, List, [], ◌∷◌, String, ◌≡◌, refl, sym, ap, ◌⊎◌, inl, inr, Option-cases,
  string_eq, ℕ_eq, option_eq, arith,
}
use temporalio_sdk_python.Common.Dict.{Dict, get}
use temporalio_sdk_python.Instance.State.{HandlerDefn, SignalWorkflow}
use temporalio_sdk_python.Instance.Handlers.{has_name}
use temporalio_sdk_python.Instance.Signals.{find_handler}
use temporalio_sdk_python.Instance.Signals.Buffer.{with_handler, AllNamed}

-- A handler that is registered for a name, or without one.
abbrev pub Serves : Dict (Option String) HandlerDefn → HandlerDefn → String → Type 0
Serves signals defn n =
    (k : Option String) × (get signals k ≡ some defn) × ((k ≡ some n) ⊎ (has_name k ≡ false))

abbrev pub AllServed :
    Dict (Option String) HandlerDefn → List (HandlerDefn × SignalWorkflow) → Type 0
AllServed signals [] = Unit {0}
AllServed signals ((defn, job) ∷ handed) =
    Serves signals defn job.signal_name × AllServed signals handed

pub find_handler-Serves :
    (signals : Dict (Option String) HandlerDefn) (defn : HandlerDefn) (n : String)
    → find_handler signals n ≡ some defn
    → Serves signals defn n
find_handler-Serves signals defn n e = elim (Option-cases (get signals (some n))) [
  | inl none_here ↦ (none, ground arith, inr refl)
  | inr (d, here) ↦ (some n, ground arith, inl refl)
]

pub named-AllServed :
    (signals : Dict (Option String) HandlerDefn) (defn : HandlerDefn) (name : String)
    (jobs : List SignalWorkflow)
    → get signals (some name) ≡ some defn
    → AllNamed name jobs
    → AllServed signals (with_handler defn jobs)
named-AllServed signals defn name [] e a = tt
named-AllServed signals defn name (job ∷ jobs) e a =
    ((some name, e, inl (ap (λ n. some n) (sym a.0))), named-AllServed signals defn name jobs e a.1)

pub unnamed-AllServed :
    (signals : Dict (Option String) HandlerDefn) (defn : HandlerDefn) (name : Option String)
    (jobs : List SignalWorkflow)
    → get signals name ≡ some defn
    → has_name name ≡ false
    → AllServed signals (with_handler defn jobs)
unnamed-AllServed signals defn name [] e u = tt
unnamed-AllServed signals defn name (job ∷ jobs) e u =
    ((name, e, inr u), unnamed-AllServed signals defn name jobs e u)
