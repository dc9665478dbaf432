-- ===== src/Instance/EventLoop/Fuel.antt =====
-- More fuel gives the same result.
use temporalio_sdk_python.Common.{
  ℕ, suc, ◌≤◌, Bool, Option, none, some, List, [], ◌∷◌, ◌≡◌, refl, ap, ◌∙◌, string_eq, ℕ_eq,
  option_eq, arith,
}
use temporalio_sdk_python.Common.Result.{Result, ok, err}
use temporalio_sdk_python.Exceptions.{Exc}
use temporalio_sdk_python.Instance.State.{Instance, Ready}
use temporalio_sdk_python.Common.{zero}
use temporalio_sdk_python.Instance.EventLoop.{
  Callbacks, run_first, update_conditions, create_object, drain, rounds, run_once,
}

abbrev pub Outcome : Type 0
Outcome = Result Exc (Unit {0}) × Instance

module _ (code : Callbacks) where
  drain-more :
      (n k : ℕ) (l : List Ready) (s : Instance) (p : Outcome)
      → n ≤ k
      → drain n code l s ≡ some p
      → drain k code l s ≡ some p
  unfolding drain
  drain-more n k [] s p h e = e
  drain-more zero k (r ∷ rest) s p h e = cc e
  drain-more (suc n) zero (r ∷ rest) s p h e = absurd (omega (arith, h))
  drain-more (suc n) (suc k) (r ∷ rest) s p h e =
      go (run_first code r rest s) (λ t. drain-more n k t.ready t p (omega (arith, h))) e
    where
      go :
          (q : Outcome)
          → ((t : Instance) → drain n code t.ready t ≡ some p → drain k code t.ready t ≡ some p)
          → elim q.0 [ ok u ↦ drain n code q.1.ready q.1 | err x ↦ some (err x, q.1) ] ≡ some p
          → elim q.0 [ ok u ↦ drain k code q.1.ready q.1 | err x ↦ some (err x, q.1) ] ≡ some p
      go (ok u, t) ih i = ih t i
      go (err x, t) ih i = i

  abbrev after_check : ℕ → ℕ → Bool → Outcome → Option Outcome
  after_check n m check q = elim q.0 [
    | err e ↦ some (err e, q.1)
    | ok u ↦ rounds n m code check q.1.ready q.1
  ]

  abbrev after_drain : ℕ → ℕ → Bool → Option Outcome → Option Outcome
  after_drain n m check o = elim o [
    | none ↦ none
    | some p ↦ elim p.0 [
      | err e ↦ some (err e, p.1)
      | ok u ↦ after_check n m check (update_conditions code check p.1)
    ]
  ]

  after_check-more :
      (n m n' m' : ℕ) (check : Bool) (q p : Outcome)
      → ((t : Instance)
          → rounds n m code check t.ready t ≡ some p
          → rounds n' m' code check t.ready t ≡ some p)
      → after_check n m check q ≡ some p
      → after_check n' m' check q ≡ some p
  after_check-more n m n' m' check (ok u, t) p ih e = ih t e
  after_check-more n m n' m' check (err x, t) p ih e = e

  after_drain-more :
      (n m n' m' : ℕ) (check : Bool) (o o' : Option Outcome) (p : Outcome)
      → ((q : Outcome) → o ≡ some q → o' ≡ some q)
      → ((t : Instance)
          → rounds n m code check t.ready t ≡ some p
          → rounds n' m' code check t.ready t ≡ some p)
      → after_drain n m check o ≡ some p
      → after_drain n' m' check o' ≡ some p
  after_drain-more n m n' m' check none o' p same ih e = cc e
  after_drain-more n m n' m' check (some (err x, t)) o' p same ih e =
      ap (after_drain n' m' check) (same (err x, t) refl) ∙ e
  after_drain-more n m n' m' check (some (ok u, t)) o' p same ih e =
      ap (after_drain n' m' check) (same (ok u, t) refl)
      ∙ after_check-more n m n' m' check (update_conditions code check t) p ih e

  rounds-more :
      (n m n' m' : ℕ) (check : Bool) (l : List Ready) (s : Instance) (p : Outcome)
      → n ≤ n'
      → m ≤ m'
      → rounds n m code check l s ≡ some p
      → rounds n' m' code check l s ≡ some p
  unfolding rounds
  rounds-more n m n' m' check [] s p h k e = e
  rounds-more zero m n' m' check (r ∷ rest) s p h k e = cc e
  rounds-more (suc n) m zero m' check (r ∷ rest) s p h k e = absurd (omega (arith, h))
  rounds-more (suc n) m (suc n') m' check (r ∷ rest) s p h k e =
      after_drain-more n m n' m' check (drain m code (r ∷ rest) s) (drain m' code (r ∷ rest) s) p
        (λ q. drain-more m m' (r ∷ rest) s q k)
        (λ t. rounds-more n m n' m' check t.ready t p (omega (arith, h)) k) e

  -- Fuel that suffices is as good as more fuel.
  pub run_once-more :
      (n k : ℕ) (check : Bool) (s : Instance) (p : Outcome)
      → n ≤ k
      → run_once n code check s ≡ some p
      → run_once k code check s ≡ some p
  unfolding run_once
  run_once-more n k check s p h e = go (create_object code s) e
    where
      go :
          (q : Outcome)
          → elim q.0 [ err x ↦ some (err x, q.1) | ok u ↦ rounds n n code check q.1.ready q.1 ]
            ≡ some p
          → elim q.0 [ err x ↦ some (err x, q.1) | ok u ↦ rounds k k code check q.1.ready q.1 ]
            ≡ some p
      go (ok u, t) i = rounds-more n n k k check t.ready t p h h i
      go (err x, t) i = i
