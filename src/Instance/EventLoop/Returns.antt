-- ===== src/Instance/EventLoop/Returns.antt =====
-- The event loop returns.
use temporalio_sdk_python.Common.{
  ℕ, suc, ◌≤◌, ◌<◌, Bool, Option, some, List, [], ◌∷◌, ◌≡◌, refl, subst, string_eq, ℕ_eq, option_eq,
  arith,
}
use temporalio_sdk_python.Common.Result.{Result, ok, err}
use temporalio_sdk_python.Exceptions.{Exc}
use temporalio_sdk_python.Instance.State.{Instance, Ready}
use temporalio_sdk_python.Common.{zero}
use temporalio_sdk_python.Instance.EventLoop.{
  Callbacks, run_first, update_conditions, create_object, drain, rounds, run_once,
}

-- A measure of the work that is left: each handle that is run leaves less of it, and the check of the conditions adds none.
pub record Bounded (code : Callbacks) (rank : Instance → ℕ) : Type 0 where
  pub runs :
      (r : Ready) (rest : List Ready) (s : Instance)
      → s.ready ≡ r ∷ rest
      → rank (run_first code r rest s).1 < rank s
  pub checks : (check : Bool) (s : Instance) → rank (update_conditions code check s).1 ≤ rank s

abbrev Outcome : Type 0
Outcome = Result Exc (Unit {0}) × Instance

-- A loop that returns, with nothing ready unless an exception left it.
abbrev Empties : Option Outcome → Type 0
Empties o = (p : Outcome) × (o ≡ some p) × (p.0 ≡ ok tt → p.1.ready ≡ [])

module _ (code : Callbacks) (rank : Instance → ℕ) (bound : Bounded code rank) where
  abbrev Drains : ℕ → Option Outcome → Type 0
  Drains k o = (p : Outcome) × (o ≡ some p) × (p.0 ≡ ok tt → p.1.ready ≡ []) × (rank p.1 ≤ k)

  drain-returns :
      (n : ℕ) (l : List Ready) (s : Instance)
      → s.ready ≡ l
      → rank s < n
      → Drains (rank s) (drain n code l s)
  unfolding drain
  drain-returns n [] s e h = ((ok tt, s), refl, (λ _. e), omega arith)
  drain-returns zero (r ∷ rest) s e h = elim h [ ]
  drain-returns (suc n) (r ∷ rest) s e h =
      go (run_first code r rest s) (bound.runs r rest s e) (λ t k. drain-returns n t.ready t refl k)
    where
      go :
          (p : Outcome)
          → rank p.1 < rank s
          → ((t : Instance) → rank t < n → Drains (rank t) (drain n code t.ready t))
          → Drains
              (rank s)
              (elim p.0 [ ok u ↦ drain n code p.1.ready p.1 | err x ↦ some (err x, p.1) ])
      go (ok u, t) k ih =
          let (p, f, g, b) = ih t (omega (arith, k, h)) in (p, f, g, omega (arith, k, b))
      go (err x, t) k ih = ((err x, t), refl, (λ c. cc c), omega (arith, k))

  -- The first handle of a round makes the rest of the round smaller.
  drain-less :
      (n : ℕ) (r : Ready) (rest : List Ready) (s : Instance) (p : Outcome)
      → s.ready ≡ r ∷ rest
      → rank s < n
      → drain n code (r ∷ rest) s ≡ some p
      → rank p.1 < rank s
  unfolding drain
  drain-less zero r rest s p e h k = elim h [ ]
  drain-less (suc n) r rest s p e h k = go (run_first code r rest s) (bound.runs r rest s e) k
    where
      go :
          (q : Outcome)
          → rank q.1 < rank s
          → elim q.0 [ ok u ↦ drain n code q.1.ready q.1 | err x ↦ some (err x, q.1) ] ≡ some p
          → rank p.1 < rank s
      go (ok u, t) l j =
          let (p', f, g, b) = drain-returns n t.ready t refl (omega (arith, l, h)) in
          let same : p' ≡ p = cc (f, j) in
          let le : rank p'.1 ≤ rank t = b in
          let le' : rank p.1 ≤ rank t = subst (λ (x : Outcome). rank x.1 ≤ rank t) same le in
          omega (arith, le', l)
      go (err x, t) l j =
          let same : (err x, t) ≡ p = cc j in subst (λ (y : Outcome). rank y.1 < rank s) same l

  checked :
      (n m : ℕ) (check : Bool) (q : Outcome)
      → ((t : Instance) → rank t ≤ rank q.1 → Empties (rounds n m code check t.ready t))
      → Empties
          (elim q.0 [ err e ↦ some (err e, q.1) | ok u ↦ rounds n m code check q.1.ready q.1 ])
  checked n m check (ok u, t) ih = ih t (omega arith)
  checked n m check (err e, t) ih = ((err e, t), refl, (λ c. cc c))

  drained :
      (n m : ℕ) (check : Bool) (p : Outcome)
      → ((t : Instance) → rank t ≤ rank p.1 → Empties (rounds n m code check t.ready t))
      → Empties (elim p.0 [
        | err e ↦ some (err e, p.1)
        | ok u ↦
            let q = update_conditions code check p.1 in
            elim q.0 [ err e ↦ some (err e, q.1) | ok u' ↦ rounds n m code check q.1.ready q.1 ]
      ])
  drained n m check (ok u, t) ih =
      checked n m check (update_conditions code check t)
        (λ v k. ih v (omega (arith, k, bound.checks check t)))
  drained n m check (err e, t) ih = ((err e, t), refl, (λ c. cc c))

  rounds-returns :
      (n m : ℕ) (check : Bool) (l : List Ready) (s : Instance)
      → s.ready ≡ l
      → rank s < n
      → rank s < m
      → Empties (rounds n m code check l s)
  unfolding rounds
  rounds-returns n m check [] s e h k = ((ok tt, s), refl, (λ _. e))
  rounds-returns zero m check (r ∷ rest) s e h k = elim h [ ]
  rounds-returns (suc n) m check (r ∷ rest) s e h k =
      let (p, f, g, b) = drain-returns m (r ∷ rest) s e k in
      let less : rank p.1 < rank s = drain-less m r rest s p e k f in
      rw (f, rounds)
        (drained n m check p (λ t j.
          rounds-returns n m check t.ready t refl (omega (arith, j, less, h))
            (omega (arith, j, less, k))))

-- An iteration of the event loop ends: if the work that handles schedule is bounded, then as much fuel as the measure of
-- the work, once the workflow's object is there, is enough for both loops, and if no exception leaves the iteration,
-- nothing is ready after it.
pub run_once-returns :
    (code : Callbacks) (rank : Instance → ℕ) (fuel : ℕ) (check : Bool) (s : Instance)
    → Bounded code rank
    → rank (create_object code s).1 < fuel
    → (p : Result Exc (Unit {0}) × Instance) × (run_once fuel code check s ≡ some p)
      × (p.0 ≡ ok tt → p.1.ready ≡ [])
unfolding run_once
run_once-returns code rank fuel check s bound h = go (create_object code s) h
  where
    go :
        (p : Outcome)
        → rank p.1 < fuel
        → Empties (elim p.0 [
          | err e ↦ some (err e, p.1)
          | ok u ↦ rounds fuel fuel code check p.1.ready p.1
        ])
    go (ok u, t) k = rounds-returns code rank bound fuel fuel check t.ready t refl k k
    go (err e, t) k = ((err e, t), refl, (λ c. cc c))
