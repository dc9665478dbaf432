-- ===== src/RetryPolicy/Proto.antt =====
-- What reaches the server of a retry policy, and what comes back.
use temporalio_sdk_python.Common.{
  Bool, true, false, Option, none, some, List, [], ◌∷◌, String, ◌≡◌, refl, sym, ap, subst, ◌∙◌, inl,
  inr, string_eq, ℕ_eq, option_eq, arith, if◌then◌else◌, Bool-cases, Option-cases,
}
use temporalio_sdk_python.Common.Result.{ok, ◌>>=◌, ◌>>◌, raise_if, ok_of_bind}
use temporalio_sdk_python.Exceptions.{Exc}
use temporalio_sdk_python.Common.Integers.{ℤ, pos, negsuc}
use temporalio_sdk_python.RetryPolicy.{
  value_error, is_one, Timedelta, is_negative, is_truthy, is_below, times_100, RetryPolicy,
  Protobuf, Keeps, filled, RetryPolicyProto, validate_maximum, validate, maximum_or_default,
  types_or_none, types_or_empty, apply_to_proto, from_proto,
}

-- A maximum that the server is sent: it is the policy's own, or the default where that is none or zero.
is_below-times_100 : (a : ℤ) → is_negative a ≡ false → is_below (times_100 a) a ≡ false
is_below-times_100 (pos n) h = ground arith
is_below-times_100 (negsuc n) h = cc h

passes : (b : Bool) (e : Exc) (u : Unit {0}) → raise_if b e ≡ ok u → b ≡ false
passes true e u h = cc h
passes false e u h = refl

maximum-valid :
    (initial : ℤ) (m : Option ℤ)
    → is_negative initial ≡ false
    → validate_maximum initial m ≡ ok tt
    → is_below
        (elim m [
          | none ↦ times_100 initial
          | some x ↦ if is_truthy x then x else times_100 initial
        ])
        initial
      ≡ false
maximum-valid initial none n h = is_below-times_100 initial n
maximum-valid initial (some x) n h = elim (Bool-cases (is_truthy x)) [
  | inl t ↦
      let h' : (raise_if (is_negative x) (value_error "Maximum interval cannot be negative")
            >> raise_if (is_below x initial)
                (value_error "Maximum interval cannot be less than initial interval"))
          ≡ ok tt =
        rw t at h in
      let (u, a, b) =
        ok_of_bind (raise_if (is_negative x) (value_error "Maximum interval cannot be negative"))
          (λ _.
            raise_if (is_below x initial)
              (value_error "Maximum interval cannot be less than initial interval"))
          h' in
      rw t (passes _ _ tt b)
  | inr f ↦ rw f (is_below-times_100 initial n)
]

-- What the checks let through.
record Checked (p : RetryPolicy) : Type 0 where
  initial : is_negative p.initial_interval ≡ false
  coefficient : p.backoff_coefficient.below_one ≡ false
  maximum : validate_maximum p.initial_interval p.maximum_interval ≡ ok tt
  attempts : is_negative p.maximum_attempts ≡ false

validate-Checked :
    (p : RetryPolicy) → is_one p.maximum_attempts ≡ false → validate p ≡ ok tt → Checked p
unfolding validate
validate-Checked p n h =
    let i =
      raise_if (is_negative p.initial_interval)
        (value_error "Initial interval cannot be negative") in
    let c =
      raise_if p.backoff_coefficient.below_one
        (value_error "Backoff coefficient cannot be less than 1") in
    let m = validate_maximum p.initial_interval p.maximum_interval in
    let a =
      raise_if (is_negative p.maximum_attempts)
        (value_error "Maximum attempts cannot be negative") in
    let h' : (i >> c >> m >> a) ≡ ok tt =
      ap (λ b. if b then ok tt else (i >> c >> m >> a)) (sym n) ∙ h in
    let (u, x, k) = ok_of_bind (i >> c >> m) (λ _. a) h' in
    let (v, y, l) = ok_of_bind (i >> c) (λ _. m) x in
    let (w, z, o) = ok_of_bind i (λ _. c) y in
    record {
      initial = passes _ _ w z;
      coefficient = passes _ _ v o;
      maximum = l;
      attempts = passes _ _ tt k;
    }

-- A message that is sent is filled from a policy that passed the checks.
sent :
    (P : Protobuf) (p : RetryPolicy) (q : RetryPolicyProto)
    → Keeps P
    → apply_to_proto P p ≡ ok q
    → (validate p ≡ ok tt)
      × (P.int32 p.maximum_attempts ≡ ok p.maximum_attempts)
      × (q ≡ filled P p p.maximum_attempts)
unfolding apply_to_proto validate
sent P p q l h =
    let (u, v, k) =
      ok_of_bind (validate p) (λ _. P.int32 p.maximum_attempts >>= λ a. ok (filled P p a)) h in
    let (a, e, k2) = ok_of_bind (P.int32 p.maximum_attempts) (λ a. ok (filled P p a)) k in
    let n = l.number _ _ e in (v, e ∙ ap (λ x. ok x) n, sym (cc k2) ∙ ap (λ x. filled P p x) n)

-- What is read from a message that was filled from a policy.
abbrev read : RetryPolicy → RetryPolicy
read p = record {
  initial_interval = p.initial_interval;
  backoff_coefficient = p.backoff_coefficient;
  maximum_interval = some (maximum_or_default p);
  maximum_attempts = p.maximum_attempts;
  non_retryable_error_types = types_or_none (types_or_empty p.non_retryable_error_types);
}

from_proto-filled :
    (P : Protobuf) (p : RetryPolicy)
    → Keeps P
    → from_proto P (filled P p p.maximum_attempts) ≡ read p
unfolding from_proto
from_proto-filled P p l =
    ap
      (λ x. record {
        initial_interval = x;
        backoff_coefficient = p.backoff_coefficient;
        maximum_interval = some (P.to_timedelta (P.from_timedelta (maximum_or_default p)));
        maximum_attempts = p.maximum_attempts;
        non_retryable_error_types = types_or_none (types_or_empty p.non_retryable_error_types);
      })
      (l.time p.initial_interval)
    ∙ ap
        (λ x. record {
          initial_interval = p.initial_interval;
          backoff_coefficient = p.backoff_coefficient;
          maximum_interval = some x;
          maximum_attempts = p.maximum_attempts;
          non_retryable_error_types = types_or_none (types_or_empty p.non_retryable_error_types);
        })
        (l.time (maximum_or_default p))

-- The bounds of a policy with several attempts: none of its numbers is negative, the coefficient is at least one, and
-- there is a maximum interval, which is not below the first one.
pub IsBounded : RetryPolicy → Type 0
IsBounded p =
    (is_negative p.initial_interval ≡ false)
    × (p.backoff_coefficient.below_one ≡ false)
    × (is_negative p.maximum_attempts ≡ false)
    × ((m : Timedelta) × (p.maximum_interval ≡ some m) × (is_below m p.initial_interval ≡ false))

-- The server never gets a policy that cannot be followed: if a policy that allows other than one attempt is put in a
-- message, then, of the policy that the message is read as, the first interval is not negative, the coefficient is at
-- least one, the number of attempts is not negative, and there is a maximum interval, which is not below the first one.
pub apply_to_proto_bounds :
    (P : Protobuf) (p : RetryPolicy) (q : RetryPolicyProto)
    → Keeps P
    → apply_to_proto P p ≡ ok q
    → is_one p.maximum_attempts ≡ false
    → IsBounded (from_proto P q)
unfolding IsBounded
apply_to_proto_bounds P p q l h n =
    let (v, _, e) = sent P p q l h in
    let c = validate-Checked p n v in
    subst IsBounded (sym (ap (λ x. from_proto P x) e ∙ from_proto-filled P p l)) (
      c.initial,
      c.coefficient,
      c.attempts,
      (
        maximum_or_default p,
        refl,
        maximum-valid p.initial_interval p.maximum_interval c.initial c.maximum,
      ),
    )

types-back :
    (t : Option (List String))
    → types_or_empty (types_or_none (types_or_empty t)) ≡ types_or_empty t
types-back none = refl
types-back (some []) = refl
types-back (some (x ∷ xs)) = refl

or_default-again :
    (x d : ℤ)
    → (if is_truthy (if is_truthy x then x else d) then (if is_truthy x then x else d) else d)
      ≡ (if is_truthy x then x else d)
or_default-again x d = ground arith

default-again : (d : ℤ) → (if is_truthy d then d else d) ≡ d
default-again d = ground arith

maximum-again : (p : RetryPolicy) → maximum_or_default (read p) ≡ maximum_or_default p
maximum-again p = elim (Option-cases p.maximum_interval) [
  | inl e ↦ rw e (default-again (times_100 p.initial_interval))
  | inr (x, e) ↦ rw e (or_default-again x (times_100 p.initial_interval))
]

times_100-valid : (a : ℤ) → is_negative a ≡ false → validate_maximum a (some (times_100 a)) ≡ ok tt
times_100-valid (pos n) h = ground arith
times_100-valid (negsuc n) h = cc h

maximum-kept :
    (initial : ℤ) (m : Option ℤ)
    → is_negative initial ≡ false
    → validate_maximum initial m ≡ ok tt
    → validate_maximum initial (
        some (elim m [
          | none ↦ times_100 initial
          | some x ↦ if is_truthy x then x else times_100 initial
        ]))
      ≡ ok tt
maximum-kept initial none n h = times_100-valid initial n
maximum-kept initial (some x) n h = elim (Bool-cases (is_truthy x)) [
  | inl t ↦ ap (λ b. validate_maximum initial (some (if b then x else times_100 initial))) t ∙ h
  | inr f ↦
      ap (λ b. validate_maximum initial (some (if b then x else times_100 initial))) f
      ∙ times_100-valid initial n
]

read-valid : (p : RetryPolicy) → validate p ≡ ok tt → validate (read p) ≡ ok tt
unfolding validate
read-valid p v = elim (Bool-cases (is_one p.maximum_attempts)) [
  | inl one ↦ rw one refl
  | inr n ↦
      let c = validate-Checked p n v in
      let m = maximum-kept p.initial_interval p.maximum_interval c.initial c.maximum in
      rw (n, c.initial, c.coefficient, m, c.attempts) refl
]

-- What is sent of a policy is settled by the first sending: if a policy is put in a message, then the policy that the
-- message is read as passes the checks, and putting it in a message again gives the same message. Nothing is said of a
-- message that the SDK did not write.
pub apply_to_proto-from_proto :
    (P : Protobuf) (p : RetryPolicy) (q : RetryPolicyProto)
    → Keeps P
    → apply_to_proto P p ≡ ok q
    → apply_to_proto P (from_proto P q) ≡ ok q
unfolding apply_to_proto validate
apply_to_proto-from_proto P p q l h =
    let (v, a, e) = sent P p q l h in
    let again : filled P (read p) p.maximum_attempts ≡ filled P p p.maximum_attempts =
      rw (maximum-again p, types-back p.non_retryable_error_types) refl in
    ap (λ x. apply_to_proto P x) (ap (λ x. from_proto P x) e ∙ from_proto-filled P p l)
    ∙ ap (λ x. x >>= λ _. P.int32 p.maximum_attempts >>= λ n. ok (filled P (read p) n))
        (read-valid p v)
    ∙ ap (λ x. x >>= λ n. ok (filled P (read p) n)) a
    ∙ ap (λ x. ok x) (again ∙ sym e)
