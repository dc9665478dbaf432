-- ===== src/Instance/Updates/Responses.antt =====
-- The responses to an update among the commands, and what a rejection adds.
use temporalio_sdk_python.Common.{
  ℕ, suc, Bool, true, false, Option, none, some, List, [], ◌∷◌, ◌++◌, String, ◌≡◌, refl, ap,
  string_eq, ℕ_eq, option_eq, arith, if◌then◌else◌, ◌==◌, length,
}
use temporalio_sdk_python.Common.Result.{Result, ok, err}
use temporalio_sdk_python.Payload.{Payload, Value}
use temporalio_sdk_python.Exceptions.{Exc, Failure}
use temporalio_sdk_python.Instance.State.{
  Instance, Command, DoUpdate, UpdateResponse, accepted, completed, rejected, update_response,
}
use temporalio_sdk_python.Instance.Guards.{IsWritable, add_command-IsWritable}
use temporalio_sdk_python.Instance.Handlers.{Converters}
use temporalio_sdk_python.Instance.Outcome.{catchable}
use temporalio_sdk_python.Instance.Updates.{
  HandlerCode, fill_in, response_command, unset_failure, reject_update,
}

abbrev pub responses : String → List Command → List UpdateResponse
responses p [] = []
responses p (update_response q r ∷ cs) = if q == p then r ∷ responses p cs else responses p cs
responses p (_ ∷ cs) = responses p cs

-- The responses that an update may have got when its task ends, without and with an error of the activation.
abbrev pub is_answer : List UpdateResponse → (task_failed : Bool) → Bool
is_answer (rejected f ∷ []) false = true
is_answer (accepted ∷ completed p ∷ []) false = true
is_answer (accepted ∷ rejected f ∷ []) false = true
is_answer (UpdateResponse.pending ∷ []) true = true
is_answer (accepted ∷ []) true = true
is_answer _ _ = false

-- Exceptions that the `except` clause for failures catches.
abbrev pub Caught : {A : Type 0} → Result Exc A → Type 0
Caught (ok a) = Unit {0}
Caught (err e) = catchable e ≡ true

pub record CaughtConverters (c : Converters) : Type 0 where
  pub to_failure : (e : Exc) → (f : Failure) × (c.to_failure e ≡ ok f)
  pub from_payloads :
      (ps : List Payload) (ts : Option (List String)) → Caught (c.from_payloads ps ts)
  pub to_payloads : (vs : List Value) → Caught (c.to_payloads vs)

-- What the code of a handler leaves as it was for an update with this protocol id.
pub record Calm (id : String) (s t : Instance) : Type 0 where
  pub writable : IsWritable t
  pub no_error : t.activation_error ≡ none
  pub silent : responses id t.commands ≡ responses id s.commands

-- Validators only read, and handlers, whatever they do, do not answer the update themselves.
pub record Behaves (code : HandlerCode) (id : String) : Type 0 where
  pub validator :
      (n : ℕ) (args : List Value) (s : Instance)
      → Caught (code.validate n args s).0 × ((code.validate n args s).1 ≡ s)
  pub handler :
      (n : ℕ) (args : List Value) (s : Instance)
      → IsWritable s
      → s.activation_error ≡ none
      → Caught (code.handle_update n args s).0 × Calm id s (code.handle_update n args s).1

pub responses-append :
    (p : String) (xs ys : List Command) → responses p (xs ++ ys) ≡ responses p xs ++ responses p ys
responses-append p [] ys = refl
responses-append p (update_response q r ∷ xs) ys = ground (arith, responses-append p xs ys)
responses-append p (_ ∷ xs) ys = responses-append p xs ys

pub fill_in-last :
    (xs : List Command) (c d : Command) → fill_in (length xs) d (xs ++ c ∷ []) ≡ xs ++ d ∷ []
fill_in-last [] c d = refl
fill_in-last (x ∷ xs) c d = ap (λ l. x ∷ l) (fill_in-last xs c d)

fill_in-twice :
    (n : ℕ) (xs : List Command) (c d : Command) → fill_in n d (fill_in n c xs) ≡ fill_in n d xs
fill_in-twice n [] c d = refl
fill_in-twice Prim.Native.Nat.zero (x ∷ xs) c d = refl
fill_in-twice (suc n) (x ∷ xs) c d = ap (λ l. x ∷ l) (fill_in-twice n xs c d)

abbrev pub with_commands : Instance → List Command → Instance
with_commands s cs = record s { commands = cs }

abbrev pub answer : DoUpdate → UpdateResponse → Command
answer job r = update_response job.protocol_instance_id r

pub reject-open :
    (c : Converters) (n : ℕ) (job : DoUpdate) (e : Exc) (f : Failure) (s : Instance)
    → c.to_failure e ≡ ok f
    → reject_update c (some n) job e s
      ≡ (ok tt, with_commands s (fill_in n (answer job (rejected f)) s.commands))
unfolding reject_update response_command
reject-open c n job e f s h = ground (
  arith,
  fill_in-twice n s.commands (answer job (rejected unset_failure)) (answer job (rejected f)),
)

pub reject-new :
    (c : Converters) (job : DoUpdate) (e : Exc) (f : Failure) (s : Instance)
    → c.to_failure e ≡ ok f
    → IsWritable s
    → reject_update c none job e s
      ≡ (ok tt, with_commands s (s.commands ++ answer job (rejected f) ∷ []))
unfolding reject_update response_command
reject-new c job e f s h w = ground (
  arith,
  fill_in-last s.commands (answer job UpdateResponse.pending) (answer job (rejected unset_failure)),
  add_command-IsWritable (answer job UpdateResponse.pending) s w,
  fill_in-last s.commands (answer job (rejected unset_failure)) (answer job (rejected f)),
)
