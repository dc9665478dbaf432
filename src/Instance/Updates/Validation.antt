-- ===== src/Instance/Updates/Validation.antt =====
-- The validation of an update leaves the commands as they are.
use temporalio_sdk_python.Common.{
  ℕ, true, Option, none, some, List, [], ◌∷◌, String, ◌≡◌, refl, sym, subst, ◌∙◌, inl, inr,
  string_eq, ℕ_eq, option_eq, Bool-cases,
}
use temporalio_sdk_python.Common.Dict.{put}
use temporalio_sdk_python.Common.Result.{Result, ok, err}
use temporalio_sdk_python.Payload.{Payload, Value}
use temporalio_sdk_python.Exceptions.{Exc, is_failure_error, isinstance}
use temporalio_sdk_python.Instance.State.{
  Instance, Action, pure, lift, modify, ◌>>=◌, HandlerDefn, DoUpdate,
}
use temporalio_sdk_python.Instance.Guards.{as_read_only}
use temporalio_sdk_python.Instance.Handlers.{Converters, process_handler_args}
use temporalio_sdk_python.Instance.Signals.{find_handler}
use temporalio_sdk_python.Instance.Updates.{
  HandlerCode, run_validator, validate_update, found_update,
}
use temporalio_sdk_python.Instance.Handlers.{
  convert_payloads, rename_error, hints, with_name, with_name_and_list, has_name, without_first,
  raw_types,
}
use temporalio_sdk_python.Instance.Updates.Responses.{Caught, CaughtConverters, Behaves}

-- A step that an exception may leave, and what holds of the instance either way.
abbrev pub Good : {A : Type 0} → (Instance → Type 0) → Result Exc A × Instance → Type 0
Good P p = Caught p.0 × P p.1

bind-Good :
    {A B : Type 0} (P : Instance → Type 0) (m : Action A) (f : A → Action B) (s : Instance)
    → Good P (m s)
    → ((a : A) (t : Instance) → P t → Good P (f a t))
    → Good P ((m >>= f) s)
bind-Good {A} {B} P m f s h k = go (m s) h
  where
    go : (p : Result Exc A × Instance) → Good P p → Good P (◌>>=◌ (λ _. p) f s)
    go (ok a, t) h' = k a t h'.1
    go (err e, t) h' = h'

-- The validation leaves the commands, the guards and the error of the activation.
pub record Same (s t : Instance) : Type 0 where
  pub commands : t.commands ≡ s.commands
  pub deleting : t.deleting ≡ s.deleting
  pub read_only : t.read_only ≡ s.read_only
  pub activation_error : t.activation_error ≡ s.activation_error

rename_error-Caught : (r : Result Exc (List Value)) → Caught r → Caught (rename_error r)
rename_error-Caught (ok vs) h = tt
rename_error-Caught (err e) h = elim (Bool-cases (is_failure_error e)) [
  | inl a ↦ rw a h
  | inr a ↦ elim (Bool-cases (isinstance e "Exception")) [
    | inl b ↦ rw (a, b) refl
    | inr b ↦ rw (a, b) h
  ]
]

convert_payloads-Caught :
    (c : Converters) (ps : List Payload) (ts : Option (List String))
    → CaughtConverters c
    → Caught (convert_payloads c ps ts)
unfolding convert_payloads
convert_payloads-Caught c [] ts h = tt
convert_payloads-Caught c (p ∷ ps) ts h =
    rename_error-Caught (c.from_payloads (p ∷ ps) (hints ts (p ∷ ps)))
      (h.from_payloads (p ∷ ps) (hints ts (p ∷ ps)))

with_name-Caught :
    (n : String) (r : Result Exc (List Value))
    → Caught r
    → Caught (with_name n r) × Caught (with_name_and_list n r)
with_name-Caught n (ok vs) h = (tt, tt)
with_name-Caught n (err e) h = (h, h)

args-Caught :
    (c : Converters) (name : String) (input : List Payload) (defn : HandlerDefn)
    → CaughtConverters c
    → Caught (process_handler_args c name input defn)
unfolding process_handler_args
args-Caught c name input defn h = elim (Bool-cases (has_name defn.name)) [
  | inl a ↦ rw a (convert_payloads-Caught c input defn.arg_types h)
  | inr a ↦ elim (Bool-cases defn.dynamic_vararg) [
    | inl b ↦
        rw (a, b)
          ((with_name-Caught name (convert_payloads c input (without_first defn.arg_types))
            (convert_payloads-Caught c input (without_first defn.arg_types) h)).0)
    | inr b ↦
        rw (a, b)
          ((with_name-Caught name (convert_payloads c input (some (raw_types input)))
            (convert_payloads-Caught c input (some (raw_types input)) h)).1)
  ]
]

as_read_only-Same :
    {A : Type 0} (body : Action A) (s t : Instance)
    → Same s t
    → Good (Same (record t { read_only = true })) (body (record t { read_only = true }))
    → Good (Same s) (as_read_only body t)
unfolding as_read_only
as_read_only-Same {A} body s t k h = go (body (record t { read_only = true })) h
  where
    go :
        (p : Result Exc A × Instance)
        → Good (Same (record t { read_only = true })) p
        → Good (Same s) (p.0, record p.1 { read_only = t.read_only })
    go (r, u) (a, b) = (
      a,
      record {
        commands = b.commands ∙ k.commands;
        deleting = b.deleting ∙ k.deleting;
        read_only = k.read_only;
        activation_error = b.activation_error ∙ k.activation_error;
      },
    )

Same-refl : (s : Instance) → Same s s
Same-refl s = record { commands = refl; deleting = refl; read_only = refl; activation_error = refl }

run_validator-Good :
    (c : Converters) (code : HandlerCode) (job : DoUpdate) (defn : HandlerDefn) (args : List Value)
    (v : Option ℕ) (s t : Instance)
    → CaughtConverters c
    → Behaves code job.protocol_instance_id
    → Same s t
    → Good (Same s) (run_validator c code job defn args v t)
run_validator-Good c code job defn args none s t h b k = (tt, k)
run_validator-Good c code job defn args (some v) s t h b k = elim (Bool-cases job.run_validator) [
  | inl e ↦ rw e (
      as_read_only-Same
        (code.validate v args >>= λ _. lift (process_handler_args c job.name job.input defn)) s t k
        (let u = record t { read_only = true } in
          let (d, g) = b.validator v args u in
          bind-Good (Same u) (code.validate v args)
            (λ _. lift (process_handler_args c job.name job.input defn)) u
            (d, subst (Same u) (sym g) (Same-refl u))
            (λ a w i. (args-Caught c job.name job.input defn h, i))))
  | inr e ↦ rw e (tt, k)
]

pub validate_update-Good :
    (c : Converters) (code : HandlerCode) (job : DoUpdate) (s : Instance)
    → CaughtConverters c
    → Behaves code job.protocol_instance_id
    → Good (Same s) (validate_update c code job s)
unfolding validate_update
validate_update-Good c code job s h b = go (find_handler s.updates job.name)
  where
    rest : HandlerDefn → Action (HandlerDefn × List Value)
    rest defn =
        modify (λ s. record s {
          in_progress_updates = put s.in_progress_updates job.id (record {
            name = job.name;
            unfinished_policy = defn.unfinished_policy;
            id = some job.id;
          });
        })
        >>= λ _. lift (process_handler_args c job.name job.input defn) >>= λ args.
            run_validator c code job defn args defn.validator >>= λ checked. pure (defn, checked)

    go : (o : Option HandlerDefn) → Good (Same s) ((lift (found_update job o) >>= rest) s)
    go none = (refl, Same-refl s)
    go (some defn) =
        let t = record s {
          in_progress_updates = put s.in_progress_updates job.id (record {
            name = job.name;
            unfinished_policy = defn.unfinished_policy;
            id = some job.id;
          });
        } in
        bind-Good (Same s) (lift (process_handler_args c job.name job.input defn))
          (λ args.
            run_validator c code job defn args defn.validator >>= λ checked. pure (defn, checked))
          t
          (
            args-Caught c job.name job.input defn h,
            record { commands = refl; deleting = refl; read_only = refl; activation_error = refl },
          )
          (λ args u k.
            bind-Good (Same s) (run_validator c code job defn args defn.validator)
              (λ checked. pure (defn, checked)) u
              (run_validator-Good c code job defn args defn.validator s u h b k) (λ a w i. (tt, i)))
