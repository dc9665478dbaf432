-- ===== src/Instance/Updates/Handling.antt =====
-- How the handler of an update and the rejections end.
use mathlib.Core.List.{append_assoc}
use temporalio_sdk_python.Common.{
  true, none, some, List, [], ◌∷◌, ◌++◌, String, ◌≡◌, refl, sym, ap, subst, ◌∙◌, inl, inr,
  string_eq, ℕ_eq, option_eq, arith, is_some, Bool-cases, length,
}
use temporalio_sdk_python.Common.Result.{Result, ok, err}
use temporalio_sdk_python.Payload.{Payload, Value}
use temporalio_sdk_python.Exceptions.{Exc}
use temporalio_sdk_python.Instance.State.{
  Instance, Command, lift, ◌>>=◌, HandlerDefn, DoUpdate, UpdateResponse, accepted, completed,
  rejected,
}
use temporalio_sdk_python.Instance.Guards.{add_command, IsWritable, add_command-IsWritable}
use temporalio_sdk_python.Instance.Handlers.{Converters}
use temporalio_sdk_python.Instance.Outcome.{
  FailureTypes, is_workflow_failure_exception, catchable, single,
}
use temporalio_sdk_python.Instance.Updates.{
  HandlerCode, fill_in, handle_update, update_error, is_read_only_error, fail_update,
}
use temporalio_sdk_python.Instance.Updates.Responses.{
  responses, is_answer, Caught, CaughtConverters, Calm, Behaves, responses-append, fill_in-last,
  answer, reject-open, reject-new,
}

abbrev pub Final : String → Instance → Result Exc (Unit {0}) × Instance → Type 0
Final id s p =
    (p.0 ≡ ok tt)
    × ((rs : List UpdateResponse) × (responses id p.1.commands ≡ responses id s.commands ++ rs)
        × (is_answer rs (is_some p.1.activation_error) ≡ true))

-- How the handler's part ends.
abbrev pub Done : String → Instance → Result Exc (Unit {0}) × Instance → Type 0
Done id s (ok u, t) =
    (t.activation_error ≡ none)
    × ((x : Payload) × (responses id t.commands ≡ responses id s.commands ++ completed x ∷ []))
Done id s (err e, t) = (catchable e ≡ true) × Calm id s t

respond-Done :
    (job : DoUpdate) (s t : Instance) (r : Result Exc Payload)
    → Caught r
    → Calm job.protocol_instance_id s t
    → Done job.protocol_instance_id s ((lift r >>= λ x. add_command (answer job (completed x))) t)
respond-Done job s t (err e) h k = (h, k)
respond-Done job s t (ok x) h k =
    subst (Done job.protocol_instance_id s)
      (sym (add_command-IsWritable (answer job (completed x)) t k.writable))
      (
        k.no_error,
        (
          x,
          responses-append job.protocol_instance_id t.commands (answer job (completed x) ∷ [])
              ∙ ground (
                arith,
                k.silent,
                string_eq.same_iff job.protocol_instance_id job.protocol_instance_id,
              ),
        ),
      )

single-Caught : (ps : List Payload) → Caught (single ps)
single-Caught [] = refl
single-Caught (p ∷ []) = tt
single-Caught (p ∷ q ∷ ps) = refl

pub handle_update-Done :
    (c : Converters) (code : HandlerCode) (job : DoUpdate) (q : HandlerDefn × List Value)
    (s : Instance)
    → CaughtConverters c
    → Behaves code job.protocol_instance_id
    → IsWritable s
    → s.activation_error ≡ none
    → Done job.protocol_instance_id s (handle_update c code job q s)
unfolding handle_update
handle_update-Done c code job q s h b w n =
    go (code.handle_update q.0.fn q.1 s) (b.handler q.0.fn q.1 s w n)
  where
    answered :
        (t : Instance)
        → Calm job.protocol_instance_id s t
        → (r : Result Exc (List Payload)) → Caught r
        → Done job.protocol_instance_id s
            ((lift r >>= λ ps. lift (single ps) >>= λ x. add_command (answer job (completed x))) t)
    answered t k (ok ps) g = respond-Done job s t (single ps) (single-Caught ps) k
    answered t k (err e) g = (g, k)

    go :
        (p : Result Exc Value × Instance)
        → Caught p.0 × Calm job.protocol_instance_id s p.1
        → Done job.protocol_instance_id s (
            ◌>>=◌
              (λ _. p)
              (λ v. lift (c.to_payloads (v ∷ [])) >>= λ ps.
                lift (single ps) >>= λ x. add_command (answer job (completed x)))
              s)
    go (ok v, t) (g, k) = answered t k (c.to_payloads (v ∷ [])) (h.to_payloads (v ∷ []))
    go (err e, t) (g, k) = (g, k)

pub responses-last :
    (id : String) (job : DoUpdate) (r : UpdateResponse) (xs : List Command)
    → job.protocol_instance_id ≡ id
    → responses id (xs ++ answer job r ∷ []) ≡ responses id xs ++ r ∷ []
responses-last id job r xs e =
    responses-append id xs (answer job r ∷ [])
    ∙ ground (arith, string_eq.same_iff job.protocol_instance_id id)

-- An exception before the validation is over.
pub fail-open :
    (c : Converters) (types : FailureTypes) (job : DoUpdate) (e : Exc) (s t : Instance)
    → CaughtConverters c
    → catchable e ≡ true
    → t.commands ≡ s.commands ++ answer job UpdateResponse.pending ∷ []
    → t.activation_error ≡ none
    → Final job.protocol_instance_id s (fail_update c types (some (length s.commands)) job e t)
unfolding fail_update
fail-open c types job e s t h k a n =
    let id = job.protocol_instance_id in
    let (f, g) = h.to_failure (update_error e) in
    elim (Bool-cases (is_read_only_error (update_error e))) [
      | inl b ↦
          rw (k, b)
            (
              refl,
              (
                UpdateResponse.pending ∷ [],
                ap (responses id) a ∙ responses-last id job UpdateResponse.pending s.commands refl,
                refl,
              ),
            )
      | inr b ↦
          rw (k, b, reject-open c (length s.commands) job (update_error e) f t g)
            (
              refl,
              (
                rejected f ∷ [],
                ap (λ l. responses id (fill_in (length s.commands) (answer job (rejected f)) l)) a
                    ∙ ap (responses id) (
                        fill_in-last s.commands (answer job UpdateResponse.pending)
                          (answer job (rejected f)))
                    ∙ responses-last id job (rejected f) s.commands refl,
                ap (λ o. is_answer (rejected f ∷ []) (is_some o)) n,
              ),
            )
    ]

-- An exception of the handler, after the update was accepted.
pub fail-new :
    (c : Converters) (types : FailureTypes) (job : DoUpdate) (e : Exc) (s t : Instance)
    → CaughtConverters c
    → catchable e ≡ true
    → responses job.protocol_instance_id t.commands
      ≡ responses job.protocol_instance_id s.commands ++ accepted ∷ []
    → IsWritable t
    → t.activation_error ≡ none
    → Final job.protocol_instance_id s (fail_update c types none job e t)
unfolding fail_update
fail-new c types job e s t h k a w n =
    let id = job.protocol_instance_id in
    let (f, g) = h.to_failure (update_error e) in
    elim (Bool-cases (is_read_only_error (update_error e))) [
      | inl b ↦ rw (k, b) (refl, (accepted ∷ [], a, refl))
      | inr b ↦ elim (Bool-cases (is_workflow_failure_exception types (update_error e))) [
        | inl d ↦
            rw (k, b, d, reject-new c job (update_error e) f t g w)
              (
                refl,
                (
                  accepted ∷ rejected f ∷ [],
                  responses-last id job (rejected f) t.commands refl
                      ∙ ap (λ l. l ++ rejected f ∷ []) a
                      ∙ append_assoc (responses id s.commands) (accepted ∷ []) (rejected f ∷ []),
                  ap (λ o. is_answer (accepted ∷ rejected f ∷ []) (is_some o)) n,
                ),
              )
        | inr d ↦ rw (k, b, d) (refl, (accepted ∷ [], a, refl))
      ]
    ]
