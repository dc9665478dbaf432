-- ===== src/Instance/Updates/Protocol.antt =====
-- The responses to an update.
use mathlib.Core.List.{append_assoc}
use temporalio_sdk_python.Common.{
  true, none, List, [], ◌∷◌, ◌++◌, ◌≡◌, refl, sym, ap, subst, ◌∙◌, string_eq, ℕ_eq, option_eq,
  arith, is_some, length,
}
use temporalio_sdk_python.Common.Dict.{get, get-remove}
use temporalio_sdk_python.Common.Result.{Result, ok, err}
use temporalio_sdk_python.Payload.{Value}
use temporalio_sdk_python.Exceptions.{Exc}
use temporalio_sdk_python.Instance.State.{
  Instance, ◌>>=◌, HandlerDefn, DoUpdate, UpdateResponse, accepted, completed,
}
use temporalio_sdk_python.Instance.Guards.{IsWritable, add_command-IsWritable}
use temporalio_sdk_python.Instance.Handlers.{Converters}
use temporalio_sdk_python.Instance.Outcome.{FailureTypes}
use temporalio_sdk_python.Instance.Updates.{
  HandlerCode, fill_in, validate_update, handle_update, forget_update, handled_update,
  validated_update, run_update,
}
use temporalio_sdk_python.Instance.Updates.Responses.{
  responses, is_answer, CaughtConverters, Behaves, fill_in-last, with_commands, answer,
}
use temporalio_sdk_python.Instance.Updates.Validation.{Good, Same, validate_update-Good}
use temporalio_sdk_python.Instance.Updates.Handling.{
  Final, Done, handle_update-Done, responses-last, fail-open, fail-new,
}

handled-Final :
    (c : Converters) (types : FailureTypes) (job : DoUpdate) (s u : Instance)
    (p : Result Exc (Unit {0}) × Instance)
    → CaughtConverters c
    → responses job.protocol_instance_id u.commands
      ≡ responses job.protocol_instance_id s.commands ++ accepted ∷ []
    → Done job.protocol_instance_id u p
    → Final job.protocol_instance_id s (handled_update c types job p)
handled-Final c types job s u (ok x, t) h a d =
    let id = job.protocol_instance_id in
    let (pl, e) = d.1 in
    (
      refl,
      (
        accepted ∷ completed pl ∷ [],
        e
            ∙ ap (λ l. l ++ completed pl ∷ []) a
            ∙ append_assoc (responses id s.commands) (accepted ∷ []) (completed pl ∷ []),
        ap (λ o. is_answer (accepted ∷ completed pl ∷ []) (is_some o)) d.0,
      ),
    )
handled-Final c types job s u (err e, t) h a d =
    fail-new c types job e s t h d.0 (d.1.silent ∙ a) d.1.writable d.1.no_error

validated-Final :
    (c : Converters) (types : FailureTypes) (code : HandlerCode) (job : DoUpdate) (s : Instance)
    (p : Result Exc (HandlerDefn × List Value) × Instance)
    → CaughtConverters c
    → Behaves code job.protocol_instance_id
    → IsWritable s
    → s.activation_error ≡ none
    → Good (Same (with_commands s (s.commands ++ answer job UpdateResponse.pending ∷ []))) p
    → Final job.protocol_instance_id s (validated_update c types code job (length s.commands) p)
validated-Final c types code job s (ok q, t) h b w n (g, k) =
    let id = job.protocol_instance_id in
    let u = with_commands t (fill_in (length s.commands) (answer job accepted) t.commands) in
    let a : responses id u.commands ≡ responses id s.commands ++ accepted ∷ [] =
      ap (λ l. responses id (fill_in (length s.commands) (answer job accepted) l)) k.commands
      ∙ ap (responses id)
          (fill_in-last s.commands (answer job UpdateResponse.pending) (answer job accepted))
      ∙ responses-last id job accepted s.commands refl in
    handled-Final c types job s u (handle_update c code job q u) h a (
      handle_update-Done c code job q u h b (k.deleting ∙ w.0, k.read_only ∙ w.1)
        (k.activation_error ∙ n))
validated-Final c types code job s (err e, t) h b w n (g, k) =
    fail-open c types job e s t h g k.commands (k.activation_error ∙ n)

run_update-started :
    (c : Converters) (types : FailureTypes) (code : HandlerCode) (job : DoUpdate) (s : Instance)
    → IsWritable s
    → run_update c types code job s
      ≡ forget_update job (
          validated_update c types code job (length s.commands) (
            validate_update c code job
              (with_commands s (s.commands ++ answer job UpdateResponse.pending ∷ []))))
unfolding run_update
run_update-started c types code job s w =
    ap
      (λ (q : Result Exc (Unit {0}) × Instance).
        ◌>>=◌ (λ _. q)
          (λ _ u.
            forget_update job (
              validated_update c types code job (length s.commands) (validate_update c code job u)))
          s)
      (add_command-IsWritable (answer job UpdateResponse.pending) s w)

forgotten :
    (job : DoUpdate) (p : Result Exc (Unit {0}) × Instance)
    → get (forget_update job p).1.in_progress_updates job.id ≡ none
forgotten job (r, t) =
    get-remove t.in_progress_updates job.id job.id
    ∙ ground (arith, string_eq.same_iff job.id job.id)

-- A finished update is answered by the protocol: if the converters raise only exceptions that are caught and convert
-- every failure, validators only read, and the handler does not answer the update itself, then the task of an update
-- ends without an exception, the update is no longer in progress, and its new responses are one rejection, or an
-- acceptance followed by the result or by one rejection; only if the task of the workflow has failed is the
-- response still unset, or the update accepted and no more.
pub run_update-answer :
    (c : Converters) (types : FailureTypes) (code : HandlerCode) (job : DoUpdate) (s : Instance)
    → CaughtConverters c
    → Behaves code job.protocol_instance_id
    → IsWritable s
    → s.activation_error ≡ none
    → let p = run_update c types code job s in
      (p.0 ≡ ok tt)
      × (get p.1.in_progress_updates job.id ≡ none)
      × ((rs : List UpdateResponse) × (responses job.protocol_instance_id p.1.commands
            ≡ responses job.protocol_instance_id s.commands ++ rs)
          × (is_answer rs (is_some p.1.activation_error) ≡ true))
run_update-answer c types code job s h b w n =
    let t = with_commands s (s.commands ++ answer job UpdateResponse.pending ∷ []) in
    let p = validated_update c types code job (length s.commands) (validate_update c code job t) in
    let (e, f) =
      validated-Final c types code job s (validate_update c code job t) h b w n
        (validate_update-Good c code job t h b) in
    subst
      (λ (q : Result Exc (Unit {0}) × Instance).
        (q.0 ≡ ok tt)
        × (get q.1.in_progress_updates job.id ≡ none)
        × ((rs : List UpdateResponse) × (responses job.protocol_instance_id q.1.commands
              ≡ responses job.protocol_instance_id s.commands ++ rs)
            × (is_answer rs (is_some q.1.activation_error) ≡ true)))
      (sym (run_update-started c types code job s w)) (e, forgotten job p, f)
