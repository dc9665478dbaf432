-- ===== src/Converter/Failures/RoundTrip.antt =====
-- What a failure keeps of the error that it was made from.
use temporalio_sdk_python.Common.{
  Option, none, some, List, [], ◌∷◌, String, ◌≡◌, refl, sym, ap, ◌∙◌, inl, inr, string_eq, ℕ_eq,
  option_eq, arith, Bool-cases, length,
}
use temporalio_sdk_python.Common.Result.{Result, ok, ◌>>=◌, ok_of_bind}
use temporalio_sdk_python.Payload.{Payload, Value}
use temporalio_sdk_python.Exceptions.{Exc, other, failure_error}
use temporalio_sdk_python.Exceptions.{
  Cause, no_cause, caused_by, TimeoutType, RetryState, FailureInfo, Failure, FailureCause, failure,
  FailureKind, plain, application_error, cancelled_error, terminated_error, timeout_error,
  server_error, activity_error, child_workflow_error, workflow_already_started_error,
  asyncio_cancelled, continue_as_new, read_only_context, being_evicted,
}
use temporalio_sdk_python.Converter.Failures.{
  FailureOptions, first_of, details_to, details_from, kind_to_info, common_attributes,
  encode_attributes, with_attributes, new_failure, as_application_error, class_name,
  cause_or_context, to_failure, cause_to_failure, decode_attributes, kind_from_info, as_error,
  from_failure, from_cause, text_or_empty,
}
use temporalio_sdk_python.Converter.Failures.Numbers.{
  timeout_type_number, retry_state_number, timeout_type, retry_state,
}
use temporalio_sdk_python.Converter.Failures.Sent.{
  All, ReadsBack, chain, cause_chain, IsFresh, IsFreshCause, Fits, Sendable,
}

timeout_type-back : (t : Option TimeoutType) → timeout_type (timeout_type_number t) ≡ ok t
timeout_type-back none = refl
timeout_type-back (some TimeoutType.start_to_close) = refl
timeout_type-back (some TimeoutType.schedule_to_start) = refl
timeout_type-back (some TimeoutType.schedule_to_close) = refl
timeout_type-back (some TimeoutType.heartbeat) = refl

retry_state-back : (r : Option RetryState) → retry_state (retry_state_number r) ≡ ok r
retry_state-back none = refl
retry_state-back (some RetryState.in_progress) = refl
retry_state-back (some RetryState.non_retryable_failure) = refl
retry_state-back (some RetryState.timeout) = refl
retry_state-back (some RetryState.maximum_attempts_reached) = refl
retry_state-back (some RetryState.retry_policy_not_set) = refl
retry_state-back (some RetryState.internal_server_error) = refl
retry_state-back (some RetryState.cancel_requested) = refl

module _ (P : Value → Type 0) (o : FailureOptions) (law : ReadsBack P o) where
  details-back :
      (vs : List Value) (ps : List Payload)
      → All P vs
      → details_to o vs ≡ ok ps
      → details_from o ps ≡ ok vs
  details-back [] ps a h = let e : ps ≡ [] = cc h in rw e refl
  details-back (v ∷ vs) [] a h =
      let (n, e) = law.payloads (v ∷ vs) [] a h in absurd (omega (arith, n))
  details-back (v ∷ vs) (p ∷ ps) a h = (law.payloads (v ∷ vs) (p ∷ ps) a h).1

  kind-back :
      (kind : FailureKind) (info : FailureInfo)
      → Fits P kind
      → kind_to_info o kind ≡ ok info
      → kind_from_info o info ≡ ok kind
  unfolding kind_to_info kind_from_info
  kind-back (application_error details type n) info a h =
      let (ps, e, k) =
        ok_of_bind (details_to o details)
          (λ ps. ok (FailureInfo.application (text_or_empty type) n ps)) h in
      let f : info ≡ FailureInfo.application (text_or_empty type) n ps = cc k in
      rw f (rw (details-back details ps a.0 e, a.1) refl)
  kind-back (timeout_error type details) info a h =
      let (ps, e, k) =
        ok_of_bind (details_to o details)
          (λ ps. ok (FailureInfo.timeout (timeout_type_number type) ps)) h in
      let f : info ≡ FailureInfo.timeout (timeout_type_number type) ps = cc k in
      rw f (rw (timeout_type-back type, details-back details ps a e) refl)
  kind-back (cancelled_error details) info a h =
      let (ps, e, k) = ok_of_bind (details_to o details) (λ ps. ok (FailureInfo.canceled ps)) h in
      let f : info ≡ FailureInfo.canceled ps = cc k in rw f (rw (details-back details ps a e) refl)
  kind-back (terminated_error details) info a h =
      let f : info ≡ FailureInfo.terminated = cc h in rw (f, a) refl
  kind-back (server_error n) info a h = let f : info ≡ FailureInfo.server n = cc h in rw f refl
  kind-back (activity_error i) info a h = ground (arith, retry_state-back i.retry_state)
  kind-back (child_workflow_error i) info a h = ground (arith, retry_state-back i.retry_state)
  kind-back plain info a h = let f : info ≡ FailureInfo.unset = cc h in rw f refl
  kind-back (workflow_already_started_error w t r) info a h = absurd a

  -- The message and the stack trace are read back from the attributes, where these are encoded.
  attributes-back :
      (message trace : String) (info : FailureInfo) (cause : FailureCause) (f : Failure)
      → with_attributes o (failure message trace none info cause) ≡ ok f
      → (encoded : Option Payload) × (m t : String) × (f ≡ failure m t encoded info cause)
        × (decode_attributes o f ≡ failure message trace encoded info cause)
  attributes-back message trace info cause f h = elim (Bool-cases o.encode_common_attributes) [
    | inl e ↦
        let h' : encode_attributes o (failure message trace none info cause) ≡ ok f = rw e at h in
        let (ps, g, k) =
          ok_of_bind (o.to_payloads (common_attributes message trace ∷ []))
            (λ ps. first_of ps >>= λ p. ok (failure "Encoded failure" "" (some p) info cause)) h' in
        encoded ps g k
    | inr e ↦
        let h' : ok (failure message trace none info cause) ≡ ok f = rw e at h in
        let k : f ≡ failure message trace none info cause = cc h' in
        (none, message, trace, k, rw k refl)
  ]
    where
      encoded :
          (ps : List Payload)
          → o.to_payloads (common_attributes message trace ∷ []) ≡ ok ps
          → (first_of ps >>= λ p. ok (failure "Encoded failure" "" (some p) info cause)) ≡ ok f
          → (enc : Option Payload) × (m t : String) × (f ≡ failure m t enc info cause)
            × (decode_attributes o f ≡ failure message trace enc info cause)
      encoded [] g k = cc k
      encoded (p ∷ []) g k =
          let x : f ≡ failure "Encoded failure" "" (some p) info cause = cc k in
          (
            some p,
            "Encoded failure",
            "",
            x,
            rw x (
                rw
                  ((law.payloads (common_attributes message trace ∷ []) (p ∷ [])
                    (law.attributes message trace, tt) g).1)
                  refl),
          )
      encoded (p ∷ q ∷ ps) g k =
          let n : length (p ∷ q ∷ ps) ≡ 1 =
            (law.payloads (common_attributes message trace ∷ []) (p ∷ q ∷ ps)
              (law.attributes message trace, tt) g).0 in
          absurd (omega (arith, n))

  abbrev Arrives : Failure → List (FailureKind × String) → Type 0
  Arrives f sent = (e : Exc) × (from_failure o f ≡ ok e) × (chain e ≡ sent)

  abbrev ArrivesCause : FailureCause → List (FailureKind × String) → Type 0
  ArrivesCause f sent = (c : Cause) × (from_cause o f ≡ ok c) × (cause_chain c ≡ sent)

  chain-received :
      (kind : FailureKind) (m : String) (p : Option Failure) (t : String) (c : Cause)
      → chain (failure_error kind m p t c no_cause) ≡ (kind, m) ∷ cause_chain c
  unfolding chain
  chain-received kind m p t no_cause = refl
  chain-received kind m p t (caused_by e) = refl

  kept_with :
      (kind : FailureKind) (message trace : String) (f : Failure) (info : FailureInfo)
      (fc : FailureCause) (sent : List (FailureKind × String))
      → Sendable P (kind, message)
      → kind_to_info o kind ≡ ok info
      → with_attributes o (failure message trace none info fc) ≡ ok f
      → ArrivesCause fc sent
      → Arrives f ((kind, message) ∷ sent)
  unfolding from_failure
  kept_with kind message trace f info fc sent a h k (c, e, g) =
      let (enc, m, t, x, y) = attributes-back message trace info fc f k in
      let q = failure message trace enc info fc in
      let y' : decode_attributes o (failure m t enc info fc) ≡ q =
        ap (decode_attributes o) (sym x) ∙ y in
      let z : from_failure o f ≡ as_error o q (from_cause o fc) =
        ap (from_failure o) x ∙ ap (λ u. as_error o u (from_cause o fc)) y' in
      (
        failure_error kind message (some q) "" c no_cause,
        z ∙ (rw (kind-back kind info a.0 h, e, a.1) refl),
        chain-received kind message (some q) "" c ∙ ap (λ l. (kind, message) ∷ l) g,
      )

  new_failure-kept :
      (kind : FailureKind) (message trace : String) (converted : Result Exc FailureCause)
      (f : Failure) (sent : List (FailureKind × String))
      → Sendable P (kind, message)
      → new_failure o kind message trace converted ≡ ok f
      → ((fc : FailureCause) → converted ≡ ok fc → ArrivesCause fc sent)
      → Arrives f ((kind, message) ∷ sent)
  new_failure-kept kind message trace converted f sent a h ih =
      let (fc, e, k) =
        ok_of_bind converted
          (λ c.
            kind_to_info o kind >>= λ info. with_attributes o (failure message trace none info c))
          h in
      let (info, g, k') =
        ok_of_bind (kind_to_info o kind)
          (λ info. with_attributes o (failure message trace none info fc)) k in
      kept_with kind message trace f info fc sent a g k' (ih fc e)

  abbrev CauseArrives : Cause → Type 0
  CauseArrives c =
      (fc : FailureCause)
      → All (Sendable P) (cause_chain c)
      → cause_to_failure o c ≡ ok fc
      → ArrivesCause fc (cause_chain c)

  chosen_kept :
      (c x : Cause)
      → CauseArrives c
      → CauseArrives x
      → (fc : FailureCause) → All (Sendable P) (cause_or_context c (cause_chain c) (cause_chain x))
      → cause_or_context c (cause_to_failure o c) (cause_to_failure o x) ≡ ok fc
      → ArrivesCause fc (cause_or_context c (cause_chain c) (cause_chain x))
  chosen_kept no_cause x h k = k
  chosen_kept (caused_by e) x h k = h

  nothing_kept :
      (fc : FailureCause)
      → ◌≡◌ {A = Result Exc FailureCause} (ok FailureCause.no_cause) (ok fc)
      → ArrivesCause fc []
  unfolding from_cause cause_chain
  nothing_kept fc h = let e : fc ≡ FailureCause.no_cause = cc h in (no_cause, rw e refl, refl)

  mutual
    unfolding to_failure cause_to_failure chain cause_chain IsFresh IsFreshCause from_cause

    error_kept :
        (e : Exc) (f : Failure)
        → IsFresh e
        → All (Sendable P) (chain e)
        → to_failure o e ≡ ok f
        → Arrives f (chain e)
    error_kept (failure_error kind m (some p) trace c x) f n a h = cc (n.0)
    error_kept (failure_error kind m none trace c x) f n a h =
        new_failure-kept kind m trace
          (cause_or_context c (cause_to_failure o c) (cause_to_failure o x)) f
          (cause_or_context c (cause_chain c) (cause_chain x)) a.0 h
          (λ fc e.
            chosen_kept c x (λ g b i. cause_kept c g n.1 b i) (λ g b i. cause_kept x g n.2 b i) fc
              a.1 e)
    error_kept (other names text trace c x) f n a h =
        new_failure-kept (as_application_error (class_name names)) text trace (cause_to_failure o c)
          f (cause_chain c) a.0 h (λ fc e. cause_kept c fc n a.1 e)
    error_kept (asyncio_cancelled t) f n a h =
        new_failure-kept (as_application_error "CancelledError") t "" (ok FailureCause.no_cause) f
          [] a.0 h nothing_kept
    error_kept (continue_as_new args) f n a h =
        new_failure-kept (as_application_error "_ContinueAsNewError") "Continue as new" ""
          (ok FailureCause.no_cause) f [] a.0 h nothing_kept
    error_kept (read_only_context t) f n a h =
        new_failure-kept (as_application_error "ReadOnlyContextError") t ""
          (ok FailureCause.no_cause) f [] a.0 h nothing_kept
    error_kept (being_evicted t) f n a h =
        new_failure-kept (as_application_error "_WorkflowBeingEvictedError") t ""
          (ok FailureCause.no_cause) f [] a.0 h nothing_kept

    cause_kept :
        (c : Cause) (fc : FailureCause)
        → IsFreshCause c
        → All (Sendable P) (cause_chain c)
        → cause_to_failure o c ≡ ok fc
        → ArrivesCause fc (cause_chain c)
    cause_kept no_cause fc n a h = nothing_kept fc h
    cause_kept (caused_by e) fc n a h =
        let (f, g, k) = ok_of_bind (to_failure o e) (λ f. ok (FailureCause.caused_by f)) h in
        let (e', i, j) = error_kept e f n a g in
        let l : fc ≡ FailureCause.caused_by f = cc k in (caused_by e', rw l (rw i refl), j)

-- An exception that is sent as a failure arrives: if the failure was made, it is converted back, and the exception and
-- the chain of what led to it have the kinds, with all their attributes, and the messages that were sent, whether or not
-- the common attributes are encoded. The conditions: the payload converter reads back the details, no message is empty,
-- no application error has an empty type, and no error of the chain was itself made from a failure, is a terminated error
-- with details or says that a workflow was already started.
pub from_failure-to_failure :
    (P : Value → Type 0) (o : FailureOptions) (e : Exc) (f : Failure)
    → ReadsBack P o
    → IsFresh e
    → All (Sendable P) (chain e)
    → to_failure o e ≡ ok f
    → (e' : Exc) × (from_failure o f ≡ ok e') × (chain e' ≡ chain e)
from_failure-to_failure P o e f law n a h = error_kept P o law e f n a h
