-- ===== src/Converter/DataConverter/Codec.antt =====
-- A codec that decodes what it encodes does so in failures.
use temporalio_sdk_python.Common.{
  ◌≤◌, Option, none, some, List, [], ◌∷◌, ◌≡◌, refl, sym, ap, ◌∙◌, length, arith,
}
use temporalio_sdk_python.Common.Result.{ok, ◌>>=◌, ok_of_bind}
use temporalio_sdk_python.Payload.{Payload}
use temporalio_sdk_python.Exceptions.{Failure, FailureInfo, FailureCause, failure}
use temporalio_sdk_python.Converter.Failures.{first_of}
use temporalio_sdk_python.Converter.DataConverter.{
  PayloadCodec, apply_to_details, apply_to_attributes, apply_to_info, apply_to_failure_payloads,
  apply_to_cause,
}

-- What is documented of a codec: it decodes what it encodes, to at least one payload and no more than there were.
pub record Decodes (codec : PayloadCodec) : Type 0 where
  pub back : (ps qs : List Payload) → codec.encode ps ≡ ok qs → codec.decode qs ≡ ok ps
  pub some_left :
      (p : Payload) (ps qs : List Payload) → codec.encode (p ∷ ps) ≡ ok qs → 1 ≤ length qs
  pub no_more : (ps qs : List Payload) → codec.encode ps ≡ ok qs → length qs ≤ length ps

module _ (codec : PayloadCodec) (law : Decodes codec) where
  details-back :
      (ps qs : List Payload)
      → apply_to_details codec.encode ps ≡ ok qs
      → apply_to_details codec.decode qs ≡ ok ps
  details-back [] qs h = let e : [] ≡ qs = cc h in rw (← e) refl
  details-back (p ∷ ps) [] h = let n = law.some_left p ps [] h in absurd (omega (arith, n))
  details-back (p ∷ ps) (q ∷ qs) h = law.back (p ∷ ps) (q ∷ qs) h

  attributes-back :
      (o q : Option Payload)
      → apply_to_attributes codec.encode o ≡ ok q
      → apply_to_attributes codec.decode q ≡ ok o
  attributes-back none q h = let e : none ≡ q = cc h in rw (← e) refl
  attributes-back (some p) q h =
      let (ps, e, k) =
        ok_of_bind (codec.encode (p ∷ [])) (λ ps. first_of ps >>= λ x. ok (some x)) h in
      one ps e k
    where
      one :
          (ps : List Payload)
          → codec.encode (p ∷ []) ≡ ok ps
          → (first_of ps >>= λ x. ok (some x)) ≡ ok q
          → apply_to_attributes codec.decode q ≡ ok (some p)
      one [] e k = cc k
      one (x ∷ []) e k =
          let s : some x ≡ q = cc k in rw (← s) (rw (law.back (p ∷ []) (x ∷ []) e) refl)
      one (x ∷ y ∷ ps) e k =
          let n = law.no_more (p ∷ []) (x ∷ y ∷ ps) e in absurd (omega (arith, n))

  info-back :
      (i j : FailureInfo)
      → apply_to_info codec.encode i ≡ ok j
      → apply_to_info codec.decode j ≡ ok i
  info-back (FailureInfo.application type n details) j h =
      let (ps, e, k) =
        ok_of_bind (apply_to_details codec.encode details)
          (λ ps. ok (FailureInfo.application type n ps)) h in
      let s : FailureInfo.application type n ps ≡ j = cc k in
      rw (← s)
        (ap (λ r. r >>= λ x. ok (FailureInfo.application type n x)) (details-back details ps e))
  info-back (FailureInfo.timeout type details) j h =
      let (ps, e, k) =
        ok_of_bind (apply_to_details codec.encode details) (λ ps. ok (FailureInfo.timeout type ps))
          h in
      let s : FailureInfo.timeout type ps ≡ j = cc k in
      rw (← s) (ap (λ r. r >>= λ x. ok (FailureInfo.timeout type x)) (details-back details ps e))
  info-back (FailureInfo.canceled details) j h =
      let (ps, e, k) =
        ok_of_bind (apply_to_details codec.encode details) (λ ps. ok (FailureInfo.canceled ps)) h in
      let s : FailureInfo.canceled ps ≡ j = cc k in
      rw (← s) (ap (λ r. r >>= λ x. ok (FailureInfo.canceled x)) (details-back details ps e))
  info-back (FailureInfo.reset_workflow details) j h =
      let (ps, e, k) =
        ok_of_bind (apply_to_details codec.encode details)
          (λ ps. ok (FailureInfo.reset_workflow ps)) h in
      let s : FailureInfo.reset_workflow ps ≡ j = cc k in
      rw (← s) (ap (λ r. r >>= λ x. ok (FailureInfo.reset_workflow x)) (details-back details ps e))
  info-back FailureInfo.unset j h = let s : FailureInfo.unset ≡ j = cc h in rw (← s) refl
  info-back FailureInfo.terminated j h = let s : FailureInfo.terminated ≡ j = cc h in rw (← s) refl
  info-back (FailureInfo.server n) j h = let s : FailureInfo.server n ≡ j = cc h in rw (← s) refl
  info-back (FailureInfo.activity a) j h =
      let s : FailureInfo.activity a ≡ j = cc h in rw (← s) refl
  info-back (FailureInfo.child_workflow a) j h =
      let s : FailureInfo.child_workflow a ≡ j = cc h in rw (← s) refl

  mutual
    unfolding apply_to_failure_payloads apply_to_cause

    pub failure-back :
        (f g : Failure)
        → apply_to_failure_payloads codec.encode f ≡ ok g
        → apply_to_failure_payloads codec.decode g ≡ ok f
    failure-back (failure m t enc info cause) g h =
        let (a, e, k) =
          ok_of_bind (apply_to_attributes codec.encode enc)
            (λ a. apply_to_info codec.encode info >>= λ i.
              apply_to_cause codec.encode cause >>= λ c. ok (failure m t a i c))
            h in
        let (i, e', k') =
          ok_of_bind (apply_to_info codec.encode info)
            (λ i. apply_to_cause codec.encode cause >>= λ c. ok (failure m t a i c)) k in
        let (c, e'', k'') =
          ok_of_bind (apply_to_cause codec.encode cause) (λ c. ok (failure m t a i c)) k' in
        let s : failure m t a i c ≡ g = cc k'' in
        ap (λ x. apply_to_failure_payloads codec.decode x) (sym s)
        ∙ ap
            (λ r. r >>= λ a. apply_to_info codec.decode i >>= λ i.
              apply_to_cause codec.decode c >>= λ c. ok (failure m t a i c))
            (attributes-back enc a e)
        ∙ ap (λ r. r >>= λ i. apply_to_cause codec.decode c >>= λ c. ok (failure m t enc i c))
            (info-back info i e')
        ∙ ap (λ r. r >>= λ c. ok (failure m t enc info c)) (cause-back cause c e'')

    cause-back :
        (f g : FailureCause)
        → apply_to_cause codec.encode f ≡ ok g
        → apply_to_cause codec.decode g ≡ ok f
    cause-back FailureCause.no_cause g h =
        let s : FailureCause.no_cause ≡ g = cc h in ap (λ x. apply_to_cause codec.decode x) (sym s)
    cause-back (FailureCause.caused_by f) g h =
        let (x, e, k) =
          ok_of_bind (apply_to_failure_payloads codec.encode f) (λ x. ok (FailureCause.caused_by x))
            h in
        let s : FailureCause.caused_by x ≡ g = cc k in
        ap (λ y. apply_to_cause codec.decode y) (sym s)
        ∙ ap (λ r. r >>= λ y. ok (FailureCause.caused_by y)) (failure-back f x e)
