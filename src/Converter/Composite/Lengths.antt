-- ===== src/Converter/Composite/Lengths.antt =====
-- A composite converter gives as many payloads as values.
use temporalio_sdk_python.Common.{
  suc, List, [], ◌∷◌, String, ◌≡◌, refl, ap, string_eq, ℕ_eq, option_eq, length,
}
use temporalio_sdk_python.Common.Dict.{Dict}
use temporalio_sdk_python.Common.Result.{ok, ◌>>=◌, ok_of_bind}
use temporalio_sdk_python.Payload.{Payload, Value}
use temporalio_sdk_python.Converter.Encoding.{EncodingPayloadConverter}
use temporalio_sdk_python.Converter.Composite.{one_payload, known_payload, to_payloads}

pub length-to_payloads_ok :
    (table : Dict String EncodingPayloadConverter) (vs : List Value) (ps : List Payload)
    → to_payloads table vs ≡ ok ps
    → length ps ≡ length vs
unfolding to_payloads
length-to_payloads_ok table [] ps h = let e : ps ≡ [] = cc in rw e refl
length-to_payloads_ok table (v ∷ vs) ps h =
    let (o, e, k) =
      ok_of_bind (one_payload table v)
        (λ found. known_payload found >>= λ p. to_payloads table vs >>= λ qs. ok (p ∷ qs)) h in
    let (p, f, k') =
      ok_of_bind (known_payload o) (λ p. to_payloads table vs >>= λ qs. ok (p ∷ qs)) k in
    let (qs, g, k'') = ok_of_bind (to_payloads table vs) (λ qs. ok (p ∷ qs)) k' in
    let both : ps ≡ p ∷ qs = cc k'' in rw both (ap suc (length-to_payloads_ok table vs qs g))
