-- ===== src/Converter/Composite/RoundTrip.antt =====
-- Payloads decode to the values that they were encoded from.
use temporalio_sdk_python.Common.{
  Bool, true, false, Option, none, some, List, [], ◌∷◌, String, ◌≡◌, refl, sym, ap, ◌∙◌, string_eq,
  ℕ_eq, option_eq,
}
use temporalio_sdk_python.Common.Dict.{Dict}
use temporalio_sdk_python.Common.Result.{ok, ◌>>=◌, ok_of_bind}
use temporalio_sdk_python.Payload.{Payload, Value, raw_value}
use temporalio_sdk_python.Converter.Encoding.{EncodingPayloadConverter}
use temporalio_sdk_python.Converter.Composite.{
  first_payload, one_payload, known_payload, to_payloads, one_value, from_payloads,
}

abbrev pub is_raw : Value → Bool
is_raw (raw_value p) = true
is_raw _ = false

one_payload-plain :
    (table : Dict String EncodingPayloadConverter) (v : Value)
    → is_raw v ≡ false
    → one_payload table v ≡ first_payload table v
one_payload-plain table (raw_value p) h = cc
one_payload-plain table _ h = refl

abbrev pub AllPlain : (Value → Type 0) → List Value → Type 0
AllPlain P [] = Unit {0}
AllPlain P (v ∷ vs) = (P v × (is_raw v ≡ false)) × AllPlain P vs

known_payload-ok : (o : Option Payload) (p : Payload) → known_payload o ≡ ok p → o ≡ some p
known_payload-ok none p h = cc
known_payload-ok (some q) p h = cc

-- What a table encodes, it decodes: if it decodes the payload of each value that `P` allows, a list of them is the same
-- after a round trip without hints.
pub from_payloads-to_payloads :
    (P : Value → Type 0) (table : Dict String EncodingPayloadConverter) (vs : List Value)
    (ps : List Payload)
    → ((v : Value) (p : Payload)
        → P v
        → is_raw v ≡ false
        → first_payload table v ≡ ok (some p)
        → one_value table none p ≡ ok v)
    → AllPlain P vs
    → to_payloads table vs ≡ ok ps
    → from_payloads table ps none ≡ ok vs
unfolding to_payloads from_payloads
from_payloads-to_payloads P table [] ps each a h = let e : ps ≡ [] = cc in rw e refl
from_payloads-to_payloads P table (v ∷ vs) ps each a h =
    let (o, e, k) =
      ok_of_bind (one_payload table v)
        (λ found. known_payload found >>= λ p. to_payloads table vs >>= λ qs. ok (p ∷ qs)) h in
    let (p, f, k') =
      ok_of_bind (known_payload o) (λ p. to_payloads table vs >>= λ qs. ok (p ∷ qs)) k in
    let (qs, g, k'') = ok_of_bind (to_payloads table vs) (λ qs. ok (p ∷ qs)) k' in
    let first : first_payload table v ≡ ok (some p) =
      sym (one_payload-plain table v a.0.1) ∙ e ∙ ap ok (known_payload-ok o p f) in
    let one = each v p a.0.0 a.0.1 first in
    let rest = from_payloads-to_payloads P table vs qs each a.1 g in
    let both : ps ≡ p ∷ qs = cc k'' in rw both (rw (one, rest) refl)
