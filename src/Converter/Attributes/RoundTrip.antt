-- ===== src/Converter/Attributes/RoundTrip.antt =====
-- The value of a search attribute is read back as it was written.
use temporalio_sdk_python.Common.{
  Bool, true, false, not, Option, none, some, List, [], ◌∷◌, String, ◌≡◌, ◌≢◌, refl, length, sym,
  ap, ◌∙◌, string_eq, ℕ_eq, arith, if◌then◌else◌,
}
use temporalio_sdk_python.Common.Dict.{get, put, get-put}
use temporalio_sdk_python.Common.Result.{Result, ok, err, ◌>>=◌, ok_of_bind}
use temporalio_sdk_python.Payload.{Payload, Value, null, raw_value}
use temporalio_sdk_python.Exceptions.{Exc}
use temporalio_sdk_python.SearchAttributes.{
  IndexedValueType, text, keyword, int, double, bool, datetime, keyword_list, SearchAttributeKey,
  SearchAttributePair, name_of, metadata_type, from_metadata_type,
}
use temporalio_sdk_python.Converter.Encoding.{Libraries}
use temporalio_sdk_python.Converter.Composite.{
  new_composite, to_payloads, from_payloads, default_encodings,
}
use temporalio_sdk_python.Converter.Composite.RoundTrip.{is_raw}
use temporalio_sdk_python.Converter.Composite.Defaults.{
  ReadsBack, default-from_payloads-to_payloads,
}
use temporalio_sdk_python.Converter.Composite.Lengths.{length-to_payloads_ok}
use temporalio_sdk_python.Converter.Failures.{first_of}
use temporalio_sdk_python.Converter.Attributes.{
  Dates, is_instance, has_text_items, to_payload, from_payload, iso_value, with_type, encode_value,
  encode_typed_search_attribute_value, single_item, checked, decode_item, known_key, decode_one,
}
use temporalio_sdk_python.Converter.Attributes.Blind.{from_payload-with_type}

-- The parser reads what `isoformat` writes of a date.
abbrev pub ReadsDate : Dates → Value → Type 0
ReadsDate dates (Value.datetime d z) = dates.parse (dates.isoformat d z) ≡ ok (d, z)
ReadsDate dates _ = Unit {0}

module _ (lib : Libraries) (dates : Dates) where
  raise_or :
      {A : Type 0} (b : Bool) (e : Exc) (r : Result Exc A) (a : A)
      → (if not b then err e else r) ≡ ok a
      → (b ≡ true) × (r ≡ ok a)
  raise_or true e r a h = (refl, h)
  raise_or false e r a h = cc h

  plain_instance :
      (t : IndexedValueType) (v : Value)
      → is_instance t v ≡ true
      → is_raw (iso_value lib dates v) ≡ false
  plain_instance text (raw_value p) h = cc h
  plain_instance keyword (raw_value p) h = cc h
  plain_instance int (raw_value p) h = cc h
  plain_instance double (raw_value p) h = cc h
  plain_instance bool (raw_value p) h = cc h
  plain_instance datetime (raw_value p) h = cc h
  plain_instance keyword_list (raw_value p) h = cc h
  plain_instance _ _ h = refl

  -- One value.
  to_payload-back :
      (P : Value → Type 0) (v : Value) (p : Payload)
      → ReadsBack P lib
      → P v
      → is_raw v ≡ false
      → to_payload lib dates v ≡ ok p
      → from_payload lib dates p ≡ ok v
  to_payload-back P v p laws a r h =
      let (ps, e, k) =
        ok_of_bind (to_payloads (new_composite (default_encodings lib)) (v ∷ [])) first_of h in
      let back = default-from_payloads-to_payloads P lib (v ∷ []) ps laws ((a, r), tt) e in
      first_back ps (length-to_payloads_ok (new_composite (default_encodings lib)) (v ∷ []) ps e) k
        back
    where
      first_back :
          (ps : List Payload)
          → length ps ≡ 1
          → first_of ps ≡ ok p
          → from_payloads (new_composite (default_encodings lib)) ps none ≡ ok (v ∷ [])
          → from_payload lib dates p ≡ ok v
      first_back [] n f g = cc f
      first_back (q ∷ []) n f g =
          let same : q ≡ p = cc f in
          ap (λ x. from_payload lib dates x) (sym same) ∙ ap (λ r. r >>= first_of) g
      first_back (q ∷ r ∷ ps) n f g = absurd (omega (arith, n))

  known_key-metadata :
      (name : String) (t : IndexedValueType)
      → known_key lib dates name (some (metadata_type t))
        ≡ some (record { name = name; indexed_value_type = t })
  unfolding metadata_type from_metadata_type
  known_key-metadata name text = refl
  known_key-metadata name keyword = refl
  known_key-metadata name int = refl
  known_key-metadata name double = refl
  known_key-metadata name bool = refl
  known_key-metadata name datetime = refl
  known_key-metadata name keyword_list = refl

  decode_item-iso :
      (t : IndexedValueType) (name : String) (v : Value)
      → ReadsDate dates v
      → is_instance t v ≡ true
      → decode_item lib dates
          (record { name = name; indexed_value_type = t })
          (single_item lib dates t (iso_value lib dates v))
        ≡ ok (some (record { key = record { name = name; indexed_value_type = t }; value = v }))
  decode_item-iso text name (Value.text s) law h = refl
  decode_item-iso keyword name (Value.text s) law h = refl
  decode_item-iso int name (Value.int n) law h = refl
  decode_item-iso int name (Value.bool b) law h = refl
  decode_item-iso double name (Value.float f) law h = refl
  decode_item-iso bool name (Value.bool b) law h = refl
  decode_item-iso keyword_list name (Value.seq vs) law h = refl
  decode_item-iso keyword_list name (Value.text s) law h = refl
  decode_item-iso keyword_list name (Value.bytes b) law h = refl
  decode_item-iso datetime name (Value.datetime d z) law h =
      let key : SearchAttributeKey = record { name = name; indexed_value_type = datetime } in
      ap
        (λ (r : Result Exc (String × Option String)).
          (r >>= λ x. ok (Value.datetime x.0 x.1)) >>= λ w. ok (checked lib dates key w))
        law
  decode_item-iso _ name _ law h = cc h

  encode_not_null :
      (key : SearchAttributeKey) (v : Value)
      → v ≢ null
      → encode_typed_search_attribute_value lib dates key v
        ≡ encode_value lib dates key.indexed_value_type v
  unfolding encode_typed_search_attribute_value
  encode_not_null key null n = absurd (n refl)
  encode_not_null key _ n = refl

  module _ (P : Value → Type 0) (laws : ReadsBack P lib) where
    decode_one-with_type :
        (name : String) (t : IndexedValueType) (v : Value) (q : Payload)
        → ReadsDate dates v
        → is_instance t v ≡ true
        → from_payload lib dates q ≡ ok (iso_value lib dates v)
        → decode_one lib dates name (with_type lib dates (metadata_type t) q)
          ≡ ok (some (record { key = record { name = name; indexed_value_type = t }; value = v }))
    unfolding decode_one get put
    decode_one-with_type name t v q law i e =
        let p = with_type lib dates (metadata_type t) q in
        let key : SearchAttributeKey = record { name = name; indexed_value_type = t } in
        let read : Option SearchAttributeKey → Result Exc (Option SearchAttributePair) = λ o.
          elim o [
            | none ↦ ok none
            | some k ↦ from_payload lib dates p >>= λ w.
                decode_item lib dates k (single_item lib dates k.indexed_value_type w)
          ] in
        ap (λ o. read (known_key lib dates name o))
          (get-put q.metadata "type" "type" (metadata_type t))
        ∙ ap read (known_key-metadata name t)
        ∙ ap (λ r. r >>= λ w. decode_item lib dates key (single_item lib dates t w))
            (from_payload-with_type lib dates (metadata_type t) q ∙ e)
        ∙ decode_item-iso t name v law i

    pub decode_one-encode :
        (a : SearchAttributePair) (p : Payload)
        → a.value ≢ null
        → P (iso_value lib dates a.value)
        → ReadsDate dates a.value
        → encode_typed_search_attribute_value lib dates a.key a.value ≡ ok p
        → decode_one lib dates (name_of a) p ≡ ok (some a)
    decode_one-encode a p n s law h =
        let t = a.key.indexed_value_type in
        let v = a.value in
        let (i, k) = raise_or (is_instance t v) _ _ p (sym (encode_not_null a.key v n) ∙ h) in
        let (_, l) = raise_or (has_text_items (iso_value lib dates v)) _ _ p k in
        let (q, e, m) =
          ok_of_bind (to_payload lib dates (iso_value lib dates v))
            (λ q. ok (with_type lib dates (metadata_type t) q)) l in
        let same : with_type lib dates (metadata_type t) q ≡ p = cc m in
        ap (λ x. decode_one lib dates (name_of a) x) (sym same)
        ∙ decode_one-with_type (name_of a) t v q law i
            (to_payload-back P (iso_value lib dates v) q laws s (plain_instance t v i) e)
