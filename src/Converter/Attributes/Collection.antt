-- ===== src/Converter/Attributes/Collection.antt =====
-- Typed search attributes are read back as they were written.
use mathlib.Core.List.{append_assoc, append-nil}
use temporalio_sdk_python.Common.{
  false, Option, none, some, List, [], ◌∷◌, ◌++◌, String, ◌≡◌, ◌≢◌, refl, sym, ap, subst, ◌∙◌,
  string_eq, ℕ_eq, arith, if◌then◌else◌, ◌==◌, inl, inr, Bool-cases,
}
use temporalio_sdk_python.Common.Dict.{get, put, get-put}
use temporalio_sdk_python.Common.Result.{Result, ok, ◌>>=◌, ok_of_bind}
use temporalio_sdk_python.Payload.{Payload, Value, null}
use temporalio_sdk_python.Exceptions.{Exc}
use temporalio_sdk_python.SearchAttributes.{
  SearchAttributePair, name_of, insert, sorted, typed_search_attributes,
}
use temporalio_sdk_python.SearchAttributes.Sorted.{
  entry, Below, Unique, IsSorted, typed_search_attributes-Unique, typed_search_attributes-IsSorted,
}
use temporalio_sdk_python.SearchAttributes.Order.{
  Reordered, nil, keep, swap, both, sorted-Reordered,
}
use temporalio_sdk_python.Converter.Encoding.{Libraries}
use temporalio_sdk_python.Converter.Composite.Defaults.{ReadsBack}
use temporalio_sdk_python.Converter.Attributes.{
  Dates, IndexedFields, iso_value, encode_typed_search_attribute_value, encode_search_attributes,
  decode_pairs, decode_one, added, decode_typed_search_attributes,
}
use temporalio_sdk_python.Converter.Attributes.RoundTrip.{ReadsDate, decode_one-encode}

put-absent :
    (api : IndexedFields) (k : String) (p : Payload)
    → get api k ≡ none
    → put api k p ≡ api ++ (k, p) ∷ []
unfolding get put
put-absent [] k p h = refl
put-absent ((j, q) ∷ api) k p h = elim (Bool-cases (j == k)) [
  | inl e ↦ let x : some q ≡ none = ap (λ b. if b then some q else get api k) (sym e) ∙ h in cc x
  | inr e ↦ rw e (
      ap (λ l. (j, q) ∷ l)
        (put-absent api k p (ap (λ b. if b then some q else get api k) (sym e) ∙ h)))
]

-- No entry has a name of the pairs.
abbrev Fresh : IndexedFields → List SearchAttributePair → Type 0
Fresh api [] = Unit {0}
Fresh api (a ∷ attrs) = (get api (name_of a) ≡ none) × Fresh api attrs

Fresh-nil : (l : List SearchAttributePair) → Fresh [] l
unfolding get
Fresh-nil [] = tt
Fresh-nil (a ∷ l) = (refl, Fresh-nil l)

other_name :
    (b : SearchAttributePair) (l : List SearchAttributePair) (k : String)
    → entry (b ∷ l) k ≡ none
    → ((k == name_of b) ≡ false) × (entry l k ≡ none)
unfolding entry
other_name b l k h =
    ground (arith, string_eq.same_iff (name_of b) k, string_eq.same_iff k (name_of b))

Fresh-put :
    (api : IndexedFields) (k : String) (p : Payload) (attrs : List SearchAttributePair)
    → entry attrs k ≡ none
    → Fresh api attrs
    → Fresh (put api k p) attrs
unfolding get put
Fresh-put api k p [] h f = tt
Fresh-put api k p (b ∷ attrs) h f =
    let (d, h') = other_name b attrs k h in
    (get-put api k (name_of b) p ∙ rw d f.0, Fresh-put api k p attrs h' f.1)

-- Values that stand in a collection: not None, and read back from their payloads and from their dates.
abbrev pub AllSound : (Value → Type 0) → Dates → Libraries → List SearchAttributePair → Type 0
AllSound P dates lib [] = Unit {0}
AllSound P dates lib (a ∷ attrs) =
    ((a.value ≢ null) × P (iso_value lib dates a.value) × ReadsDate dates a.value)
    × AllSound P dates lib attrs

insert-first :
    (a : SearchAttributePair) (l : List SearchAttributePair)
    → Below (name_of a) l
    → insert a l ≡ a ∷ l
unfolding insert
insert-first a [] b = refl
insert-first a (c ∷ l) b = rw b.0 refl

sorted-same : (l : List SearchAttributePair) → IsSorted l → sorted l ≡ l
unfolding sorted
sorted-same [] s = refl
sorted-same (a ∷ l) s = ap (insert a) (sorted-same l s.1) ∙ insert-first a l s.0

module _ (lib : Libraries) (dates : Dates) (P : Value → Type 0) (laws : ReadsBack P lib) where
  -- What is written adds entries to the message, and these are read back.
  abbrev Written : IndexedFields → IndexedFields → List SearchAttributePair → Type 0
  Written api api' attrs =
      (entries : IndexedFields) × (api' ≡ api ++ entries)
      × (decode_pairs lib dates entries ≡ ok attrs)

  encode-Written :
      (attrs : List SearchAttributePair) (api api' : IndexedFields)
      → Unique attrs
      → Fresh api attrs
      → AllSound P dates lib attrs
      → encode_search_attributes lib dates attrs api ≡ ok api'
      → Written api api' attrs
  unfolding encode_search_attributes decode_pairs
  encode-Written [] api api' u f s h =
      let e : api ≡ api' = cc h in ([], sym e ∙ sym (append-nil api), refl)
  encode-Written (a ∷ attrs) api api' u f s h =
      let (p, e, k) =
        ok_of_bind (encode_typed_search_attribute_value lib dates a.key a.value)
          (λ p. encode_search_attributes lib dates attrs (put api (name_of a) p)) h in
      let (es, x, y) =
        encode-Written attrs (put api (name_of a) p) api' u.1
          (Fresh-put api (name_of a) p attrs u.0 f.1) s.1 k in
      (
        (name_of a, p) ∷ es,
        x
            ∙ ap (λ l. l ++ es) (put-absent api (name_of a) p f.0)
            ∙ append_assoc api ((name_of a, p) ∷ []) es,
        rw (decode_one-encode lib dates P laws a p s.0.0 s.0.1 s.0.2 e, y) refl,
      )

added-keep :
    (lib : Libraries) (dates : Dates) (o : Option SearchAttributePair)
    {l m : List SearchAttributePair}
    → Reordered l m
    → Reordered (added lib dates o l) (added lib dates o m)
added-keep lib dates none r = r
added-keep lib dates (some a) r = keep a r

as_it_is : (l : List SearchAttributePair) → Reordered l l
as_it_is [] = nil
as_it_is (a ∷ l) = keep a (as_it_is l)

added-swap :
    (lib : Libraries) (dates : Dates) (o o' : Option SearchAttributePair)
    (l : List SearchAttributePair)
    → Reordered
        (added lib dates o (added lib dates o' l))
        (added lib dates o' (added lib dates o l))
added-swap lib dates (some a) (some b) l = swap a b
added-swap lib dates none o' l = as_it_is (added lib dates o' l)
added-swap lib dates (some a) none l = as_it_is (a ∷ l)

-- An entry and the entries after it.
read_both :
    (lib : Libraries) (dates : Dates) (r : Result Exc (Option SearchAttributePair))
    (rest : Result Exc (List SearchAttributePair)) (o : Option SearchAttributePair)
    (ps : List SearchAttributePair)
    → r ≡ ok o
    → rest ≡ ok ps
    → (r >>= λ pair. rest >>= λ pairs. ok (added lib dates pair pairs)) ≡ ok (added lib dates o ps)
read_both lib dates r rest o ps e f =
    ap (λ x. x >>= λ pair. rest >>= λ pairs. ok (added lib dates pair pairs)) e
    ∙ ap (λ x. x >>= λ pairs. ok (added lib dates o pairs)) f

-- The entries of a message are read in whatever order they come.
decode-Reordered :
    (lib : Libraries) (dates : Dates) {es fs : IndexedFields} (pairs : List SearchAttributePair)
    → Reordered es fs
    → decode_pairs lib dates es ≡ ok pairs
    → (others : List SearchAttributePair) × (decode_pairs lib dates fs ≡ ok others)
      × Reordered pairs others
unfolding decode_pairs
decode-Reordered lib dates pairs nil h =
    let e : [] ≡ pairs = cc h in ([], refl, subst (λ l. Reordered l []) e nil)
decode-Reordered lib dates pairs (keep (name, p) {l} {m} r) h =
    let (o, e, k) =
      ok_of_bind (decode_one lib dates name p)
        (λ pair. decode_pairs lib dates l >>= λ ps. ok (added lib dates pair ps)) h in
    let (ps, f, k') = ok_of_bind (decode_pairs lib dates l) (λ ps. ok (added lib dates o ps)) k in
    let (others, g, t) = decode-Reordered lib dates ps r f in
    let same : added lib dates o ps ≡ pairs = cc k' in
    (
      added lib dates o others,
      read_both lib dates (decode_one lib dates name p) (decode_pairs lib dates m) o others e g,
      subst (λ z. Reordered z (added lib dates o others)) same (added-keep lib dates o t),
    )
decode-Reordered lib dates pairs (swap (name, p) (other, q) {l}) h =
    let rest = decode_one lib dates other q >>= λ pair.
    decode_pairs lib dates l >>= λ ps. ok (added lib dates pair ps) in
    let (o, e, k) =
      ok_of_bind (decode_one lib dates name p) (λ pair. rest >>= λ ps. ok (added lib dates pair ps))
        h in
    let (ps, f, k') = ok_of_bind rest (λ ps. ok (added lib dates o ps)) k in
    let (o', e', m) =
      ok_of_bind (decode_one lib dates other q)
        (λ pair. decode_pairs lib dates l >>= λ ps. ok (added lib dates pair ps)) f in
    let (qs, f', m') = ok_of_bind (decode_pairs lib dates l) (λ ps. ok (added lib dates o' ps)) m in
    let inner : added lib dates o' qs ≡ ps = cc m' in
    let same : added lib dates o ps ≡ pairs = cc k' in
    let whole = ap (λ x. added lib dates o x) inner ∙ same in
    (
      added lib dates o' (added lib dates o qs),
      read_both lib dates (decode_one lib dates other q) (decode_pairs lib dates ((name, p) ∷ l)) o'
          (added lib dates o qs) e'
          (read_both lib dates (decode_one lib dates name p) (decode_pairs lib dates l) o qs e f'),
      subst (λ z. Reordered z (added lib dates o' (added lib dates o qs))) whole
          (added-swap lib dates o o' qs),
    )
decode-Reordered lib dates pairs (both r s) h =
    let (others, e, x) = decode-Reordered lib dates pairs r h in
    let (more, f, y) = decode-Reordered lib dates others s e in (more, f, both x y)

-- Typed search attributes are read back as they were written: a collection that was constructed, of values that the
-- payload converter reads back and none of which is None, is the same after it was put in a message and read from it,
-- in whatever order the entries of the message come, with all keys, their types and their values, if the parser of dates
-- reads what `isoformat` writes of the dates among them.
pub decode-encode_search_attributes :
    (lib : Libraries) (dates : Dates) (P : Value → Type 0) (pairs attrs : List SearchAttributePair)
    (api received : IndexedFields)
    → ReadsBack P lib
    → typed_search_attributes pairs ≡ ok attrs
    → AllSound P dates lib attrs
    → encode_search_attributes lib dates attrs [] ≡ ok api
    → Reordered api received
    → decode_typed_search_attributes lib dates received ≡ ok attrs
unfolding decode_typed_search_attributes
decode-encode_search_attributes lib dates P pairs attrs api received laws c s h r =
    let (o, u, _) = typed_search_attributes-IsSorted pairs attrs c in
    let (es, x, y) = encode-Written lib dates P laws attrs [] api u (Fresh-nil attrs) s h in
    let (others, e, t) =
      decode-Reordered lib dates attrs r (ap (λ l. decode_pairs lib dates l) x ∙ y) in
    ap (λ q. q >>= typed_search_attributes) e
    ∙ sorted-Reordered attrs others t u
    ∙ typed_search_attributes-Unique attrs u
    ∙ ap ok (sorted-same attrs o)
