-- ===== src/SearchAttributes/Lookup.antt =====
-- What `in` and `[]` say of a collection.
use temporalio_sdk_python.Common.{
  Bool, true, false, ◌&&◌, ◌||◌, none, some, List, [], ◌∷◌, ◌≡◌, refl, sym, ap, ◌∙◌, inl, inr,
  string_eq, ℕ_eq, arith, if◌then◌else◌, ◌==◌, Bool-cases,
}
use temporalio_sdk_python.Common.Result.{ok, err}
use temporalio_sdk_python.Payload.{Value, null}
use temporalio_sdk_python.SearchAttributes.{
  SearchAttributePair, SearchAttributeKey, name_of, typed_search_attributes, same_key, is_truthy,
  first_value, unless_none, getitem, contains,
}
use temporalio_sdk_python.SearchAttributes.Sorted.{entry, Unique, typed_search_attributes-IsSorted}

absent_key :
    (attrs : List SearchAttributePair) (key : SearchAttributeKey)
    → entry attrs key.name ≡ none
    → contains attrs key ≡ false
unfolding entry contains
absent_key [] key h = refl
absent_key (a ∷ attrs) key h = elim (Bool-cases (name_of a == key.name)) [
  | inl e ↦
      let k : some a ≡ none = ap (λ b. if b then some a else entry attrs key.name) (sym e) ∙ h in
      cc k
  | inr e ↦ ground (arith, absent_key attrs key)
]

left_of : (p q : Bool) → (p && q) ≡ true → p ≡ true
left_of true q h = refl
left_of false q h = cc h

or_false : (p : Bool) → (p || false) ≡ p
or_false true = refl
or_false false = refl

contains-first_value :
    (attrs : List SearchAttributePair) (key : SearchAttributeKey)
    → Unique attrs
    → contains attrs key ≡ is_truthy (first_value attrs key)
unfolding entry contains
contains-first_value [] key u = refl
contains-first_value (a ∷ attrs) key u = elim (Bool-cases (same_key a.key key)) [
  | inl e ↦
      let n = (string_eq.same_iff (name_of a) key.name).0 (left_of (name_of a == key.name) _ e) in
      let f = absent_key attrs key (ap (λ m. entry attrs m) (sym n) ∙ u.0) in
      rw (e, f) (or_false (is_truthy a.value))
  | inr e ↦ rw e (contains-first_value attrs key u.1)
]

of_unless_none :
    (v : Value) → is_truthy v ≡ elim (unless_none v) [ ok w ↦ is_truthy w | err e ↦ false ]
of_unless_none null = refl
of_unless_none _ = refl

-- A key is said to be in a collection that was constructed if and only if the collection has a value for it that is
-- true: of a key whose value is 0, False or an empty text, `[]` gives the value and `in` says that it is not there.
pub contains-getitem :
    (pairs attrs : List SearchAttributePair) (key : SearchAttributeKey)
    → typed_search_attributes pairs ≡ ok attrs
    → contains attrs key ≡ elim (getitem attrs key) [ ok v ↦ is_truthy v | err e ↦ false ]
unfolding getitem
contains-getitem pairs attrs key h =
    contains-first_value attrs key (typed_search_attributes-IsSorted pairs attrs h).1
    ∙ of_unless_none (first_value attrs key)
