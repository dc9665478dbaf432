-- ===== src/SearchAttributes/Sorted.antt =====
-- What the construction of a collection does: it sorts, and refuses duplicates.
use temporalio_sdk_python.Common.{
  Bool, true, false, ◌||◌, Option, none, some, List, [], ◌∷◌, String, ◌≡◌, refl, sym, ap, subst,
  ◌∙◌, inl, inr, string_eq, arith, if◌then◌else◌, ◌==◌, Bool-cases,
}
use temporalio_sdk_python.Common.Result.{ok, err}
use temporalio_sdk_python.Common.Text.{
  text_le, text_le_refl, text_le_total, text_le_trans, text_le_antisym,
}
use temporalio_sdk_python.SearchAttributes.{
  SearchAttributePair, name_of, insert, sorted, has_duplicates, duplicate_error,
  typed_search_attributes,
}

-- The first pair of a name.
unfoldable pub entry : List SearchAttributePair → String → Option SearchAttributePair
entry [] n = none
entry (a ∷ l) n = if name_of a == n then some a else entry l n

-- No name stands twice.
abbrev pub Unique : List SearchAttributePair → Type 0
Unique [] = Unit {0}
Unique (a ∷ l) = (entry l (name_of a) ≡ none) × Unique l

-- Every pair stands before those of greater names.
abbrev pub Below : String → List SearchAttributePair → Type 0
Below n [] = Unit {0}
Below n (a ∷ l) = (text_le n (name_of a) ≡ true) × Below n l

abbrev pub IsSorted : List SearchAttributePair → Type 0
IsSorted [] = Unit {0}
IsSorted (a ∷ l) = Below (name_of a) l × IsSorted l

Below-trans :
    (m n : String) (l : List SearchAttributePair) → text_le m n ≡ true → Below n l → Below m l
Below-trans m n [] h b = tt
Below-trans m n (a ∷ l) h b = (text_le_trans m n (name_of a) h b.0, Below-trans m n l h b.1)

Below-insert :
    (n : String) (a : SearchAttributePair) (l : List SearchAttributePair)
    → text_le n (name_of a) ≡ true
    → Below n l
    → Below n (insert a l)
unfolding insert
Below-insert n a [] h b = (h, tt)
Below-insert n a (c ∷ l) h b = elim (Bool-cases (text_le (name_of a) (name_of c))) [
  | inl e ↦ rw e (h, b)
  | inr e ↦ rw e (b.0, Below-insert n a l h b.1)
]

insert-IsSorted :
    (a : SearchAttributePair) (l : List SearchAttributePair) → IsSorted l → IsSorted (insert a l)
unfolding insert
insert-IsSorted a [] s = (tt, tt)
insert-IsSorted a (c ∷ l) s = elim (Bool-cases (text_le (name_of a) (name_of c))) [
  | inl e ↦ rw e ((e, Below-trans (name_of a) (name_of c) l e s.0), s)
  | inr e ↦ rw e (
    Below-insert (name_of c) a l (text_le_total (name_of a) (name_of c) e) s.0,
    insert-IsSorted a l s.1,
  )
]

pub sorted-IsSorted : (l : List SearchAttributePair) → IsSorted (sorted l)
unfolding sorted
sorted-IsSorted [] = tt
sorted-IsSorted (a ∷ l) = insert-IsSorted a (sorted l) (sorted-IsSorted l)

unequal : (m n : String) → text_le m n ≡ false → (m == n) ≡ false
unequal m n h = elim (Bool-cases (m == n)) [
  | inl k ↦
      let t = ap (λ x. text_le m x) (sym ((string_eq.same_iff m n).0 k)) ∙ text_le_refl m in
      cc (t, h)
  | inr k ↦ k
]

different :
    (a c : SearchAttributePair) (n : String)
    → text_le (name_of a) (name_of c) ≡ false
    → (name_of a == n) ≡ true
    → (name_of c == n) ≡ false
different a c n h e =
    let f = unequal (name_of a) (name_of c) h in
    ground (
      arith,
      string_eq.same_iff (name_of a) n,
      string_eq.same_iff (name_of c) n,
      string_eq.same_iff (name_of a) (name_of c),
    )

entry-insert :
    (a : SearchAttributePair) (l : List SearchAttributePair) (n : String)
    → entry (insert a l) n ≡ (if name_of a == n then some a else entry l n)
unfolding entry insert
entry-insert a [] n = refl
entry-insert a (c ∷ l) n = elim (Bool-cases (text_le (name_of a) (name_of c))) [
  | inl e ↦ rw e refl
  | inr e ↦ rw e (ground (arith, entry-insert a l n, different a c n e))
]

-- Sorting is stable: the first pair of a name stays the first of that name.
pub entry-sorted : (l : List SearchAttributePair) (n : String) → entry (sorted l) n ≡ entry l n
unfolding entry sorted
entry-sorted [] n = refl
entry-sorted (a ∷ l) n =
    entry-insert a (sorted l) n
    ∙ ap (λ (o : Option SearchAttributePair). if name_of a == n then some a else o)
        (entry-sorted l n)

rest_entry :
    (c : SearchAttributePair) (l : List SearchAttributePair) (n : String)
    → entry (c ∷ l) n ≡ none
    → entry l n ≡ none
unfolding entry
rest_entry c l n h = ground arith

insert-Unique :
    (a : SearchAttributePair) (l : List SearchAttributePair)
    → entry l (name_of a) ≡ none
    → Unique l
    → Unique (insert a l)
unfolding insert entry
insert-Unique a [] h u = (refl, tt)
insert-Unique a (c ∷ l) h u = elim (Bool-cases (text_le (name_of a) (name_of c))) [
  | inl e ↦ rw e (h, u)
  | inr e ↦
      let n : (name_of a == name_of c) ≡ false = unequal (name_of a) (name_of c) e in
      let first : entry (insert a l) (name_of c) ≡ none = entry-insert a l (name_of c) ∙ rw n u.0 in
      rw e (first, insert-Unique a l (rest_entry c l (name_of a) h) u.1)
]

pub sorted-Unique : (l : List SearchAttributePair) → Unique l → Unique (sorted l)
unfolding sorted
sorted-Unique [] u = tt
sorted-Unique (a ∷ l) u =
    insert-Unique a (sorted l) (entry-sorted l (name_of a) ∙ u.0) (sorted-Unique l u.1)

same_entry :
    (a b : SearchAttributePair) (l : List SearchAttributePair)
    → entry (b ∷ l) (name_of a) ≡ none
    → (name_of a == name_of b) ≡ false
unfolding entry
same_entry a b l h =
    ground (
      arith,
      string_eq.same_iff (name_of a) (name_of b),
      string_eq.same_iff (name_of b) (name_of a),
    )

Unique-has_duplicates : (l : List SearchAttributePair) → Unique l → has_duplicates l ≡ false
unfolding has_duplicates
Unique-has_duplicates [] u = refl
Unique-has_duplicates (a ∷ []) u = refl
Unique-has_duplicates (a ∷ b ∷ l) u = rw (same_entry a b l u.0) (Unique-has_duplicates (b ∷ l) u.1)

absent :
    (m n : String) (l : List SearchAttributePair)
    → text_le n m ≡ true
    → (n == m) ≡ false
    → Below m l
    → entry l n ≡ none
unfolding entry
absent m n [] h d b = refl
absent m n (c ∷ l) h d b = elim (Bool-cases (name_of c == n)) [
  | inl e ↦
      let k : text_le m n ≡ true =
        ap (λ x. text_le m x) (sym ((string_eq.same_iff (name_of c) n).0 e)) ∙ b.0 in
      let same = (string_eq.same_iff n m).1 (text_le_antisym n m h k) in cc (same, d)
  | inr e ↦ rw e (absent m n l h d b.1)
]

absent-next :
    (a b : SearchAttributePair) (l : List SearchAttributePair)
    → text_le (name_of a) (name_of b) ≡ true
    → (name_of a == name_of b) ≡ false
    → Below (name_of b) l
    → entry (b ∷ l) (name_of a) ≡ none
unfolding entry
absent-next a b l h d s =
    let f : (name_of b == name_of a) ≡ false = ground (
      arith,
      string_eq.same_iff (name_of a) (name_of b),
      string_eq.same_iff (name_of b) (name_of a),
    ) in
    rw f (absent (name_of b) (name_of a) l h d s)

first_differs : (a b : Bool) → (a || b) ≡ false → (a ≡ false) × (b ≡ false)
first_differs true b h = cc h
first_differs false b h = (refl, h)

IsSorted-Unique : (l : List SearchAttributePair) → IsSorted l → has_duplicates l ≡ false → Unique l
unfolding has_duplicates entry
IsSorted-Unique [] s h = tt
IsSorted-Unique (a ∷ []) s h = (refl, tt)
IsSorted-Unique (a ∷ b ∷ l) s h =
    let (d, k) = first_differs (name_of a == name_of b) (has_duplicates (b ∷ l)) h in
    (absent-next a b l s.0.0 d s.1.0, IsSorted-Unique (b ∷ l) s.1 k)

-- The construction of a collection succeeds if no name is given twice.
pub typed_search_attributes-Unique :
    (pairs : List SearchAttributePair)
    → Unique pairs
    → typed_search_attributes pairs ≡ ok (sorted pairs)
unfolding typed_search_attributes
typed_search_attributes-Unique pairs u =
    rw (Unique-has_duplicates (sorted pairs) (sorted-Unique pairs u)) refl

-- A collection that was constructed is sorted by name, has each name once, and holds for each name the first pair that
-- was given of it.
pub typed_search_attributes-IsSorted :
    (pairs attrs : List SearchAttributePair)
    → typed_search_attributes pairs ≡ ok attrs
    → IsSorted attrs × Unique attrs × ((n : String) → entry attrs n ≡ entry pairs n)
unfolding typed_search_attributes
typed_search_attributes-IsSorted pairs attrs h = elim (Bool-cases (has_duplicates (sorted pairs))) [
  | inl e ↦
      let k : err duplicate_error ≡ ok attrs =
        ap (λ b. if b then err duplicate_error else ok (sorted pairs)) (sym e) ∙ h in
      cc k
  | inr e ↦
      let k : ok (sorted pairs) ≡ ok attrs =
        ap (λ b. if b then err duplicate_error else ok (sorted pairs)) (sym e) ∙ h in
      let same : sorted pairs ≡ attrs = cc k in
      subst (λ l. IsSorted l × Unique l × ((n : String) → entry l n ≡ entry pairs n)) same
        (
          sorted-IsSorted pairs,
          IsSorted-Unique (sorted pairs) (sorted-IsSorted pairs) e,
          λ n. entry-sorted pairs n,
        )
]
