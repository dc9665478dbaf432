-- ===== src/SearchAttributes/Order.antt =====
-- A collection does not depend on the order in which its pairs are given.
use temporalio_sdk_python.Common.{
  true, none, some, List, [], ◌∷◌, String, ◌≡◌, refl, sym, ap, subst, ◌∙◌, inl, inr, string_eq,
  arith, if◌then◌else◌, ◌==◌, Bool-cases,
}
use temporalio_sdk_python.Common.Result.{ok}
use temporalio_sdk_python.Common.Text.{text_le, text_le_refl, text_le_antisym}
use temporalio_sdk_python.SearchAttributes.{
  SearchAttributePair, name_of, sorted, typed_search_attributes,
}
use temporalio_sdk_python.SearchAttributes.Sorted.{
  entry, Unique, Below, IsSorted, sorted-IsSorted, entry-sorted, sorted-Unique,
  typed_search_attributes-Unique,
}

-- The same entries in another order.
pub data Reordered {A : Type 0} : List A → List A → Type 0 where
  nil : Reordered [] []
  keep : (a : A) {l m : List A} → Reordered l m → Reordered (a ∷ l) (a ∷ m)
  swap : (a b : A) {l : List A} → Reordered (a ∷ b ∷ l) (b ∷ a ∷ l)
  both : {l m n : List A} → Reordered l m → Reordered m n → Reordered l n

swapped :
    (a b : SearchAttributePair) (l : List SearchAttributePair) (n : String)
    → entry (b ∷ l) (name_of a) ≡ none
    → entry (a ∷ b ∷ l) n ≡ entry (b ∷ a ∷ l) n
unfolding entry
swapped a b l n h = ground (
  arith,
  string_eq.same_iff (name_of a) n,
  string_eq.same_iff (name_of b) n,
  string_eq.same_iff (name_of b) (name_of a),
)

tail_entry :
    (a b : SearchAttributePair) (l : List SearchAttributePair)
    → entry (b ∷ l) (name_of a) ≡ none
    → entry l (name_of a) ≡ none
unfolding entry
tail_entry a b l h = ground arith

head_entry :
    (a b : SearchAttributePair) (l : List SearchAttributePair)
    → entry (b ∷ l) (name_of a) ≡ none
    → entry l (name_of b) ≡ none
    → entry (a ∷ l) (name_of b) ≡ none
unfolding entry
head_entry a b l h k =
    ground (
      arith,
      string_eq.same_iff (name_of a) (name_of b),
      string_eq.same_iff (name_of b) (name_of a),
    )

pub Reordered-Unique :
    {l m : List SearchAttributePair}
    → Reordered l m
    → Unique l
    → Unique m × ((n : String) → entry l n ≡ entry m n)
unfolding entry
Reordered-Unique nil u = (tt, λ n. refl)
Reordered-Unique (keep a r) u =
    let (v, e) = Reordered-Unique r u.1 in
    ((sym (e (name_of a)) ∙ u.0, v), λ n. ap (λ o. if name_of a == n then some a else o) (e n))
Reordered-Unique (swap a b {l}) u =
    ((head_entry a b l u.0 u.1.0, (tail_entry a b l u.0, u.1.1)), λ n. swapped a b l n u.0)
Reordered-Unique (both r s) u =
    let (v, e) = Reordered-Unique r u in let (w, f) = Reordered-Unique s v in (w, λ n. e n ∙ f n)

entry-Below :
    (m n : String) (l : List SearchAttributePair) (x : SearchAttributePair)
    → Below m l
    → entry l n ≡ some x
    → text_le m n ≡ true
unfolding entry
entry-Below m n [] x b h = cc h
entry-Below m n (a ∷ l) x b h = elim (Bool-cases (name_of a == n)) [
  | inl e ↦ ap (λ k. text_le m k) (sym ((string_eq.same_iff (name_of a) n).0 e)) ∙ b.0
  | inr e ↦ entry-Below m n l x b.1 (ap (λ y. if y then some a else entry l n) (sym e) ∙ h)
]

entry_self :
    (a : SearchAttributePair) (l : List SearchAttributePair) → entry (a ∷ l) (name_of a) ≡ some a
unfolding entry
entry_self a l = ground (arith, string_eq.same_iff (name_of a) (name_of a))

-- the first of a collection is not above any name that the collection has
first_le :
    (b x : SearchAttributePair) (l : List SearchAttributePair) (n : String)
    → Below (name_of b) l
    → entry (b ∷ l) n ≡ some x
    → text_le (name_of b) n ≡ true
unfolding entry
first_le b x l n s h = elim (Bool-cases (name_of b == n)) [
  | inl e ↦
      ap (λ k. text_le (name_of b) k) (sym ((string_eq.same_iff (name_of b) n).0 e))
      ∙ text_le_refl (name_of b)
  | inr e ↦ entry-Below (name_of b) n l x s (ap (λ y. if y then some b else entry l n) (sym e) ∙ h)
]

tails :
    (a : SearchAttributePair) (l m : List SearchAttributePair) (n : String)
    → entry l (name_of a) ≡ none
    → entry m (name_of a) ≡ none
    → entry (a ∷ l) n ≡ entry (a ∷ m) n
    → entry l n ≡ entry m n
unfolding entry
tails a l m n u v h = elim (Bool-cases (name_of a == n)) [
  | inl e ↦ subst (λ k. entry l k ≡ entry m k) ((string_eq.same_iff (name_of a) n).0 e) (u ∙ sym v)
  | inr e ↦
      sym (ap (λ y. if y then some a else entry l n) e)
      ∙ h
      ∙ ap (λ y. if y then some a else entry m n) e
]

entry-nil : (n : String) → entry [] n ≡ none
unfolding entry
entry-nil n = refl

-- Two sorted collections that say the same of each name are the same.
entry_extensional :
    (l m : List SearchAttributePair)
    → IsSorted l
    → IsSorted m
    → Unique l
    → Unique m
    → ((n : String) → entry l n ≡ entry m n)
    → l ≡ m
entry_extensional [] [] s t u v h = refl
entry_extensional [] (b ∷ m) s t u v h =
    cc (sym (entry-nil (name_of b)) ∙ h (name_of b) ∙ entry_self b m)
entry_extensional (a ∷ l) [] s t u v h =
    cc (sym (entry_self a l) ∙ h (name_of a) ∙ entry-nil (name_of a))
entry_extensional (a ∷ l) (b ∷ m) s t u v h =
    let ba = first_le b a m (name_of a) t.0 (sym (h (name_of a)) ∙ entry_self a l) in
    let ab = first_le a b l (name_of b) s.0 (h (name_of b) ∙ entry_self b m) in
    let n = text_le_antisym (name_of a) (name_of b) ab ba in
    let e : some a ≡ some b =
      sym (entry_self a l) ∙ h (name_of a) ∙ ap (λ k. entry (b ∷ m) k) n ∙ entry_self b m in
    let same : a ≡ b = cc e in
    let w = subst (λ x. entry m (name_of x) ≡ none) (sym same) v.0 in
    let rest =
      entry_extensional l m s.1 t.1 u.1 v.1
        (λ k. tails a l m k u.0 w (h k ∙ ap (λ x. entry (x ∷ m) k) (sym same))) in
    ap (λ x. a ∷ x) rest ∙ ap (λ x. x ∷ m) same

-- Pairs with different names make the same collection in every order.
pub sorted-Reordered :
    (l m : List SearchAttributePair)
    → Reordered l m
    → Unique l
    → typed_search_attributes m ≡ typed_search_attributes l
sorted-Reordered l m r u =
    let (v, e) = Reordered-Unique r u in
    let same =
      entry_extensional (sorted m) (sorted l) (sorted-IsSorted m) (sorted-IsSorted l)
        (sorted-Unique m v) (sorted-Unique l u)
        (λ n. entry-sorted m n ∙ sym (e n) ∙ sym (entry-sorted l n)) in
    typed_search_attributes-Unique m v ∙ ap ok same ∙ sym (typed_search_attributes-Unique l u)
