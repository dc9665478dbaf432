-- ===== src/SearchAttributes/Updated.antt =====
-- What `updated` does, seen as a map from names to pairs.
use temporalio_sdk_python.Common.{
  Option, some, List, [], ◌∷◌, String, ◌≡◌, refl, ap, ◌∙◌, inl, inr, string_eq, arith,
  if◌then◌else◌, ◌==◌, Bool-cases,
}
use temporalio_sdk_python.Common.Result.{ok}
use temporalio_sdk_python.SearchAttributes.{
  SearchAttributePair, name_of, sorted, typed_search_attributes, replace_or_add, replace_all,
  updated,
}
use temporalio_sdk_python.SearchAttributes.Sorted.{
  entry, Unique, IsSorted, sorted-IsSorted, entry-sorted, sorted-Unique,
  typed_search_attributes-Unique, typed_search_attributes-IsSorted,
}

-- A collection as it is meant: a pair for each name, or none.
abbrev pub Attributes : Type 0
Attributes = String → Option SearchAttributePair

-- The updates, each on the result of those before it.
abbrev pub override : Attributes → List SearchAttributePair → Attributes
override f [] = f
override f (attr ∷ updates) = override (λ n. if name_of attr == n then some attr else f n) updates

entry-replace_or_add :
    (attrs : List SearchAttributePair) (a : SearchAttributePair) (n : String)
    → entry (replace_or_add attrs a) n ≡ (if name_of a == n then some a else entry attrs n)
unfolding entry replace_or_add
entry-replace_or_add [] a n = refl
entry-replace_or_add (b ∷ attrs) a n = ground (
  arith,
  entry-replace_or_add attrs a n,
  string_eq.same_iff (name_of a) (name_of b),
  string_eq.same_iff (name_of a) n,
  string_eq.same_iff (name_of b) n,
)

replace_or_add-Unique :
    (attrs : List SearchAttributePair) (a : SearchAttributePair)
    → Unique attrs
    → Unique (replace_or_add attrs a)
unfolding entry replace_or_add
replace_or_add-Unique [] a u = (refl, tt)
replace_or_add-Unique (b ∷ attrs) a u = elim (Bool-cases (name_of a == name_of b)) [
  | inl e ↦
      rw e (ap (λ n. entry attrs n) ((string_eq.same_iff (name_of a) (name_of b)).0 e) ∙ u.0, u.1)
  | inr e ↦
      rw e (entry-replace_or_add attrs a (name_of b) ∙ rw e u.0, replace_or_add-Unique attrs a u.1)
]

override-same :
    (f g : Attributes) (updates : List SearchAttributePair) (n : String)
    → ((m : String) → f m ≡ g m)
    → override f updates n ≡ override g updates n
override-same f g [] n h = h n
override-same f g (a ∷ updates) n h =
    override-same (λ m. if name_of a == m then some a else f m)
      (λ m. if name_of a == m then some a else g m) updates n
      (λ m. ap (λ o. if name_of a == m then some a else o) (h m))

entry-replace_all :
    (attrs updates : List SearchAttributePair) (n : String)
    → entry (replace_all attrs updates) n ≡ override (entry attrs) updates n
unfolding replace_all
entry-replace_all attrs [] n = refl
entry-replace_all attrs (a ∷ updates) n =
    entry-replace_all (replace_or_add attrs a) updates n
    ∙ override-same (entry (replace_or_add attrs a))
        (λ m. if name_of a == m then some a else entry attrs m) updates n
        (entry-replace_or_add attrs a)

replace_all-Unique :
    (attrs updates : List SearchAttributePair) → Unique attrs → Unique (replace_all attrs updates)
unfolding replace_all
replace_all-Unique attrs [] u = u
replace_all-Unique attrs (a ∷ updates) u =
    replace_all-Unique (replace_or_add attrs a) updates (replace_or_add-Unique attrs a u)

-- `updated` does what it says of a map from names to pairs: on every collection that was constructed, whatever the updates
-- are and however often they repeat a name, it returns a collection, sorted and with each name once, in which each update
-- has taken the place of what its name had before, and every other name has what it had.
pub updated-override :
    (pairs attrs updates : List SearchAttributePair)
    → typed_search_attributes pairs ≡ ok attrs
    → (new : List SearchAttributePair) × (updated attrs updates ≡ ok new)
      × IsSorted new
      × Unique new
      × ((n : String) → entry new n ≡ override (entry attrs) updates n)
unfolding updated
updated-override pairs attrs updates h =
    let (s, u, e) = typed_search_attributes-IsSorted pairs attrs h in
    let all = replace_all attrs updates in
    let v = replace_all-Unique attrs updates u in
    (
      sorted all,
      typed_search_attributes-Unique all v,
      sorted-IsSorted all,
      sorted-Unique all v,
      λ n. entry-sorted all n ∙ entry-replace_all attrs updates n,
    )
