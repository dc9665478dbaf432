-- ===== src/Sandbox/Matcher/Union.antt =====
-- The union of two matchers, `self | other`.
use text.Mathlib.TextPositions.{eq_refl}
use temporalio_sdk_python.Common.{
  Bool, true, false, not, ◌&&◌, ◌||◌, none, some, List, [], ◌∷◌, ◌++◌, String, ◌≡◌, refl, sym, inl,
  inr, arith, Bool-cases, Option-cases, ◌==◌, string_eq, option_eq, contains-append,
}
use temporalio_sdk_python.Common.Result.{ok, ◌>>=◌, ok_of_bind, Result-cases}
use temporalio_sdk_python.Sandbox.Matcher.{
  SandboxMatcher, matcher, Children, nil, child, RestrictionContext, match_access, named,
  match_self, access, uses, children, only_runtime, leaf_message, leaf_warning, all, get_child,
  put_child, union, merge_children,
}
use temporalio_sdk_python.Sandbox.Matcher.Cover.{
  Covers, ChildrenCover, Covers-refl, Covers-trans, ChildrenCover-refl, ChildrenCover-trans,
  all-Covers, Covers-of_parts,
}
use temporalio_sdk_python.Sandbox.Matcher.Lookup.{
  get_child-put_child, match_access-inactive, match_access-all,
}

-- No child, at any depth, stands under the wildcard.
unfoldable mutual
  pub wildcard_free : SandboxMatcher → Bool
  wildcard_free (matcher a u c s r lm lw) = children_free c

  pub children_free : Children → Bool
  children_free nil = true
  children_free (child k m rest) = not (k == "*") && wildcard_free m && children_free rest

get_child-free :
    (cs : Children) (k : String) (m : SandboxMatcher)
    → children_free cs ≡ true
    → get_child cs k ≡ some m
    → wildcard_free m ≡ true
unfolding get_child wildcard_free
get_child-free nil k m f h = cc
get_child-free (child i w rest) k m f h = ground (arith, get_child-free rest k m)

get_child-wildcard : (cs : Children) → children_free cs ≡ true → get_child cs "*" ≡ none
unfolding get_child wildcard_free
get_child-wildcard nil f = refl
get_child-wildcard (child i w rest) f = ground (arith, get_child-wildcard rest)

put_child-free :
    (cs : Children) (k : String) (m : SandboxMatcher)
    → children_free cs ≡ true
    → (k == "*") ≡ false
    → wildcard_free m ≡ true
    → children_free (put_child cs k m) ≡ true
unfolding put_child wildcard_free
put_child-free nil k m f e g = ground arith
put_child-free (child i w rest) k m f e g = ground (arith, put_child-free rest k m)

put_child-ChildrenCover :
    (cs : Children) (k : String) (n : SandboxMatcher)
    → ((w : SandboxMatcher) → get_child cs k ≡ some w → Covers w n)
    → ChildrenCover cs (put_child cs k n)
put_child-ChildrenCover cs k n c = record {
  at_key = λ j m h. elim (Bool-cases (k == j)) [
    | inl e ↦
        (n, rw (get_child-put_child cs k j n) (rw e), c m (rw ((string_eq.same_iff k j).0 e) h))
    | inr e ↦ (m, rw (get_child-put_child cs k j n) (rw e h), Covers-refl m)
  ];
}

named-append : (a b : List String) (v : String) → named (a ++ b) v ≡ (named a v || named b v)
named-append a b v = ground (arith, contains-append v a b, contains-append "*" a b)

-- The two ways to succeed.
data Shape (m o u : SandboxMatcher) : Type 0 where
  whole : u ≡ all → Shape m o u
  parts :
      (merged : Children)
      → only_runtime m ≡ only_runtime o
      → match_self m ≡ false
      → match_self o ≡ false
      → merge_children (children m) (children o) ≡ ok merged
      → u
        ≡ matcher
            (access m ++ access o)
            (uses m ++ uses o)
            merged
            false
            (only_runtime m)
            (leaf_message m)
            (leaf_warning m)
      → Shape m o u

union-Shape : (m o u : SandboxMatcher) → union m o ≡ ok u → Shape m o u
unfolding union
union-Shape (matcher a us c true r lm lw) (matcher a' us' c' s' r' lm' lw') u h =
    Shape.whole (ground arith)
union-Shape (matcher a us c false r lm lw) (matcher a' us' c' true r' lm' lw') u h =
    Shape.whole (ground arith)
union-Shape (matcher a us c false r lm lw) (matcher a' us' c' false r' lm' lw') u h =
    elim (Result-cases (merge_children c c')) [
      | inl (merged, e) ↦ Shape.parts merged (ground arith) refl refl e (ground arith)
      | inr (x, e) ↦ ground arith
    ]

-- What the induction says of a union: it covers both sides, and has no wildcard.
record Joins (m o u : SandboxMatcher) : Type 0 where
  left : Covers m u
  right : Covers o u
  free : wildcard_free u ≡ true

record JoinsAll (cs ds merged : Children) : Type 0 where
  left : ChildrenCover cs merged
  right : ChildrenCover ds merged
  free : children_free merged ≡ true

Shape-Joins :
    (m o u : SandboxMatcher)
    → wildcard_free m ≡ true
    → wildcard_free o ≡ true
    → ((merged : Children)
        → merge_children (children m) (children o) ≡ ok merged
        → JoinsAll (children m) (children o) merged)
    → Shape m o u
    → Joins m o u
unfolding wildcard_free
Shape-Joins m o u fm fo ih (whole e) =
    rw e (record { left = all-Covers m; right = all-Covers o; free = refl })
Shape-Joins (matcher a us c s r lm lw) (matcher a' us' c' s' r' lm' lw') u fm fo ih
      (parts merged er es es' em eu) =
    let j = ih merged em in
    rw eu (record {
      left =
          Covers-of_parts (matcher a us c s r lm lw)
            (matcher (a ++ a') (us ++ us') merged false r lm lw) refl (λ x. cc)
            (λ v x. ground (arith, named-append a a' v))
            (λ v x. ground (arith, named-append us us' v)) (get_child-wildcard c fm) j.left;
      right =
          Covers-of_parts (matcher a' us' c' s' r' lm' lw')
            (matcher (a ++ a') (us ++ us') merged false r lm lw) (sym er) (λ x. cc)
            (λ v x. ground (arith, named-append a a' v))
            (λ v x. ground (arith, named-append us us' v)) (get_child-wildcard c' fo) j.right;
      free = j.free;
    })

-- One round of the loop over `other.children`.
JoinsAll-child :
    (cs : Children) (k : String) (v n : SandboxMatcher) (rest merged : Children)
    → Covers v n
    → ((w : SandboxMatcher) → get_child cs k ≡ some w → Covers w n)
    → JoinsAll (put_child cs k n) rest merged
    → JoinsAll cs (child k v rest) merged
unfolding get_child
JoinsAll-child cs k v n rest merged vn wn j = record {
  left = ChildrenCover-trans (put_child-ChildrenCover cs k n wn) j.left;
  right = record {
    at_key = λ i m e. elim (Bool-cases (k == i)) [
      | inl t ↦
          let (d, f, nd) = j.left.at_key i n (rw (get_child-put_child cs k i n, t)) in
          let vm : v ≡ m = ground (arith) in (d, f, rw (← vm) (Covers-trans vn nd))
      | inr t ↦ j.right.at_key i m (ground arith)
    ];
  };
  free = j.free;
}

free_children : (m : SandboxMatcher) → wildcard_free m ≡ true → children_free (children m) ≡ true
unfolding wildcard_free
free_children (matcher a us c s r lm lw) f = f

JoinsAll-nil :
    (cs merged : Children) → children_free cs ≡ true → cs ≡ merged → JoinsAll cs nil merged
unfolding get_child
JoinsAll-nil cs merged f e = rw (← e) (record {
  left = ChildrenCover-refl cs;
  right = record { at_key = λ k m h. absurd (cc h) };
  free = f;
})

-- The round at a key that both sides have: the two matchers are joined first.
JoinsAll-shared :
    (cs : Children) (k : String) (v w : SandboxMatcher) (rest merged : Children)
    → get_child cs k ≡ some w
    → children_free cs ≡ true
    → (k == "*") ≡ false
    → ((n : SandboxMatcher) → union w v ≡ ok n → Joins w v n)
    → ((n : SandboxMatcher)
        → children_free (put_child cs k n) ≡ true
        → merge_children (put_child cs k n) rest ≡ ok merged
        → JoinsAll (put_child cs k n) rest merged)
    → (union w v >>= λ n. merge_children (put_child cs k n) rest) ≡ ok merged
    → JoinsAll cs (child k v rest) merged
JoinsAll-shared cs k v w rest merged e fc ks ihu ihm h =
    let (n, un, mn) = ok_of_bind (union w v) (λ x. merge_children (put_child cs k x) rest) h in
    let j : Joins w v n = ihu n un in
    JoinsAll-child cs k v n rest merged j.right
      (λ x y. let wx : w ≡ x = ground arith in rw (← wx) j.left)
      (ihm n (put_child-free cs k n fc ks j.free) mn)

mutual
  unfolding union wildcard_free

  union-Joins :
      (m o u : SandboxMatcher)
      → wildcard_free m ≡ true
      → wildcard_free o ≡ true
      → union m o ≡ ok u
      → Joins m o u
  union-Joins m (matcher a us c s r lm lw) u fm fo h =
      Shape-Joins m (matcher a us c s r lm lw) u fm fo
        (λ merged e. merge-Joins (children m) c merged (free_children m fm) fo e)
        (union-Shape m (matcher a us c s r lm lw) u h)

  merge-Joins :
      (cs ds merged : Children)
      → children_free cs ≡ true
      → children_free ds ≡ true
      → merge_children cs ds ≡ ok merged
      → JoinsAll cs ds merged
  merge-Joins cs nil merged fc fd h = JoinsAll-nil cs merged fc (ground arith)
  merge-Joins cs (child k v rest) merged fc fd h = elim (Option-cases (get_child cs k)) [
    | inl e ↦
        JoinsAll-child cs k v v rest merged (Covers-refl v) (λ w x. cc)
          (merge-Joins (put_child cs k v) rest merged
            (put_child-free cs k v fc (ground arith) (ground arith)) (ground arith) (ground arith))
    | inr (w, e) ↦
        JoinsAll-shared cs k v w rest merged e fc (ground arith)
          (λ n x. union-Joins w v n (get_child-free cs k w fc e) (ground arith) x)
          (λ n f x. merge-Joins (put_child cs k n) rest merged f (ground arith) x) (ground arith)
  ]

-- If neither matcher has a wildcard among its children, at any depth, their union restricts, in every context, all
-- that either of them restricts, and has no wildcard among its children.
pub union-Covers :
    (m o u : SandboxMatcher)
    → wildcard_free m ≡ true
    → wildcard_free o ≡ true
    → union m o ≡ ok u
    → Covers m u × Covers o u × (wildcard_free u ≡ true)
union-Covers m o u fm fo h = let j = union-Joins m o u fm fo h in (j.left, j.right, j.free)

-- Without that condition the union can lose a restriction: a child of one side hides the wildcard of the other.
-- For every name but the wildcard itself, the left side restricts the name and the union does not.
pub union_loses_wildcard :
    (context : RestrictionContext) (k : String)
    → (k == "*") ≡ false
    → let m = matcher [] [] (child "*" all nil) false false none none in
      let o =
        matcher [] []
          (child k (matcher [] [] nil false false none none) nil)
          false
          false
          none
          none in
      (u : SandboxMatcher) × (union m o ≡ ok u)
      × (match_access context false m (k ∷ []) ≡ true)
      × (match_access context false u (k ∷ []) ≡ false)
unfolding union match_access
union_loses_wildcard context k h = (
  matcher [] [] (child "*" all (child k (matcher [] [] nil false false none none) nil)) false false
      none none,
  ground (arith, string_eq.same_iff "*" k, string_eq.same_iff k "*"),
  ground (arith, string_eq.same_iff "*" k, string_eq.same_iff k "*"),
  ground (arith, string_eq.same_iff "*" k, string_eq.same_iff k "*", eq_refl k),
)

-- A union exists only for matchers with the same flag.
union-flag : (m o u : SandboxMatcher) → union m o ≡ ok u → only_runtime m ≡ only_runtime o
unfolding union
union-flag m (matcher a us c s r lm lw) u h = ground arith

-- The union of two matchers for run time of which one matches by itself is one that matches at import too, where
-- neither side matched anything.
pub union_forgets_runtime :
    (context : RestrictionContext) (i : Bool) (m o u : SandboxMatcher) (path : List String)
    → context.is_runtime ≡ false
    → only_runtime m ≡ true
    → (match_self m || match_self o) ≡ true
    → union m o ≡ ok u
    → (match_access context i m path ≡ false)
      × (match_access context i o path ≡ false)
      × (match_access context i u path ≡ true)
union_forgets_runtime context i m o u path c r s h = elim (union-Shape m o u h) [
  | whole e ↦ (
    match_access-inactive context i m path c r,
    match_access-inactive context i o path c (rw (← union-flag m o u h) r),
    rw e (match_access-all context i path),
  )
  | parts merged er es eo em eu ↦ absurd (ground arith)
]
