-- ===== src/Sandbox/Matcher/Unrestricted.antt =====
-- `with_child_unrestricted`: what it lifts, and what it leaves.
use text.Mathlib.TextPositions.{eq_refl}
use temporalio_sdk_python.Common.{
  Bool, true, false, not, ◌&&◌, Option, none, some, List, [], ◌∷◌, ◌++◌, String, ◌≡◌, refl, ap, inl,
  inr, arith, Bool-cases, Option-cases, if◌then◌else◌, is_some, ◌==◌, string_eq, option_eq,
  contains, keep,
}
use temporalio_sdk_python.Sandbox.Matcher.{
  SandboxMatcher, matcher, Children, RestrictionContext, match_access, find_child, hit, named,
  match_self, access, uses, children, only_runtime, get_child, put_child, delete_child,
  with_child_unrestricted, without,
}
use temporalio_sdk_python.Sandbox.Matcher.Lookup.{
  via, match_access-cons, get_child-put_child, get_child-delete_child,
}

contains-without :
    (w v : String) (names : List String)
    → contains w (keep (λ n. not (n == v)) names) ≡ (if w == v then false else contains w names)
contains-without w v [] = ground arith
contains-without w v (x ∷ names) = ground (
  arith,
  contains-without w v names,
  string_eq.same_iff x v,
  string_eq.same_iff w x,
  string_eq.same_iff w v,
)

abbrev is_prefix : List String → List String → Bool
is_prefix [] q = true
is_prefix (v ∷ p) [] = false
is_prefix (v ∷ p) (w ∷ q) = v == w && is_prefix p q

-- Two matchers that agree on the first element and below it match the same paths.
same_step :
    (context : RestrictionContext) (i : Bool) (m o : SandboxMatcher) (v : String)
    (path : List String)
    → only_runtime m ≡ only_runtime o
    → hit i m v ≡ hit i o v
    → via context i (find_child m v) path ≡ via context i (find_child o v) path
    → match_access context i m (v ∷ path) ≡ match_access context i o (v ∷ path)
same_step context i m o v path r h b =
    cc (match_access-cons context i m v path, match_access-cons context i o v path)

find_child-delete_child :
    (a u : List String) (c : Children) (s r : Bool) (lm lw : Option String) (v x : String)
    → (v == x) ≡ false
    → (v == "*") ≡ false
    → find_child (matcher (without v a) (without v u) (delete_child c v) s r lm lw) x
      ≡ find_child (matcher a u c s r lm lw) x
find_child-delete_child a u c s r lm lw v x h w =
    rw (get_child-delete_child c v x, get_child-delete_child c v "*", h, w)

find_child-put_child :
    (a u : List String) (c : Children) (s r : Bool) (lm lw : Option String) (v x : String)
    (d : SandboxMatcher)
    → (v == x) ≡ false
    → (v == "*") ≡ false
    → find_child (matcher a u (put_child c v d) s r lm lw) x
      ≡ find_child (matcher a u c s r lm lw) x
find_child-put_child a u c s r lm lw v x d h w =
    rw (get_child-put_child c v x d, get_child-put_child c v "*" d, h, w)

named-without :
    (v x : String) (names : List String)
    → (v == x) ≡ false
    → (v == "*") ≡ false
    → named (without v names) x ≡ named names x
named-without v x names h w = ground (
  arith,
  contains-without x v names,
  contains-without "*" v names,
  string_eq.same_iff x v,
  string_eq.same_iff v x,
  string_eq.same_iff v "*",
  string_eq.same_iff "*" v,
)

-- The step at a child that is lifted itself or in part.
lifted_child :
    (context : RestrictionContext) (i : Bool) (a u : List String) (c : Children) (s r : Bool)
    (lm lw : Option String) (v x : String) (q : List String) (d e : SandboxMatcher)
    → get_child c v ≡ some d
    → (v == "*") ≡ false
    → (v == x ≡ true → match_access context i e q ≡ match_access context i d q)
    → match_access context i (matcher a u (put_child c v e) s r lm lw) (x ∷ q)
      ≡ match_access context i (matcher a u c s r lm lw) (x ∷ q)
lifted_child context i a u c s r lm lw v x q d e g w ih = elim (Bool-cases (v == x)) [
  | inl t ↦
      same_step context i (matcher a u (put_child c v e) s r lm lw) (matcher a u c s r lm lw) x q
        refl refl
        (let vx : v ≡ x = (string_eq.same_iff v x).0 t in
          rw (get_child-put_child c v x e, t)
            (let gx : get_child c x ≡ some d = rw (← vx) g in rw gx (ih t)))
  | inr f ↦
      same_step context i (matcher a u (put_child c v e) s r lm lw) (matcher a u c s r lm lw) x q
        refl refl (ap (λ o. via context i o q) (find_child-put_child a u c s r lm lw v x e f w))
]

-- A path whose first part is not the path that was lifted is matched as before, in every context, if the wildcard
-- is not part of the latter.
pub with_child_unrestricted_frame :
    (context : RestrictionContext) (i : Bool) (m : SandboxMatcher) (v : String)
    (path q : List String)
    → contains "*" (v ∷ path) ≡ false
    → is_prefix (v ∷ path) q ≡ false
    → match_access context i (with_child_unrestricted m v path) q ≡ match_access context i m q
unfolding with_child_unrestricted
with_child_unrestricted_frame context i (matcher a u c s r lm lw) v [] [] w h =
    unfold match_access in ground arith
with_child_unrestricted_frame context i (matcher a u c s r lm lw) v [] (x ∷ q) w h =
    let f : (v == x) ≡ false = ground arith in
    let g : (v == "*") ≡ false =
      ground (arith, string_eq.same_iff v "*", string_eq.same_iff "*" v) in
    same_step context i (matcher (without v a) (without v u) (delete_child c v) s r lm lw)
      (matcher a u c s r lm lw) x q refl (cc (named-without v x a f g, named-without v x u f g))
      (ap (λ o. via context i o q) (find_child-delete_child a u c s r lm lw v x f g))
with_child_unrestricted_frame context i (matcher a u c s r lm lw) v (n ∷ path) [] w h =
    elim (Option-cases (get_child c v)) [
      | inl e ↦ rw (e, with_child_unrestricted)
      | inr (d, e) ↦ unfold match_access in ground arith
    ]
with_child_unrestricted_frame context i (matcher a u c s r lm lw) v (n ∷ path) (x ∷ q) w h =
    elim (Option-cases (get_child c v)) [
      | inl e ↦ rw (e, with_child_unrestricted)
      | inr (d, e) ↦
          rw (e, with_child_unrestricted)
            (lifted_child context i a u c s r lm lw v x q d (with_child_unrestricted d n path) e
              (ground (arith, string_eq.same_iff v "*", string_eq.same_iff "*" v))
              (λ t.
                with_child_unrestricted_frame context i d n path q (ground arith) (ground arith)))
    ]

-- Only the last element of the path is restricted by name: the matchers before it let the path through, and the
-- last one has no wildcard and does not match by itself.
unfoldable pub named_only_at_leaf : SandboxMatcher → String → List String → Bool
unfolding get_child
named_only_at_leaf m v [] =
    not (match_self m)
    && not (contains "*" (access m))
    && not (contains "*" (uses m))
    && not (is_some (get_child (children m) "*"))
named_only_at_leaf m v (n ∷ path) =
    not (hit true m v)
    && elim (get_child (children m) v) [ none ↦ false | some d ↦ named_only_at_leaf d n path ]

-- If only its last element is restricted, the path that was lifted is no longer restricted, for access or for use, in
-- any context, and nothing below it is.
pub with_child_unrestricted_lifts :
    (context : RestrictionContext) (i : Bool) (m : SandboxMatcher) (v : String)
    (path rest : List String)
    → named_only_at_leaf m v path ≡ true
    → match_access context i (with_child_unrestricted m v path) (v ∷ path ++ rest) ≡ false
unfolding match_access with_child_unrestricted named_only_at_leaf
with_child_unrestricted_lifts context i (matcher a u c s r lm lw) v [] rest h = ground (
  arith,
  contains-without v v a,
  contains-without "*" v a,
  contains-without v v u,
  contains-without "*" v u,
  get_child-delete_child c v v,
  get_child-delete_child c v "*",
  eq_refl v,
)
with_child_unrestricted_lifts context i (matcher a u c s r lm lw) v (n ∷ path) rest h =
    elim (Option-cases (get_child c v)) [
      | inl e ↦ ground arith
      | inr (d, e) ↦ ground (
        arith,
        with_child_unrestricted_lifts context i d n path rest,
        get_child-put_child c v v (with_child_unrestricted d n path),
        eq_refl v,
      )
    ]
