-- ===== src/Sandbox/Matcher/Lookup.antt =====
-- What a key finds among the children after an update, and the first step of a match.
use temporalio_sdk_python.Common.{
  Bool, true, false, Option, none, some, List, [], ◌∷◌, String, ◌≡◌, refl, inl, inr, arith,
  Option-cases, if◌then◌else◌, ◌==◌, string_eq, option_eq,
}
use temporalio_sdk_python.Sandbox.Matcher.{
  SandboxMatcher, Children, nil, child, RestrictionContext, match_access, find_child, hit, inactive,
  only_runtime, all, get_child, put_child, delete_child,
}

pub get_child-delete_child :
    (cs : Children) (k j : String)
    → get_child (delete_child cs k) j ≡ (if k == j then none else get_child cs j)
unfolding get_child delete_child
get_child-delete_child nil k j = ground arith
get_child-delete_child (child i w rest) k j = ground (
  arith,
  get_child-delete_child rest k j,
  string_eq.same_iff i k,
  string_eq.same_iff i j,
  string_eq.same_iff k j,
)

pub get_child-put_child :
    (cs : Children) (k j : String) (m : SandboxMatcher)
    → get_child (put_child cs k m) j ≡ (if k == j then some m else get_child cs j)
unfolding get_child put_child
get_child-put_child nil k j m = refl
get_child-put_child (child i w rest) k j m = ground (
  arith,
  get_child-put_child rest k j m,
  string_eq.same_iff i k,
  string_eq.same_iff i j,
  string_eq.same_iff k j,
)

-- The match of a path below an optional child.
abbrev pub via : RestrictionContext → Bool → Option SandboxMatcher → List String → Bool
via context u none path = false
via context u (some c) path = match_access context u c path

-- What a match does with the first element of the path.
pub match_access-cons :
    (context : RestrictionContext) (i : Bool) (m : SandboxMatcher) (v : String) (path : List String)
    → match_access context i m (v ∷ path) ≡ (
        if inactive context m
        then false
        else if hit i m v
        then true
        else via context i (find_child m v) path)
unfolding match_access
match_access-cons context i m v path = elim (Option-cases (find_child m v)) [
  | inl e ↦ ground arith
  | inr (c, e) ↦ ground arith
]

pub match_access-inactive :
    (context : RestrictionContext) (i : Bool) (m : SandboxMatcher) (path : List String)
    → context.is_runtime ≡ false
    → only_runtime m ≡ true
    → match_access context i m path ≡ false
unfolding match_access
match_access-inactive context i m [] c r = ground arith
match_access-inactive context i m (v ∷ path) c r = ground arith

pub match_access-all :
    (context : RestrictionContext) (i : Bool) (path : List String)
    → match_access context i all path ≡ true
unfolding match_access
match_access-all context i [] = ground arith
match_access-all context i (v ∷ path) = ground arith
