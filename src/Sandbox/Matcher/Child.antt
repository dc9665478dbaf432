-- ===== src/Sandbox/Matcher/Child.antt =====
-- `child_matcher` gives what the proxy of a child checks further accesses with.
use temporalio_sdk_python.Common.{
  Bool, true, false, ◌||◌, List, [], ◌∷◌, ◌++◌, String, ◌≡◌, refl, inl, inr, arith, Option-cases,
  string_eq, option_eq,
}
use temporalio_sdk_python.Sandbox.Matcher.{
  SandboxMatcher, RestrictionContext, match_access, find_child, only_runtime, child_matcher,
  child_loop,
}
use temporalio_sdk_python.Sandbox.Matcher.Lookup.{via}

-- The loop's flag picks the matcher that stands for everything below a hit, and no more at run time.
loop_enforces :
    (context : RestrictionContext) (flag : Bool) (m : SandboxMatcher) (path rest : List String)
    → context.is_runtime ≡ true
    → match_access context true m (path ++ rest) ≡ via context true (child_loop m flag path) rest
unfolding match_access child_loop
loop_enforces context flag m [] rest r = refl
loop_enforces context flag m (v ∷ path) [] r = elim (Option-cases (find_child m v)) [
  | inl e ↦ ground arith
  | inr (c, e) ↦ ground (arith, loop_enforces context (only_runtime c || flag) c path [] r)
]
loop_enforces context flag m (v ∷ path) (w ∷ rest) r = elim (Option-cases (find_child m v)) [
  | inl e ↦ ground arith
  | inr (c, e) ↦ ground (arith, loop_enforces context (only_runtime c || flag) c path (w ∷ rest) r)
]

-- While the workflow runs, checking a use of a whole path is checking the rest of the path with
-- the matcher that `child_matcher` gives for its first part; where it gives none, nothing matches.
pub match_access-child_matcher :
    (context : RestrictionContext) (m : SandboxMatcher) (path rest : List String)
    → context.is_runtime ≡ true
    → match_access context true m (path ++ rest) ≡ via context true (child_matcher m path) rest
unfolding child_matcher
match_access-child_matcher context m path rest = loop_enforces context (only_runtime m) m path rest

loop_keeps_access :
    (context : RestrictionContext) (flag : Bool) (m : SandboxMatcher) (path rest : List String)
    → context.is_runtime ≡ true
    → match_access context false m (path ++ rest) ≡ true
    → via context false (child_loop m flag path) rest ≡ true
unfolding match_access child_loop
loop_keeps_access context flag m [] rest r h = h
loop_keeps_access context flag m (v ∷ path) [] r h = elim (Option-cases (find_child m v)) [
  | inl e ↦ ground arith
  | inr (c, e) ↦ ground (arith, loop_keeps_access context (only_runtime c || flag) c path [] r)
]
loop_keeps_access context flag m (v ∷ path) (w ∷ rest) r h = elim (Option-cases (find_child m v)) [
  | inl e ↦ ground arith
  | inr (c, e) ↦
      ground (arith, loop_keeps_access context (only_runtime c || flag) c path (w ∷ rest) r)
]

-- The same for access alone, in one direction: the child's matcher restricts also what may only not be used.
pub child_matcher_keeps_access :
    (context : RestrictionContext) (m : SandboxMatcher) (path rest : List String)
    → context.is_runtime ≡ true
    → match_access context false m (path ++ rest) ≡ true
    → via context false (child_matcher m path) rest ≡ true
unfolding child_matcher
child_matcher_keeps_access context m path rest =
    loop_keeps_access context (only_runtime m) m path rest
