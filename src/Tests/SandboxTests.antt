-- ===== src/Tests/SandboxTests.antt =====
-- The theorems on `SandboxMatcher` at small matchers.
use temporalio_sdk_python.Common.{true, false, none, [], ◌∷◌, ◌≡◌, refl}
use temporalio_sdk_python.Common.Result.{ok}
use temporalio_sdk_python.Sandbox.Matcher.{
  SandboxMatcher, matcher, nil, child, get_child, all, all_runtime, RestrictionContext,
  match_access, access_matcher, nested_child, child_matcher, union, with_child_unrestricted,
}
use temporalio_sdk_python.Sandbox.Matcher.Lookup.{via}
use temporalio_sdk_python.Sandbox.Matcher.Runtime.{match_access_mono}
use temporalio_sdk_python.Sandbox.Matcher.Nested.{access_matcher-nested_child}
use temporalio_sdk_python.Sandbox.Matcher.Child.{
  match_access-child_matcher, child_matcher_keeps_access,
}
use temporalio_sdk_python.Sandbox.Matcher.Cover.{Covers}
use temporalio_sdk_python.Sandbox.Matcher.Union.{
  union-Covers, union_loses_wildcard, union_forgets_runtime, wildcard_free,
}
use temporalio_sdk_python.Sandbox.Matcher.Unrestricted.{
  with_child_unrestricted_frame, with_child_unrestricted_lifts, named_only_at_leaf,
}

abbrev running : RestrictionContext
running = record { is_runtime = true }

abbrev importing : RestrictionContext
importing = record { is_runtime = false }

-- `random` may not be used, `datetime.now` may not be accessed.
abbrev uses_random : SandboxMatcher
uses_random = matcher [] ("random" ∷ []) nil false false none none

abbrev clock : SandboxMatcher
clock =
    matcher [] [] (child "datetime" (matcher ("now" ∷ []) [] nil false false none none) nil) false
      false none none

match_access_mono_example : match_access running true clock ("datetime" ∷ "now" ∷ []) ≡ true
unfolding match_access get_child
match_access_mono_example =
    match_access_mono importing running false true clock ("datetime" ∷ "now" ∷ []) refl (λ h. refl)
      refl

access_matcher-nested_child_example :
    access_matcher importing false
      (nested_child ("a" ∷ "b" ∷ []) clock)
      ("a" ∷ "b" ∷ "datetime" ∷ [])
    ≡ access_matcher importing false clock ("datetime" ∷ [])
access_matcher-nested_child_example =
    access_matcher-nested_child importing false clock ("a" ∷ "b" ∷ []) ("datetime" ∷ [])

match_access-child_matcher_example :
    match_access running true clock ("datetime" ∷ "now" ∷ "x" ∷ [])
    ≡ via running true (child_matcher clock ("datetime" ∷ "now" ∷ [])) ("x" ∷ [])
match_access-child_matcher_example =
    match_access-child_matcher running clock ("datetime" ∷ "now" ∷ []) ("x" ∷ []) refl

child_matcher_keeps_access_example :
    via running false (child_matcher clock ("datetime" ∷ [])) ("now" ∷ []) ≡ true
unfolding match_access get_child
child_matcher_keeps_access_example =
    child_matcher_keeps_access running clock ("datetime" ∷ []) ("now" ∷ []) refl refl

abbrev both : SandboxMatcher
both =
    matcher [] ("random" ∷ [])
      (child "datetime" (matcher ("now" ∷ []) [] nil false false none none) nil) false false none
      none

union-Covers_example : Covers uses_random both × Covers clock both × (wildcard_free both ≡ true)
unfolding union wildcard_free
union-Covers_example = union-Covers uses_random clock both refl refl refl

union_loses_wildcard_example :
    (u : SandboxMatcher) × (union (matcher [] [] (child "*" all nil) false false none none) (
        matcher [] []
          (child "now" (matcher [] [] nil false false none none) nil)
          false
          false
          none
          none)
      ≡ ok u)
    × (match_access running false
          (matcher [] [] (child "*" all nil) false false none none)
          ("now" ∷ [])
        ≡ true)
    × (match_access running false u ("now" ∷ []) ≡ false)
union_loses_wildcard_example = union_loses_wildcard running "now" refl

union_forgets_runtime_example :
    (match_access importing false all_runtime ("x" ∷ []) ≡ false)
    × (match_access importing false all_runtime ("x" ∷ []) ≡ false)
    × (match_access importing false all ("x" ∷ []) ≡ true)
unfolding union
union_forgets_runtime_example =
    union_forgets_runtime importing false all_runtime all_runtime all ("x" ∷ []) refl refl refl refl

with_child_unrestricted_frame_example :
    match_access running false
      (with_child_unrestricted clock "datetime" ("now" ∷ []))
      ("datetime" ∷ "today" ∷ [])
    ≡ match_access running false clock ("datetime" ∷ "today" ∷ [])
with_child_unrestricted_frame_example =
    with_child_unrestricted_frame running false clock "datetime" ("now" ∷ [])
      ("datetime" ∷ "today" ∷ []) refl refl

with_child_unrestricted_lifts_example :
    match_access running true
      (with_child_unrestricted clock "datetime" ("now" ∷ []))
      ("datetime" ∷ "now" ∷ "x" ∷ [])
    ≡ false
unfolding named_only_at_leaf
with_child_unrestricted_lifts_example =
    with_child_unrestricted_lifts running true clock "datetime" ("now" ∷ []) ("x" ∷ []) refl
