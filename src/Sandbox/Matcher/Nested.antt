-- ===== src/Sandbox/Matcher/Nested.antt =====
-- `nested_child` puts a matcher at a path.
use text.Mathlib.TextPositions.{eq_refl}
use temporalio_sdk_python.Common.{
  Bool, List, [], ◌∷◌, ◌++◌, String, ◌≡◌, refl, arith, string_eq, option_eq,
}
use temporalio_sdk_python.Sandbox.Matcher.{
  SandboxMatcher, RestrictionContext, access_matcher, get_child, nested_child,
}

-- Below the path the nested matcher answers as it does by itself, in every context.
pub access_matcher-nested_child :
    (context : RestrictionContext) (u : Bool) (m : SandboxMatcher) (path rest : List String)
    → access_matcher context u (nested_child path m) (path ++ rest)
      ≡ access_matcher context u m rest
unfolding access_matcher nested_child get_child
access_matcher-nested_child context u m [] rest = refl
access_matcher-nested_child context u m (v ∷ path) rest =
    rw (eq_refl, access_matcher-nested_child context u m path rest) (ground arith)
