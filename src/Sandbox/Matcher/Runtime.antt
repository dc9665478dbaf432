-- ===== src/Sandbox/Matcher/Runtime.antt =====
-- How the answer of `match_access` depends on the context and on `include_use`.
use temporalio_sdk_python.Common.{
  Bool, true, List, [], ◌∷◌, String, ◌≡◌, inl, inr, arith, Option-cases,
}
use temporalio_sdk_python.Sandbox.Matcher.{
  SandboxMatcher, RestrictionContext, match_access, find_child,
}

-- What is restricted while the workflow is imported is restricted when it runs, and what is restricted for
-- access is restricted for use.
pub match_access_mono :
    (context runtime : RestrictionContext) (u u' : Bool) (m : SandboxMatcher) (path : List String)
    → runtime.is_runtime ≡ true
    → (u ≡ true → u' ≡ true)
    → match_access context u m path ≡ true
    → match_access runtime u' m path ≡ true
unfolding match_access
match_access_mono context runtime u u' m [] r le h = ground arith
match_access_mono context runtime u u' m (v ∷ path) r le h = elim (Option-cases (find_child m v)) [
  | inl e ↦ ground arith
  | inr (c, e) ↦ ground (arith, match_access_mono context runtime u u' c path r le)
]
