-- ===== src/Sandbox/Matcher.antt =====
-- temporalio/worker/workflow_sandbox/_restrictions.py: `SandboxMatcher`, the tree of names that a
-- sandboxed workflow may not access. The proofs stand in the modules below this one.
pub mod Lookup
pub mod Runtime
pub mod Nested
pub mod Child
pub mod Cover
pub mod Union
pub mod Unrestricted
use temporalio_sdk_python.Common.{
  Bool, true, false, not, ◌&&◌, ◌||◌, Option, none, some, List, [], ◌∷◌, ◌++◌, String, ◌==◌,
  string_eq, option_eq, if◌then◌else◌, or_else, is_some, contains, keep,
}
use temporalio_sdk_python.Common.Result.{Result, ok, err, ◌>>=◌, ◌>>◌, raise_if}

-- `children` is a dict, in insertion order.
mutual
  pub data SandboxMatcher : Type 0 where
    matcher :
        (access uses : List String) (children : Children) (match_self only_runtime : Bool)
        (leaf_message leaf_warning : Option String)
        → SandboxMatcher

  pub data Children : Type 0 where
    nil : Children
    child : String → SandboxMatcher → Children → Children

abbrev pub access : SandboxMatcher → List String
access (matcher a u c s r lm lw) = a

-- the field `use`
abbrev pub uses : SandboxMatcher → List String
uses (matcher a u c s r lm lw) = u

abbrev pub children : SandboxMatcher → Children
children (matcher a u c s r lm lw) = c

abbrev pub match_self : SandboxMatcher → Bool
match_self (matcher a u c s r lm lw) = s

abbrev pub only_runtime : SandboxMatcher → Bool
only_runtime (matcher a u c s r lm lw) = r

abbrev pub leaf_message : SandboxMatcher → Option String
leaf_message (matcher a u c s r lm lw) = lm

abbrev pub leaf_warning : SandboxMatcher → Option String
leaf_warning (matcher a u c s r lm lw) = lw

-- `SandboxMatcher.all`, `.all_runtime`, `.none`, `.all_uses`, `.all_uses_runtime`
abbrev pub all : SandboxMatcher
all = matcher [] [] nil true false none none

abbrev pub all_runtime : SandboxMatcher
all_runtime = matcher [] [] nil true true none none

abbrev pub no_match : SandboxMatcher
no_match = matcher [] [] nil false false none none

abbrev pub all_uses : SandboxMatcher
all_uses = matcher [] ("*" ∷ []) nil false false none none

abbrev pub all_uses_runtime : SandboxMatcher
all_uses_runtime = matcher [] ("*" ∷ []) nil false true none none

-- `children.get(k)`
unfoldable pub get_child : Children → String → Option SandboxMatcher
get_child nil k = none
get_child (child j m rest) k = if j == k then some m else get_child rest k

-- `children[k] = m`
unfoldable pub put_child : Children → String → SandboxMatcher → Children
put_child nil k m = child k m nil
put_child (child j w rest) k m = if j == k then child j m rest else child j w (put_child rest k m)

-- `del children[k]`
unfoldable pub delete_child : Children → String → Children
delete_child nil k = nil
delete_child (child j w rest) k =
    let others = delete_child rest k in if j == k then others else child j w others

-- `children.get(v) or children.get("*")`; a matcher is always true
abbrev pub find_child : SandboxMatcher → String → Option SandboxMatcher
find_child m v = or_else (get_child (children m) v) (get_child (children m) "*")

-- `v in names or "*" in names`
abbrev pub named : List String → String → Bool
named names v = contains v names || contains "*" names

pub record RestrictionContext : Type 0 where
  pub is_runtime : Bool

-- the early `return None` of a matcher that applies at run time only
abbrev pub inactive : RestrictionContext → SandboxMatcher → Bool
inactive context m = not context.is_runtime && only_runtime m

-- what an element of the path meets at a matcher before its children are looked at
abbrev pub hit : Bool → SandboxMatcher → String → Bool
hit include_use m v = match_self m || named (access m) v || (include_use && named (uses m) v)

module _ (context : RestrictionContext) (include_use : Bool) where
  unfoldable pub access_matcher : SandboxMatcher → List String → Option SandboxMatcher
  access_matcher m [] = if inactive context m then none else if match_self m then some m else none
  access_matcher m (v ∷ path) =
      if inactive context m
      then none
      else if hit include_use m v
      then some m
      else elim (find_child m v) [ none ↦ none | some c ↦ access_matcher c path ]

  unfoldable pub match_access : SandboxMatcher → List String → Bool
  unfolding access_matcher
  match_access m path = is_some (access_matcher m path)

-- the loop of `child_matcher`, with its flag `only_runtime`
child_loop : SandboxMatcher → Bool → List String → Option SandboxMatcher
child_loop m runtime [] = some m
child_loop m runtime (v ∷ path) =
    if hit true m v then some (if runtime then all_runtime else all) else elim (find_child m v) [
      | none ↦ none
      | some c ↦ child_loop c (only_runtime c || runtime) path
    ]

unfoldable pub child_matcher : SandboxMatcher → List String → Option SandboxMatcher
unfolding child_loop
child_matcher m path = child_loop m (only_runtime m) path

-- `reversed(path)` puts the last key innermost
unfoldable pub nested_child : List String → SandboxMatcher → SandboxMatcher
nested_child [] m = m
nested_child (key ∷ path) m =
    matcher [] [] (child key (nested_child path m) nil) false false none none

pub data MatcherError : Type 0 where
  message_without_self warning_without_self : MatcherError
  mixed_runtime mixed_messages mixed_warnings : MatcherError

-- a text is true unless it is empty
abbrev truthy : Option String → Bool
truthy none = false
truthy (some t) = not (t == "")

-- the constructor, with `__post_init__`; a warning class is true
unfoldable pub new_matcher :
    (access uses : List String) (children : Children) (match_self only_runtime : Bool)
    (leaf_message leaf_warning : Option String)
    → Result MatcherError SandboxMatcher
new_matcher a u c s r lm lw = do
  raise_if (truthy lm && not s) message_without_self
  raise_if (is_some lw && not s) warning_without_self
  ok (matcher a u c s r lm lw)

-- `==` of two flags
abbrev pub same_flag : Bool → Bool → Bool
same_flag true b = b
same_flag false b = not b

-- `self | other`, and its loop over `other.children`
unfoldable mutual
  unfolding new_matcher get_child put_child

  pub union : SandboxMatcher → SandboxMatcher → Result MatcherError SandboxMatcher
  union m (matcher a u c s r lm lw) = do
    raise_if (not (same_flag (only_runtime m) r)) mixed_runtime
    raise_if (not (leaf_message m == lm)) mixed_messages
    raise_if (not (leaf_warning m == lw)) mixed_warnings
    if match_self m || s then ok all else do
      merged ← merge_children (children m) c
      new_matcher (access m ++ a) (uses m ++ u) merged false (only_runtime m) (leaf_message m)
          (leaf_warning m)

  pub merge_children : Children → Children → Result MatcherError Children
  merge_children merged nil = ok merged
  merge_children merged (child k v rest) = elim (get_child merged k) [
    | none ↦ merge_children (put_child merged k v) rest
    | some w ↦ union w v >>= λ n. merge_children (put_child merged k n) rest
  ]

-- `names.remove(v)`
abbrev without : String → List String → List String
without v names = keep (λ n. not (n == v)) names

-- `with_child_unrestricted(v, *path)`: the path is not empty. Neither `match_self` nor the leaf
-- fields change, so `__post_init__` accepts the copy.
unfoldable pub with_child_unrestricted : SandboxMatcher → String → List String → SandboxMatcher
unfolding get_child put_child delete_child
with_child_unrestricted (matcher a u c s r lm lw) v [] =
    matcher (without v a) (without v u) (delete_child c v) s r lm lw
with_child_unrestricted (matcher a u c s r lm lw) v (next ∷ path) = elim (get_child c v) [
  | none ↦ matcher a u c s r lm lw
  | some inner ↦ matcher a u (put_child c v (with_child_unrestricted inner next path)) s r lm lw
]
