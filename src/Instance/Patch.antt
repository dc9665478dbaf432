-- ===== src/Instance/Patch.antt =====
-- temporalio/worker/_workflow_instance.py: `workflow_patch` and `_apply_notify_has_patch`.
pub mod Replay
pub mod Memo
use package.text.Mathlib.TextPositions.{eq_refl}
use temporalio_sdk_python.Common.{
  ℕ, ◌+◌, ◌≤◌, Bool, true, false, not, ◌||◌, none, some, List, [], ◌∷◌, ◌++◌, String, ◌≡◌, refl, ap,
  ◌∙◌, inl, inr, string_eq, ℕ_eq, option_eq, arith, if◌then◌else◌, ◌==◌, contains, Bool-cases,
  Option-cases,
}
use temporalio_sdk_python.Common.Dict.{get, put, get-put}
use temporalio_sdk_python.Common.Result.{Result, ok, err}
use temporalio_sdk_python.Exceptions.{Exc}
use temporalio_sdk_python.Instance.State.{
  Instance, Action, Command, pure, gets, modify, ◌>>=◌, ◌>>◌, set_patch_marker,
}
use temporalio_sdk_python.Instance.Guards.{assert_not_read_only, add_command, IsWritable}

unfoldable pub apply_notify_has_patch : String → Action Unit
apply_notify_has_patch id = modify (λ s. record s { patches_notified = id ∷ s.patches_notified })

-- the part of `workflow_patch` for an id that has no memoized answer
decide_patch : String → Bool → Action Bool
unfolding add_command
decide_patch id deprecated s =
    let use_patch = not s.is_replaying || contains id s.patches_notified in
    let memoized = record s { patches_memoized = put s.patches_memoized id use_patch } in
    let marked = (add_command (set_patch_marker id deprecated) >> pure use_patch) memoized in
    if use_patch then marked else (ok use_patch, memoized)

unfoldable pub workflow_patch : String → Bool → Action Bool
unfolding decide_patch assert_not_read_only
workflow_patch id deprecated = do
  assert_not_read_only "patch" false
  memoized ← gets (λ s. get s.patches_memoized id)
  elim memoized [ some use_patch ↦ pure use_patch | none ↦ decide_patch id deprecated ]

-- A workflow that asks for patches in some order, and its answers.
abbrev pub patch_all : List (String × Bool) → Action (List Bool)
patch_all [] = pure []
patch_all ((id, deprecated) ∷ calls) = do
  b ← workflow_patch id deprecated
  bs ← patch_all calls
  pure (b ∷ bs)
