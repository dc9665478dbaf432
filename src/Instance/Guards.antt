-- ===== src/Instance/Guards.antt =====
-- temporalio/worker/_workflow_instance.py: the guards, `_add_command`, `_next_seq`, and the futures.
use temporalio_sdk_python.Common.{
  ℕ, ◌+◌, Bool, true, false, not, ◌&&◌, none, some, [], ◌∷◌, ◌++◌, String, ◌≡◌, string_eq, ℕ_eq,
  if◌then◌else◌,
}
use temporalio_sdk_python.Common.Dict.{get, put}
use temporalio_sdk_python.Common.Result.{Result, ok, err}
use temporalio_sdk_python.Common.Text.{concat}
use temporalio_sdk_python.Exceptions.{Exc, read_only_context, being_evicted}
use temporalio_sdk_python.Instance.State.{Instance, Action, Command, modify, ◌>>◌}

abbrev pub read_only_check :
    (action : String) (allow_during_delete : Bool) → Instance → Result Exc (Unit {0})
read_only_check action allow_during_delete s =
    if s.deleting && not allow_during_delete
    then err (
        being_evicted
          (concat "Ignoring " (concat action " while evicting workflow. This is not an error.")))
    else if s.read_only
    then err (read_only_context (concat "While in read-only function, action attempted: " action))
    else ok tt

-- `_assert_not_read_only`
unfoldable pub assert_not_read_only : (action : String) (allow_during_delete : Bool) → Action Unit
assert_not_read_only action allow_during_delete s =
    (read_only_check action allow_during_delete s, s)

-- `_add_command`, with the command that the caller fills in
unfoldable pub add_command : Command → Action Unit
unfolding assert_not_read_only
add_command c = do
  assert_not_read_only "add command" false
  modify (λ s. record s { commands = s.commands ++ c ∷ [] })

-- `with self._as_read_only(): body`; the flag is put back also when the body raises
unfoldable pub as_read_only : {A : Type 0} → Action A → Action A
as_read_only body s =
    let (r, s') = body (record s { read_only = true }) in (r, record s' { read_only = s.read_only })

-- `_next_seq`
unfoldable pub next_seq : String → Action ℕ
next_seq type s =
    let seq = elim (get s.curr_seqs type) [ none ↦ 0 | some n ↦ n ] + 1 in
    (ok seq, record s { curr_seqs = put s.curr_seqs type seq })

abbrev pub curr_seq : Instance → String → ℕ
curr_seq s type = elim (get s.curr_seqs type) [ none ↦ 0 | some n ↦ n ]

-- Nothing forbids commands.
abbrev pub IsWritable : Instance → Type 0
IsWritable s = (s.deleting ≡ false) × (s.read_only ≡ false)

pub assert-IsWritable :
    (action : String) (b : Bool) (s : Instance)
    → IsWritable s
    → assert_not_read_only action b s ≡ (ok tt, s)
unfolding assert_not_read_only
assert-IsWritable action b s w = rw (w.0, w.1)

pub add_command-IsWritable :
    (c : Command) (s : Instance)
    → IsWritable s
    → add_command c s ≡ (ok tt, record s { commands = s.commands ++ c ∷ [] })
unfolding add_command
add_command-IsWritable c s w = rw (w.0, w.1)
