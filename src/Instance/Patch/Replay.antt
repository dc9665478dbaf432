-- ===== src/Instance/Patch/Replay.antt =====
-- A replay answers as the first run did.
use temporalio_sdk_python.Common.{
  Bool, true, false, not, ◌||◌, none, some, List, [], ◌∷◌, ◌++◌, String, ◌≡◌, refl, ap, ◌∙◌, inl,
  inr, string_eq, ℕ_eq, option_eq, arith, if◌then◌else◌, contains, Bool-cases, Option-cases,
}
use temporalio_sdk_python.Common.Dict.{get, put}
use temporalio_sdk_python.Common.Result.{Result, ok, err}
use temporalio_sdk_python.Exceptions.{Exc}
use temporalio_sdk_python.Instance.State.{Instance, pure, ◌>>=◌, set_patch_marker}
use temporalio_sdk_python.Instance.Guards.{IsWritable}
use temporalio_sdk_python.Instance.Patch.{workflow_patch, patch_all}

-- What a call does where nothing forbids commands: its answer, and the instance after it.
abbrev pub answer : String → Instance → Bool
answer id s = elim (get s.patches_memoized id) [
  | some b ↦ b
  | none ↦ not s.is_replaying || contains id s.patches_notified
]

abbrev mark : String → Bool → Instance → Instance
mark id d s =
    let b = not s.is_replaying || contains id s.patches_notified in
    record s {
      patches_memoized = put s.patches_memoized id b;
      commands = if b then s.commands ++ set_patch_marker id d ∷ [] else s.commands;
    }

abbrev pub after : String → Bool → Instance → Instance
after id d s = elim (get s.patches_memoized id) [ some b ↦ s | none ↦ mark id d s ]

pub workflow_patch-IsWritable :
    (id : String) (d : Bool) (s : Instance)
    → IsWritable s
    → workflow_patch id d s ≡ (ok (answer id s), after id d s)
unfolding workflow_patch
workflow_patch-IsWritable id d s w = elim (Option-cases (get s.patches_memoized id)) [
  | inl e ↦ elim (Bool-cases (not s.is_replaying || contains id s.patches_notified)) [
    | inl u ↦ ground arith
    | inr u ↦ ground arith
  ]
  | inr (b, e) ↦ ground arith
]

abbrev prepend : Bool → Result Exc (List Bool) × Instance → Result Exc (List Bool) × Instance
prepend b (ok bs, t) = (ok (b ∷ bs), t)
prepend b (err e, t) = (err e, t)

prepend-bind :
    (b : Bool) (calls : List (String × Bool)) (s : Instance)
    → (patch_all calls >>= λ bs. pure (b ∷ bs)) s ≡ prepend b (patch_all calls s)
prepend-bind b calls s = go (patch_all calls s)
  where
    go :
        (p : Result Exc (List Bool) × Instance)
        → ◌>>=◌ (λ _. p) (λ bs. pure (b ∷ bs)) s ≡ prepend b p
    go (ok bs, t) = refl
    go (err e, t) = refl

pub patch_all-cons :
    (id : String) (d : Bool) (calls : List (String × Bool)) (s : Instance)
    → IsWritable s
    → patch_all ((id, d) ∷ calls) s ≡ prepend (answer id s) (patch_all calls (after id d s))
patch_all-cons id d calls s w =
    ap
      (λ (p : Result Exc Bool × Instance).
        ◌>>=◌ (λ _. p) (λ b. patch_all calls >>= λ bs. pure (b ∷ bs)) s)
      (workflow_patch-IsWritable id d s w)
    ∙ prepend-bind (answer id s) calls (after id d s)

pub prepend_state : (b : Bool) (p : Result Exc (List Bool) × Instance) → (prepend b p).1 ≡ p.1
prepend_state b (ok bs, t) = refl
prepend_state b (err e, t) = refl

-- The answers and the commands of two runs are the same.
abbrev pub SameRun : Result Exc (List Bool) × Instance → Result Exc (List Bool) × Instance → Type 0
SameRun p q = (p.0 ≡ q.0) × (p.1.commands ≡ q.1.commands)

prepend-SameRun :
    (b : Bool) (p q : Result Exc (List Bool) × Instance)
    → SameRun p q
    → SameRun (prepend b p) (prepend b q)
prepend-SameRun b (ok bs, s) (ok cs, t) h = (cc h.0, h.1)
prepend-SameRun b (ok bs, s) (err e, t) h = cc h.0
prepend-SameRun b (err e, s) (ok cs, t) h = cc h.0
prepend-SameRun b (err e, s) (err f, t) h = (cc h.0, h.1)

-- Two instances that run the same workflow, the second one as a replay.
pub record IsReplayOf (s r : Instance) : Type 0 where
  pub first : IsWritable s
  pub second : IsWritable r
  pub not_replaying : s.is_replaying ≡ false
  pub memoized : r.patches_memoized ≡ s.patches_memoized
  pub commands : r.commands ≡ s.commands

after-IsReplayOf :
    (id : String) (d : Bool) (s r : Instance)
    → IsReplayOf s r
    → contains id r.patches_notified ≡ true
    → IsReplayOf (after id d s) (after id d r)
      × ((after id d r).patches_notified ≡ r.patches_notified)
      × (answer id r ≡ answer id s)
after-IsReplayOf id d s r h n = elim (Option-cases (get s.patches_memoized id)) [
  | inl e ↦ ground arith
  | inr (b, e) ↦ ground arith
]

abbrev pub AllIn : List (String × Bool) → List String → Type 0
AllIn [] notified = Unit {0}
AllIn ((id, d) ∷ calls) notified = (contains id notified ≡ true) × AllIn calls notified

-- A replay that has been notified of the patches gives the workflow the answers that the first run gave, and emits
-- the same commands.
pub patch_all-replay :
    (calls : List (String × Bool)) (s r : Instance)
    → IsReplayOf s r
    → AllIn calls r.patches_notified
    → SameRun (patch_all calls r) (patch_all calls s)
patch_all-replay [] s r h n = (refl, h.commands)
patch_all-replay ((id, d) ∷ calls) s r h n =
    let (h', same, eq) = after-IsReplayOf id d s r h n.0 in
    rw (patch_all-cons id d calls s h.first, patch_all-cons id d calls r h.second, eq)
      (prepend-SameRun (answer id s) (patch_all calls (after id d r))
        (patch_all calls (after id d s))
        (patch_all-replay calls (after id d s) (after id d r) h' (rw same n.1)))
