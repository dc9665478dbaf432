-- ===== src/Instance/Patch/Memo.antt =====
-- The answer for a patch is final, and it is marked once.
use package.text.Mathlib.TextPositions.{eq_refl}
use temporalio_sdk_python.Common.{
  ℕ, ◌+◌, ◌≤◌, Bool, true, false, not, ◌||◌, none, some, List, [], ◌∷◌, ◌++◌, String, ◌≡◌, sym, ap,
  subst, ◌∙◌, inl, inr, string_eq, ℕ_eq, option_eq, arith, if◌then◌else◌, ◌==◌, contains,
  Bool-cases, Option-cases,
}
use temporalio_sdk_python.Common.Dict.{get, get-put}
use temporalio_sdk_python.Common.Result.{Result, ok}
use temporalio_sdk_python.Exceptions.{Exc}
use temporalio_sdk_python.Instance.State.{Instance, Command, set_patch_marker}
use temporalio_sdk_python.Instance.Guards.{IsWritable}
use temporalio_sdk_python.Instance.Patch.{apply_notify_has_patch, workflow_patch, patch_all}
use temporalio_sdk_python.Instance.Activate.{Activation, reset}
use temporalio_sdk_python.Instance.Patch.Replay.{
  answer, after, workflow_patch-IsWritable, patch_all-cons, prepend_state,
}

after-IsWritable :
    (id : String) (d : Bool) (s : Instance) → IsWritable s → IsWritable (after id d s)
after-IsWritable id d s w = elim (Option-cases (get s.patches_memoized id)) [
  | inl e ↦ ground arith
  | inr (b, e) ↦ ground arith
]

-- What a run of calls keeps.
module _ {P : Instance → Type 0}
    (step : (id : String) (d : Bool) (s : Instance) → IsWritable s → P s → P (after id d s)) where
  patch_all_induction :
      (calls : List (String × Bool)) (s : Instance)
      → IsWritable s
      → P s
      → IsWritable (patch_all calls s).1 × P (patch_all calls s).1
  patch_all_induction [] s w h = (w, h)
  patch_all_induction ((id, d) ∷ calls) s w h =
      rw
        (
          patch_all-cons id d calls s w,
          prepend_state (answer id s) (patch_all calls (after id d s)),
        )
        (patch_all_induction calls (after id d s) (after-IsWritable id d s w) (step id d s w h))

memo_stays :
    (id : String) (b : Bool) (j : String) (d : Bool) (s : Instance)
    → IsWritable s
    → get s.patches_memoized id ≡ some b
    → get (after j d s).patches_memoized id ≡ some b
memo_stays id b j d s w h = elim (Option-cases (get s.patches_memoized j)) [
  | inl e ↦ ground (
    arith,
    get-put s.patches_memoized j id (not s.is_replaying || contains j s.patches_notified),
    string_eq.same_iff j id,
  )
  | inr (c, e) ↦ ground arith
]

answer_memoized :
    (id : String) (d : Bool) (s : Instance)
    → get (after id d s).patches_memoized id ≡ some (answer id s)
answer_memoized id d s = elim (Option-cases (get s.patches_memoized id)) [
  | inl e ↦ ground (
    arith,
    get-put s.patches_memoized id id (not s.is_replaying || contains id s.patches_notified),
    eq_refl id,
  )
  | inr (c, e) ↦ ground arith
]

settled :
    (id : String) (d : Bool) (b : Bool) (u : Instance)
    → get u.patches_memoized id ≡ some b
    → ◌≡◌ {A = Result Exc Bool × Instance} (ok (answer id u), after id d u) (ok b, u)
settled id d b u h = ground arith

-- What can happen between two calls: other calls, a patch that is notified, and an activation that starts, as a replay or not.
pub data PatchEvent : Type 0 where
  asked : (id : String) (deprecated : Bool) → PatchEvent
  notified : (id : String) → PatchEvent
  activated : Activation → PatchEvent

abbrev pub run_event : PatchEvent → Instance → Instance
run_event (asked id deprecated) s = (workflow_patch id deprecated s).1
run_event (notified id) s = (apply_notify_has_patch id s).1
run_event (activated act) s = reset act s

abbrev pub run_events : List PatchEvent → Instance → Instance
run_events [] s = s
run_events (event ∷ events) s = run_events events (run_event event s)

abbrev HasMemo : String → Bool → Instance → Type 0
HasMemo id b s = IsWritable s × (get s.patches_memoized id ≡ some b)

run_event_keeps_memo :
    (id : String) (b : Bool) (event : PatchEvent) (s : Instance)
    → HasMemo id b s
    → HasMemo id b (run_event event s)
unfolding apply_notify_has_patch
run_event_keeps_memo id b (asked j d) s (w, h) =
    subst (HasMemo id b)
      (sym (ap (λ (p : Result Exc Bool × Instance). p.1) (workflow_patch-IsWritable j d s w)))
      (after-IsWritable j d s w, memo_stays id b j d s w h)
run_event_keeps_memo id b (notified j) s h = h
run_event_keeps_memo id b (activated act) s h = h

run_events_keep_memo :
    (id : String) (b : Bool) (events : List PatchEvent) (s : Instance)
    → HasMemo id b s
    → HasMemo id b (run_events events s)
run_events_keep_memo id b [] s h = h
run_events_keep_memo id b (event ∷ events) s h =
    run_events_keep_memo id b events (run_event event s) (run_event_keeps_memo id b event s h)

-- The answer for a patch is final: the workflow gets it again after any further calls, notifications of patches and
-- starts of activations, replayed or not, in any order, and the call changes nothing. Nothing forbids commands at the
-- first call.
pub workflow_patch_final :
    (id : String) (d d' : Bool) (events : List PatchEvent) (s : Instance)
    → IsWritable s
    → let first = workflow_patch id d s in
      let later = run_events events first.1 in workflow_patch id d' later ≡ (first.0, later)
workflow_patch_final id d d' events s w = rw (workflow_patch-IsWritable id d s w) (
    let (wu, hu) =
      run_events_keep_memo id (answer id s) events (after id d s)
        (after-IsWritable id d s w, answer_memoized id d s) in
    workflow_patch-IsWritable id d' (run_events events (after id d s)) wu
    ∙ settled id d' (answer id s) (run_events events (after id d s)) hu)

-- The markers of a patch among commands.
abbrev pub markers : String → List Command → ℕ
markers id [] = 0
markers id (set_patch_marker j d ∷ rest) = (if j == id then 1 else 0) + markers id rest
markers id (c ∷ rest) = markers id rest

markers-append :
    (id : String) (xs ys : List Command) → markers id (xs ++ ys) ≡ markers id xs + markers id ys
markers-append id [] ys = omega arith
markers-append id (set_patch_marker j d ∷ xs) ys = ground (arith, markers-append id xs ys)
markers-append id (_ ∷ xs) ys = markers-append id xs ys

abbrev MarkedOnce : String → Instance → Type 0
MarkedOnce id s =
    (markers id s.commands ≤ 1) × (get s.patches_memoized id ≡ none → markers id s.commands ≡ 0)

after-MarkedOnce :
    (id : String) (j : String) (d : Bool) (s : Instance)
    → IsWritable s
    → MarkedOnce id s
    → MarkedOnce id (after j d s)
after-MarkedOnce id j d s w h = elim (Option-cases (get s.patches_memoized j)) [
  | inl e ↦ elim (Bool-cases (not s.is_replaying || contains j s.patches_notified)) [
    | inl u ↦ ground (
      arith,
      markers-append id s.commands (set_patch_marker j d ∷ []),
      get-put s.patches_memoized j id true,
      string_eq.same_iff j id,
    )
    | inr u ↦ ground (arith, get-put s.patches_memoized j id false, string_eq.same_iff j id)
  ]
  | inr (c, e) ↦ ground arith
]

-- However often a workflow asks, it emits at most one marker for a patch.
pub patch_all-markers :
    (id : String) (calls : List (String × Bool)) (s : Instance)
    → IsWritable s
    → markers id s.commands ≡ 0
    → markers id (patch_all calls s).1.commands ≤ 1
patch_all-markers id calls s w h =
    (patch_all_induction {P = MarkedOnce id} (λ j d t wt ht. after-MarkedOnce id j d t wt ht) calls
      s w (omega arith, λ e. h)).1.0
