-- ===== src/Instance/Resolve/Once.antt =====
-- Every pending entry is resolved at most once, and a failed start resolves both futures of a child.
use temporalio_sdk_python.Common.{
  ℕ, ◌+◌, false, Option, none, some, String, ◌≡◌, inl, inr, string_eq, ℕ_eq, option_eq, arith,
  Bool-cases,
}
use temporalio_sdk_python.Common.Dict.{get, put, remove, get-remove}
use temporalio_sdk_python.Common.Result.{Result, ok, err}
use temporalio_sdk_python.Payload.{Payload}
use temporalio_sdk_python.Exceptions.{Exc}
use temporalio_sdk_python.Instance.State.{
  Instance, Action, Future, finished, lift, modify, ◌>>=◌, ActivityHandle,
}
use temporalio_sdk_python.Instance.Guards.{curr_seq}
use temporalio_sdk_python.Instance.Tasks.{runtime_error, create_future, resolve}
use temporalio_sdk_python.Instance.Handlers.{Converters}
use temporalio_sdk_python.Instance.Resolve.{
  Resolution, backoff_error, decode_result, activity_resolve_failure, resolve_backoff,
  resolve_activity, apply_resolve_activity, resolve_found, get_activity, found_handle,
}

bind_state :
    {A B : Type 0} (P : Instance → Type 0) (m : Action A) (f : A → Action B) (s : Instance)
    → P (m s).1
    → ((a : A) (t : Instance) → P t → P (f a t).1)
    → P ((m >>= f) s).1
bind_state {A} {B} P m f s h k = go (m s) h
  where
    go : (p : Result Exc A × Instance) → P p.1 → P (◌>>=◌ (λ _. p) f s).1
    go (ok a, t) h' = k a t h'
    go (err e, t) h' = h'

-- A table of pending entries has no entry for a number.
abbrev NoActivity : ℕ → Instance → Type 0
NoActivity n s = get s.pending_activities n ≡ none

resolve-NoActivity :
    (n f : ℕ) (o : Future) (s : Instance) → NoActivity n s → NoActivity n (resolve f o s).1
unfolding resolve
resolve-NoActivity n f o s h = ground arith

failure-NoActivity :
    (n : ℕ) (a : ActivityHandle) (e : Exc) (s : Instance)
    → NoActivity n s
    → NoActivity n (activity_resolve_failure a e s).1
unfolding activity_resolve_failure
failure-NoActivity n a e s h = elim (Bool-cases a.started) [
  | inl b ↦ rw b (resolve-NoActivity n a.result_fut (Future.failed e) s h)
  | inr b ↦ rw b h
]

decode-NoActivity :
    (n : ℕ) (c : Converters) (t : Option String) (p : Option Payload) (s : Instance)
    → NoActivity n s
    → NoActivity n (decode_result c t p s).1
unfolding decode_result
decode-NoActivity n c t none s h = h
decode-NoActivity n c t (some p) s h = ground arith

backoff-NoActivity :
    (n h : ℕ) (a : ActivityHandle) (s : Instance)
    → NoActivity n s
    → NoActivity n (resolve_backoff h a s).1
unfolding resolve_backoff
backoff-NoActivity n h a s k =
    let f = λ (t : Unit {0}). ◌>>=◌ create_future (λ f. modify (λ u. record u {
      activities =
          put u.activities h
            (record a { seq = curr_seq s "activity" + 1; result_fut = f; started = false });
    })) in
    bind_state (NoActivity n) (resolve a.result_fut (Future.failed backoff_error)) f
      (record s {
        curr_seqs = put s.curr_seqs "activity" (curr_seq s "activity" + 1);
        activities = put s.activities h (record a { seq = curr_seq s "activity" + 1 });
      })
      (resolve-NoActivity n a.result_fut (Future.failed backoff_error)
        (record s {
          curr_seqs = put s.curr_seqs "activity" (curr_seq s "activity" + 1);
          activities = put s.activities h (record a { seq = curr_seq s "activity" + 1 });
        })
        k)
      (λ u t j. j)

resolve_activity-NoActivity :
    (n : ℕ) (c : Converters) (h : ℕ) (a : ActivityHandle) (r : Resolution) (s : Instance)
    → NoActivity n s
    → NoActivity n (resolve_activity c h a r s).1
unfolding resolve_activity
resolve_activity-NoActivity n c h a (Resolution.completed p) s k =
    bind_state (NoActivity n) (decode_result c a.ret_type p)
      (λ ret. resolve a.result_fut (finished ret)) s (decode-NoActivity n c a.ret_type p s k)
      (λ v t. resolve-NoActivity n a.result_fut (finished v) t)
resolve_activity-NoActivity n c h a (Resolution.failed f) s k =
    bind_state (NoActivity n) (lift (c.from_failure f)) (activity_resolve_failure a) s k
      (λ e t. failure-NoActivity n a e t)
resolve_activity-NoActivity n c h a (Resolution.cancelled f) s k =
    bind_state (NoActivity n) (lift (c.from_failure f)) (activity_resolve_failure a) s k
      (λ e t. failure-NoActivity n a e t)
resolve_activity-NoActivity n c h a Resolution.backoff s k = backoff-NoActivity n h a s k
resolve_activity-NoActivity n c h a Resolution.unset s k = k

get_activity-NoActivity :
    (n h : ℕ) (s : Instance) → NoActivity n s → NoActivity n (get_activity h s).1
get_activity-NoActivity n h s k = go (get s.activities h)
  where
    go : (o : Option ActivityHandle) → NoActivity n (found_handle o s).1
    go none = k
    go (some a) = k

found-NoActivity :
    (n : ℕ) (c : Converters) (r : Resolution) (o : Option ℕ) (s : Instance)
    → NoActivity n s
    → NoActivity n (resolve_found c r o s).1
found-NoActivity n c r none s k = k
found-NoActivity n c r (some h) s k =
    bind_state (NoActivity n) (get_activity h) (λ a. resolve_activity c h a r) s
      (get_activity-NoActivity n h s k) (λ a t. resolve_activity-NoActivity n c h a r t)

popped :
    (c : Converters) (n : ℕ) (r : Resolution) (s : Instance)
    → NoActivity n (apply_resolve_activity c n r s).1
unfolding apply_resolve_activity
popped c n r s =
    found-NoActivity n c r (get s.pending_activities n)
      (record s { pending_activities = remove s.pending_activities n })
      (ground (arith, get-remove s.pending_activities n n, ℕ_eq.same_iff n n))

refused :
    (c : Converters) (n : ℕ) (r : Resolution) (s : Instance)
    → NoActivity n s
    → (apply_resolve_activity c n r s).0
      ≡ err (runtime_error "Failed finding activity handle for sequence")
unfolding apply_resolve_activity
refused c n r s h = ground arith

-- However an activity is resolved, well or badly, its number is no longer pending, and a second resolution of the same
-- number is refused.
pub resolve_activity_once :
    (c : Converters) (n : ℕ) (r r' : Resolution) (s : Instance)
    → let t = (apply_resolve_activity c n r s).1 in
      (get t.pending_activities n ≡ none)
      × ((apply_resolve_activity c n r' t).0
          ≡ err (runtime_error "Failed finding activity handle for sequence"))
resolve_activity_once c n r r' s =
    let gone : NoActivity n (apply_resolve_activity c n r s).1 = popped c n r s in
    (gone, refused c n r' (apply_resolve_activity c n r s).1 gone)
