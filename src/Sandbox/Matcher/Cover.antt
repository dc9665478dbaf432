-- ===== src/Sandbox/Matcher/Cover.antt =====
-- One matcher covers another: it matches wherever the other does.
use temporalio_sdk_python.Common.{
  Bool, true, none, some, List, [], ◌∷◌, String, ◌≡◌, inl, inr, arith, Option-cases, string_eq,
  option_eq,
}
use temporalio_sdk_python.Sandbox.Matcher.{
  SandboxMatcher, Children, RestrictionContext, match_access, named, match_self, access, uses,
  children, only_runtime, all, get_child,
}

-- `c` matches in every context all that `m` matches.
pub record Covers (m c : SandboxMatcher) : Type 0 where
  pub at :
      (context : RestrictionContext) (u : Bool) (path : List String)
      → match_access context u m path ≡ true
      → match_access context u c path ≡ true

pub record ChildrenCover (cs ds : Children) : Type 0 where
  pub at_key :
      (k : String) (m : SandboxMatcher)
      → get_child cs k ≡ some m
      → (d : SandboxMatcher) × (get_child ds k ≡ some d) × Covers m d

pub Covers-refl : (m : SandboxMatcher) → Covers m m
Covers-refl m = record { at = λ context u path h. h }

pub Covers-trans : {a b c : SandboxMatcher} → Covers a b → Covers b c → Covers a c
Covers-trans p q = record { at = λ context u path h. q.at context u path (p.at context u path h) }

pub ChildrenCover-refl : (cs : Children) → ChildrenCover cs cs
ChildrenCover-refl cs = record { at_key = λ k m h. (m, h, Covers-refl m) }

pub ChildrenCover-trans :
    {a b c : Children} → ChildrenCover a b → ChildrenCover b c → ChildrenCover a c
ChildrenCover-trans p q = record {
  at_key = λ k m h.
      let (d, e, md) = p.at_key k m h in
      let (f, g, df) = q.at_key k d e in (f, g, Covers-trans md df);
}

pub all-Covers : (m : SandboxMatcher) → Covers m all
unfolding match_access
all-Covers m = record { at = go }
  where
    go :
        (context : RestrictionContext) (u : Bool) (path : List String)
        → match_access context u m path ≡ true
        → match_access context u all path ≡ true
    go context u [] h = ground arith
    go context u (v ∷ path) h = ground arith

-- A matcher with the flags of another, at least its names and children that cover its own, none of which is the
-- wildcard, covers it.
pub Covers-of_parts :
    (m c : SandboxMatcher)
    → only_runtime m ≡ only_runtime c
    → (match_self m ≡ true → match_self c ≡ true)
    → ((v : String) → named (access m) v ≡ true → named (access c) v ≡ true)
    → ((v : String) → named (uses m) v ≡ true → named (uses c) v ≡ true)
    → get_child (children m) "*" ≡ none
    → ChildrenCover (children m) (children c)
    → Covers m c
unfolding match_access
Covers-of_parts m c r s a u w k = record { at = go }
  where
    go :
        (context : RestrictionContext) (i : Bool) (path : List String)
        → match_access context i m path ≡ true
        → match_access context i c path ≡ true
    go context i [] h = ground arith
    go context i (v ∷ path) h = elim (Option-cases (get_child (children m) v)) [
      | inl e ↦ ground (arith, a v, u v)
      | inr (n, e) ↦
          let (d, f, nd) = k.at_key v n e in ground (arith, a v, u v, nd.at context i path)
    ]
