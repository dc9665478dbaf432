-- ===== src/Common/Text.antt =====
-- Text that is put together, and Python's order of texts.
use Prim.Native.Nat.{ℕ, compare}
use Prim.Native.String.{String, [], ◌∷◌, ◌++◌}
use Prim.Native.Char.{code}
use mathlib.Core.Path.{◌≡◌, refl, ap, sym, ◌∙◌}
use mathlib.Core.Bool.{Bool, true, false, ◌&&◌, ◌||◌}
use native.Mathlib.Omega.{arith}
use text.Mathlib.TextPositions.{compare_self}
use text.Mathlib.TextEquality.{codes_equal}
use temporalio_sdk_python.Common.Tests.{ltb, eqb}

-- the texts one after the other, as in an f-string
abbrev pub concat : String → String → String
concat a b = a ++ b

-- `a <= b`, by the numbers of the characters
unfoldable pub text_le : String → String → Bool
text_le [] t = true
text_le (c ∷ s) [] = false
text_le (c ∷ s) (d ∷ t) = ltb (code c) (code d) || (eqb (code c) (code d) && text_le s t)

pub text_le_refl : (s : String) → text_le s s ≡ true
unfolding text_le
text_le_refl [] = refl
text_le_refl (c ∷ s) = ground (arith, text_le_refl s)

pub text_le_total : (s t : String) → text_le s t ≡ false → text_le t s ≡ true
unfolding text_le
text_le_total [] t h = cc h
text_le_total (c ∷ s) [] h = refl
text_le_total (c ∷ s) (d ∷ t) h = ground (arith, text_le_total s t)

pub text_le_trans : (s t u : String) → text_le s t ≡ true → text_le t u ≡ true → text_le s u ≡ true
unfolding text_le
text_le_trans [] t u h k = refl
text_le_trans (c ∷ s) [] u h k = cc h
text_le_trans (c ∷ s) (d ∷ t) [] h k = cc k
text_le_trans (c ∷ s) (d ∷ t) (e ∷ u) h k = ground (arith, text_le_trans s t u)

heads :
    (m n : ℕ) (p q : Bool)
    → (ltb m n || (eqb m n && p)) ≡ true
    → (ltb n m || (eqb n m && q)) ≡ true
    → (m ≡ n) × (p ≡ true) × (q ≡ true)
heads m n p q h k = ground arith

pub text_le_antisym : (s t : String) → text_le s t ≡ true → text_le t s ≡ true → s ≡ t
unfolding text_le
text_le_antisym [] [] h k = refl
text_le_antisym [] (d ∷ t) h k = cc k
text_le_antisym (c ∷ s) [] h k = cc h
text_le_antisym (c ∷ s) (d ∷ t) h k =
    let (m, p, q) = heads (code c) (code d) (text_le s t) (text_le t s) h k in
    let same = codes_equal c d (ap (λ n. compare (code c) n) (sym m) ∙ compare_self (code c)) in
    let rest = text_le_antisym s t p q in λ i. same i ∷ rest i
