-- ===== src/Base/TextLength.antt =====
-- The number of characters of a text, what replacing keeps of it, and the code units of a sum.
use Prim.Native.Nat.{ℕ, suc, ◌+◌}
use Prim.Native.String.append
use Prim.Native.String.{String}
use Prim.Native.Char.{code}
use mathlib.Core.Path.{◌≡◌, refl, ap}
use mathlib.Core.Logic.{inl, inr}
use mathlib.Core.Bool.{Bool, true, false}
use mathlib.Core.Option.{Option, some}
use native.Mathlib.Omega.{arith}
use sentinal.Base.Tests.{Option-cases, ◌==◌}
use mathlib.Core.List.{List, ◌++◌}
use sentinal.Base.Text.{◌<>◌, strip_prefix, replace_first, skip, code_units, utf16}

unfoldable pub text_length : String → ℕ
text_length String.[] = 0
text_length (String.◌∷◌ c s) = suc (text_length s)

pub text_length-append : (s t : String) → text_length (s <> t) ≡ text_length s + text_length t
unfolding text_length
text_length-append String.[] t = rw append.nil (omega arith)
text_length-append (String.◌∷◌ c s) t = rw append.cons (omega (arith, text_length-append s t))

skip-eq-some : (b : Bool) (o : Option String) (r : String) → skip b o ≡ some r → o ≡ some r
skip-eq-some true o r e = e
skip-eq-some false o r e = cc

text_length-strip_prefix :
    (p s r : String) → strip_prefix p s ≡ some r → text_length s ≡ text_length p + text_length r
unfolding text_length strip_prefix
text_length-strip_prefix String.[] s r e = ground arith
text_length-strip_prefix (String.◌∷◌ q p) String.[] r e = cc
text_length-strip_prefix (String.◌∷◌ q p) (String.◌∷◌ c s) r e =
    omega (
      arith,
      text_length-strip_prefix p s r (skip-eq-some (code q == code c) (strip_prefix p s) r e),
    )

-- To replace by a text of the same length keeps the length.
pub text_length-replace_first :
    (t u s : String)
    → text_length t ≡ text_length u
    → text_length (replace_first t u s) ≡ text_length s
unfolding text_length replace_first
text_length-replace_first t u String.[] e = refl
text_length-replace_first t u (String.◌∷◌ c s) e =
    elim (Option-cases (strip_prefix t (String.◌∷◌ c s))) [
      | inl miss ↦ rw (miss, replace_first) (ap suc (text_length-replace_first t u s e))
      | inr (r, hit) ↦
          rw (hit, replace_first)
            (omega
              (arith, text_length-append u r, text_length-strip_prefix t (String.◌∷◌ c s) r hit))
    ]

utf16-append : (c : ℕ) (xs ys : List ℕ) → utf16 c xs ++ ys ≡ utf16 c (xs ++ ys)
utf16-append c xs ys = ground arith

pub code_units-append : (s t : String) → code_units (s <> t) ≡ code_units s ++ code_units t
code_units-append String.[] t = rw append.nil refl
code_units-append (String.◌∷◌ c s) t =
    rw (append.cons, code_units-append s t)
      (rw (utf16-append (code c) (code_units s) (code_units t)) refl)
