-- ===== src/Base/Text.antt =====
-- Texts: equality tests, and the UTF-16 code units that `charCodeAt` reads.
use Prim.Native.Nat.{ℕ, ◌+◌, ◌-◌, ◌/◌, ◌%◌}
use Prim.Native.Char.{code}
use Prim.Native.String.{String, ◌++◌ as String_append}
use text.Mathlib.Text.{◌==◌ as text_eq}
use text.Mathlib.TextEquality.{eq_iff}
use mathlib.Core.Path.{◌≡◌, ap}
use mathlib.Core.Bool.{false≢true, Bool, true, false}
use mathlib.Core.List.{List, [], ◌∷◌}
use mathlib.Core.Option.{Option, none, some}
use sentinal.Base.Tests.{ltb, ◌==◌, if◌then◌else◌}

infix 50 ◌=?◌
abbrev pub ◌=?◌ : String → String → Bool
s =? t = text_eq s t

-- `o === t` where `o` may be undefined.
abbrev pub is_text : Option String → String → Bool
is_text none t = false
is_text (some s) t = s =? t

pub is_text-eq : (o : Option String) (t : String) → is_text o t ≡ true → o ≡ some t
is_text-eq none t h = absurd (false≢true h)
is_text-eq (some s) t h = ap some ((eq_iff s t).0 h)

-- One code point as one or two code units.
abbrev pub utf16 : ℕ → List ℕ → List ℕ
utf16 c rest =
    if ltb c 65536
    then c ∷ rest
    else (55296 + (c - 65536) / 1024) ∷ (56320 + (c - 65536) % 1024) ∷ rest

abbrev pub code_units : String → List ℕ
code_units String.[] = []
code_units (String.◌∷◌ c s) = utf16 (code c) (code_units s)

-- `+` on texts, and template literals.
infixl 65 ◌<>◌
abbrev pub ◌<>◌ : String → String → String
s <> t = String_append s t

-- A JavaScript text is truthy unless it is empty; `undefined` and `null` are not.
abbrev pub truthy : Option String → Bool
truthy none = false
truthy (some String.[]) = false
truthy (some (String.◌∷◌ c s)) = true

abbrev pub skip : Bool → Option String → Option String
skip true r = r
skip false r = none

-- What follows the prefix, if the text starts with it.
unfoldable pub strip_prefix : String → String → Option String
strip_prefix String.[] s = some s
strip_prefix (String.◌∷◌ p ps) String.[] = none
strip_prefix (String.◌∷◌ p ps) (String.◌∷◌ c s) = skip (code p == code c) (strip_prefix ps s)

-- `s.includes(t)`, for a text `t` that is not empty.
unfoldable pub includes : String → String → Bool
includes t String.[] = false
includes t (String.◌∷◌ c s) =
    let rest = includes t s in
    elim (strip_prefix t (String.◌∷◌ c s)) [ none ↦ rest | some _ ↦ true ]

-- `s.replace(t, u)`: the first occurrence of `t`, which is not empty, is replaced.
unfoldable pub replace_first : String → String → String → String
replace_first t u String.[] = String.[]
replace_first t u (String.◌∷◌ c s) =
    let rest = replace_first t u s in
    elim (strip_prefix t (String.◌∷◌ c s)) [ none ↦ String.◌∷◌ c rest | some tail ↦ u <> tail ]

-- `s.replace(/\/$/, "")`
unfoldable pub drop_slash : String → String
drop_slash String.[] = String.[]
drop_slash (String.◌∷◌ c String.[]) = if code c == b'/' then String.[] else String.◌∷◌ c String.[]
drop_slash (String.◌∷◌ c (String.◌∷◌ d s)) = String.◌∷◌ c (drop_slash (String.◌∷◌ d s))
