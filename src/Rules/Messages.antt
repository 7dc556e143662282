-- ===== src/Rules/Messages.antt =====
-- The two patterns that `useRules` tries on the message of an error, on the code units of the text:
-- `/Failed to load rules \(\d+\)/` and `/network|fetch/i`.
use sentinal.Base.{
  ℕ, ◌≡◌, refl, arith, Bool, true, false, ◌&&◌, ◌||◌, String, List, [], ◌∷◌, ◌++◌, ◌+◌, ◌==◌, leb,
  if◌then◌else◌, code_units, code_units-append, ◌<>◌, length, ◌≤◌,
}
use sentinal.Radix.{to_radix, is_decimal, Decimals, to_radix-Decimals}
use sentinal.Rules.{status_text}

-- `\d*\)`, from here.
abbrev digits_close : List ℕ → Bool
digits_close [] = false
digits_close (c ∷ cs) = let rest = digits_close cs in if is_decimal c then rest else c == b')'

-- `\d+\)`
abbrev digits_then_close : List ℕ → Bool
digits_then_close [] = false
digits_then_close (c ∷ cs) = is_decimal c && digits_close cs

-- The pattern `p` here, and then `k`.
abbrev match_here : List ℕ → (List ℕ → Bool) → List ℕ → Bool
match_here [] k cs = k cs
match_here (p ∷ ps) k [] = false
match_here (p ∷ ps) k (c ∷ cs) = p == c && match_here ps k cs

-- The pattern anywhere.
abbrev match_in : (List ℕ → Bool) → List ℕ → Bool
match_in here [] = here []
match_in here (c ∷ cs) = here (c ∷ cs) || match_in here cs

-- A letter of the pattern in either case; the folding of `/i` maps no other character to ASCII.
abbrev lower : ℕ → ℕ
lower c = if leb 65 c && leb c 90 then c + 32 else c

abbrev lowered : List ℕ → List ℕ
lowered [] = []
lowered (c ∷ cs) = lower c ∷ lowered cs

abbrev always : List ℕ → Bool
always cs = true

unfoldable pub reports_status : String → Bool
reports_status msg =
    match_in (match_here (code_units "Failed to load rules (") digits_then_close) (code_units msg)

unfoldable pub reports_network : String → Bool
reports_network msg =
    match_in (match_here (code_units "network") always) (lowered (code_units msg))
    || match_in (match_here (code_units "fetch") always) (lowered (code_units msg))

digits_close-Decimals : (cs rest : List ℕ) → Decimals cs → digits_close (cs ++ b')' ∷ rest) ≡ true
digits_close-Decimals [] rest d = refl
digits_close-Decimals (c ∷ cs) rest d = rw d.0 (digits_close-Decimals cs rest d.1)

digits_then_close-Decimals :
    (cs rest : List ℕ) → 1 ≤ length cs → Decimals cs → digits_then_close (cs ++ b')' ∷ rest) ≡ true
digits_then_close-Decimals [] rest ne d = absurd (omega arith)
digits_then_close-Decimals (c ∷ cs) rest ne d = rw d.0 (digits_close-Decimals cs rest d.1)

-- The message of a refused list carries its status, whatever that is.
pub reports_status-status_text :
    (n : ℕ) → reports_status (status_text "Failed to load rules" n) ≡ true
unfolding reports_status
reports_status-status_text n =
    let (d, ne) = to_radix-Decimals n in
    rw
      (
        code_units-append "Failed to load rules" (" (" <> (to_radix 10 n <> ")")),
        code_units-append " (" (to_radix 10 n <> ")"),
        code_units-append (to_radix 10 n) ")",
        digits_then_close-Decimals (code_units (to_radix 10 n)) [] ne d,
      )
      refl
