-- ===== src/Radix.antt =====
-- `Number.prototype.toString(radix)` for a natural number and a radix up to 36.
use Prim.Native.String.{String}
use sentinal.Base.{
  ℕ, zero, suc, ◌/◌, ◌%◌, ◌≡◌, ◌<◌, ◌≤◌, ◌&&◌, Bool, true, List, ◌<>◌, if◌then◌else◌, ltb, leb,
  ltb→lt, refl, arith, All, All-append, code_units, code_units-append, length, length-append,
  Bool-cases, inl, inr,
}

-- The character at a position, as a text; empty past the end.
abbrev char_text : String → ℕ → String
char_text String.[] n = ""
char_text (String.◌∷◌ c s) zero = String.◌∷◌ c String.[]
char_text (String.◌∷◌ c s) (suc n) = char_text s n

abbrev digit : ℕ → String
digit d = char_text "0123456789abcdefghijklmnopqrstuvwxyz" d

digits : ℕ → ℕ → ℕ → String → String
digits zero b n acc = acc
digits (suc fuel) b n acc =
    let more = digits fuel b (n / b) (digit (n % b) <> acc) in
    if ltb n b then digit n <> acc else more

-- A number has fewer digits than its successor counts, in every radix from 2 on.
unfoldable pub to_radix : ℕ → ℕ → String
unfolding digits
to_radix b n = digits (suc n) b n ""

-- A decimal digit, as a code unit.
abbrev pub is_decimal : ℕ → Bool
is_decimal c = leb 48 c && leb c 57

abbrev pub Decimals : List ℕ → Type 0
Decimals cs = All (λ c. is_decimal c ≡ true) cs

digit-Decimals :
    (d : ℕ) → d < 10 → Decimals (code_units (digit d)) × (1 ≤ length (code_units (digit d)))
digit-Decimals zero h = ((refl, tt), omega arith)
digit-Decimals (suc zero) h = ((refl, tt), omega arith)
digit-Decimals (suc (suc zero)) h = ((refl, tt), omega arith)
digit-Decimals (suc (suc (suc zero))) h = ((refl, tt), omega arith)
digit-Decimals (suc (suc (suc (suc zero)))) h = ((refl, tt), omega arith)
digit-Decimals (suc (suc (suc (suc (suc zero))))) h = ((refl, tt), omega arith)
digit-Decimals (suc (suc (suc (suc (suc (suc zero)))))) h = ((refl, tt), omega arith)
digit-Decimals (suc (suc (suc (suc (suc (suc (suc zero))))))) h = ((refl, tt), omega arith)
digit-Decimals (suc (suc (suc (suc (suc (suc (suc (suc zero)))))))) h = ((refl, tt), omega arith)
digit-Decimals (suc (suc (suc (suc (suc (suc (suc (suc (suc zero))))))))) h =
    ((refl, tt), omega arith)
digit-Decimals (suc (suc (suc (suc (suc (suc (suc (suc (suc (suc n)))))))))) h =
    absurd (omega arith)

digits-Decimals :
    (fuel n : ℕ) (acc : String)
    → n < fuel
    → Decimals (code_units acc)
    → Decimals (code_units (digits fuel 10 n acc))
      × (1 ≤ length (code_units (digits fuel 10 n acc)))
unfolding digits
digits-Decimals zero n acc h a = absurd (omega arith)
digits-Decimals (suc fuel) n acc h a = elim (Bool-cases (ltb n 10)) [
  | inl last ↦
      rw (last, code_units-append (digit n) acc)
        (let (p, q) = digit-Decimals n (ltb→lt n 10 last) in
          (
            All-append _ (code_units (digit n)) (code_units acc) p a,
            omega (arith, q, length-append (code_units (digit n)) (code_units acc)),
          ))
  | inr more ↦ rw more (
      digits-Decimals fuel (n / 10) (digit (n % 10) <> acc) (ground arith) (
        rw (code_units-append (digit (n % 10)) acc) (
          All-append _ (code_units (digit (n % 10))) (code_units acc)
            (digit-Decimals (n % 10) (omega arith)).0 a)))
]

-- In radix 10 a number is printed in decimal digits, at least one.
pub to_radix-Decimals :
    (n : ℕ) → Decimals (code_units (to_radix 10 n)) × (1 ≤ length (code_units (to_radix 10 n)))
unfolding to_radix
to_radix-Decimals n = digits-Decimals (suc n) n "" (omega arith) tt
