-- ===== src/Auth/Password.antt =====
-- `ValidatePassword` of auth-service/internal/domain/user.go, on the code points of a text, and the
-- policy of the sign-in page.
use Prim.Native.Char.{code}
use Prim.Native.String.{String}
use sentinal.Base.{
  ℕ, ◌+◌, ◌-◌, ◌/◌, ◌%◌, ◌≡◌, ◌≤◌, refl, arith, Bool, true, false, not, ◌&&◌, ◌||◌, List, [], ◌∷◌,
  ltb, leb, ◌==◌, any, length, code_units, if◌then◌else◌, Bool-cases, inl, inr,
}
use sentinal.Login.{register, between, bit, policy, policy_met, can_submit, specials}

abbrev pub code_points : String → List ℕ
code_points String.[] = []
code_points (String.◌∷◌ c s) = code c ∷ code_points s

-- The bytes of a code point in UTF-8.
abbrev pub utf8_size : ℕ → ℕ
utf8_size c = if ltb c 128 then 1 else if ltb c 2048 then 2 else if ltb c 65536 then 3 else 4

abbrev pub byte_length : List ℕ → ℕ
byte_length [] = 0
byte_length (c ∷ cs) = utf8_size c + byte_length cs

abbrev pub is_alphanumeric : ℕ → Bool
is_alphanumeric c = between 97 122 c || between 65 90 c || between 48 57 c

-- Whether it returns no error.
unfoldable pub validate_password : String → Bool
validate_password password =
    let cs = code_points password in
    leb 12 (byte_length cs)
    && any (between 65 90) cs
    && any (between 97 122) cs
    && any (between 48 57) cs
    && any (λ c. not (is_alphanumeric c)) cs

any_units :
    (p : ℕ → Bool) (password : String)
    → ((c : ℕ) → 55296 ≤ c → p c ≡ false)
    → any p (code_units password) ≡ true
    → any p (code_points password) ≡ true
any_units p String.[] high h = h
any_units p (String.◌∷◌ c s) high h =
    let rest = any_units p s high in
    elim (Bool-cases (ltb (code c) 65536)) [
      | inl basic ↦ ground (arith, basic, rest)
      | inr astral ↦ ground (
        arith,
        astral,
        rest,
        high (55296 + (code c - 65536) / 1024) (omega arith),
        high (56320 + (code c - 65536) % 1024) (omega arith),
      )
    ]

length-le-bytes :
    (password : String) → length (code_units password) ≤ byte_length (code_points password)
length-le-bytes String.[] = omega arith
length-le-bytes (String.◌∷◌ c s) = ground (arith, length-le-bytes s)

is_special : ℕ → Bool
is_special c = any (λ s. s == c) specials

all_plain : List ℕ → Bool
all_plain [] = true
all_plain (s ∷ ss) = not (is_alphanumeric s) && all_plain ss

plain_member :
    (ss : List ℕ) (c : ℕ)
    → all_plain ss ≡ true
    → any (λ s. s == c) ss ≡ true
    → is_alphanumeric c ≡ false
unfolding all_plain
plain_member [] c a h = absurd cc
plain_member (s ∷ ss) c a h = elim (Bool-cases (s == c)) [
  | inl same ↦ let e : s ≡ c = ground (arith, same) in ground (arith, e, a)
  | inr other ↦ plain_member ss c (ground (arith, a)) (rw other at h)
]

special-plain : (c : ℕ) → is_special c ≡ true → is_alphanumeric c ≡ false
unfolding is_special
special-plain c h = plain_member specials c (unfold all_plain in refl) h

specials_low : List ℕ → Bool
specials_low [] = true
specials_low (s ∷ ss) = ltb s 128 && specials_low ss

high_other :
    (ss : List ℕ) (c : ℕ) → specials_low ss ≡ true → 55296 ≤ c → any (λ s. s == c) ss ≡ false
unfolding specials_low
high_other [] c low h = refl
high_other (s ∷ ss) c low h = ground (arith, high_other ss c, low, h)

any_weaker :
    (p q : ℕ → Bool) (cs : List ℕ)
    → ((c : ℕ) → p c ≡ true → q c ≡ true)
    → any p cs ≡ true
    → any q cs ≡ true
any_weaker p q [] imp h = absurd cc
any_weaker p q (c ∷ cs) imp h = elim (Bool-cases (p c)) [
  | inl here ↦ rw (imp c here) refl
  | inr later ↦ ground (arith, any_weaker p q cs imp (rw later at h))
]

has_special :
    (password : String)
    → any is_special (code_units password) ≡ true
    → any (λ c. not (is_alphanumeric c)) (code_points password) ≡ true
has_special password h =
    any_weaker is_special (λ c. not (is_alphanumeric c)) (code_points password)
      (λ c e. rw (special-plain c e) refl)
      (any_units is_special password
        (λ c high. unfold is_special in high_other specials c (unfold specials_low in refl) high) h)

all_five :
    (a b c d e : Bool)
    → (bit a + bit b + bit c + bit d + bit e == 5) ≡ true
    → (a ≡ true) × (b ≡ true) × (c ≡ true) × (d ≡ true) × (e ≡ true)
all_five a b c d e h = ground arith

-- A password with which the form lets a registration through is not refused by the service.
pub can_submit-validate_password :
    (password : String) → can_submit register password ≡ true → validate_password password ≡ true
unfolding can_submit policy_met policy validate_password
can_submit-validate_password password h =
    let cs = code_units password in
    let (long, upper, lower, digit, special) =
      all_five (leb 12 (length cs)) (any (between 65 90) cs) (any (between 97 122) cs)
        (any (between 48 57) cs) (any (λ c. any (λ s. s == c) specials) cs) h in
    let bytes = length-le-bytes password in
    let enough : leb 12 (byte_length (code_points password)) ≡ true = ground (arith, long, bytes) in
    let up = any_units (between 65 90) password (λ c i. ground arith) upper in
    let low = any_units (between 97 122) password (λ c i. ground arith) lower in
    let dig = any_units (between 48 57) password (λ c i. ground arith) digit in
    let spec = has_special password (unfold is_special in special) in
    rw (enough, up, low, dig, spec) refl
