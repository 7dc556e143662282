-- ===== src/Threats/Jitter.antt =====
-- The deterministic jitter of a marker, from the hash of its key: `h = (h * 31 + c) | 0` over the code
-- units of the key, as in dashboard/src/app/threats/page.tsx and dashboard/src/app/page.tsx. A 32-bit
-- integer is its bit pattern, below 2 ^ 32. Offsets are in hundredths of a degree.
use sentinal.Base.{
  ℕ, ◌+◌, ◌*◌, ◌-◌, ◌/◌, ◌%◌, ◌^◌, ◌<◌, ◌≡◌, ◌≢◌, refl, arith, String, List, [], ◌∷◌, if◌then◌else◌,
  ltb, ◌==◌, code_units, Bool-cases, inl, inr,
}
use sentinal.Base.Int.{ℤ, pos, negsuc, sub_ℕ, ◌≤ℤ◌}

unfoldable pub hash_from : ℕ → List ℕ → ℕ
hash_from h [] = h
hash_from h (c ∷ cs) = hash_from ((h * 31 + c) % 2 ^ 32) cs

unfoldable pub hash_key : String → ℕ
unfolding hash_from
hash_key key = hash_from 0 (code_units key)

-- `Math.abs(h)`, for a pattern `h`: a number up to 2 ^ 31.
unfoldable pub abs32 : ℕ → ℕ
abs32 h = if ltb h (2 ^ 31) then h else 2 ^ 32 - h

-- `((Math.abs(h) % 100) / 100 - 0.5) * 3`
unfoldable pub jitter_lat : ℕ → ℤ
unfolding abs32
jitter_lat h = sub_ℕ (abs32 h % 100 * 3) 150

-- `(((Math.abs(h) >> 5) % 100) / 100 - 0.5) * 3`. The shift takes its operand as a 32-bit integer, so
-- 2 ^ 31 counts as - 2 ^ 31 there, and `%` keeps the sign.
unfoldable pub jitter_lon : ℕ → ℤ
unfolding abs32
jitter_lon h =
    if abs32 h == 2 ^ 31
    then sub_ℕ 0 (2 ^ 26 % 100 * 3 + 150)
    else sub_ℕ (abs32 h / 32 % 100 * 3) 150

hash_key-lt : (key : String) → hash_key key < 2 ^ 32
unfolding hash_key
hash_key-lt key = below (code_units key) 0 (omega arith)
  where
    below : (cs : List ℕ) (h : ℕ) → h < 2 ^ 32 → hash_from h cs < 2 ^ 32
    below [] h lt = lt
    below (c ∷ cs) h lt = below cs ((h * 31 + c) % 2 ^ 32) (omega arith)

jitter_lat_bounds : (h : ℕ) → (sub_ℕ 0 150 ≤ℤ jitter_lat h) × (jitter_lat h ≤ℤ pos 150)
unfolding jitter_lat
jitter_lat_bounds h = (ground arith, ground arith)

jitter_lon_bounds :
    (h : ℕ) → h < 2 ^ 32 → h ≢ 2 ^ 31 → (sub_ℕ 0 150 ≤ℤ jitter_lon h) × (jitter_lon h ≤ℤ pos 150)
unfolding jitter_lon
jitter_lon_bounds h lt ne = (ground arith, ground arith)

jitter_lon-least : jitter_lon (2 ^ 31) ≡ negsuc 341
unfolding jitter_lon
jitter_lon-least = refl

abbrev pub Within : ℤ → Type 0
Within j = (sub_ℕ 0 150 ≤ℤ j) × (j ≤ℤ pos 150)

-- For every key a marker is moved by at most 1.5 degrees in latitude. In longitude it is moved by at
-- most 1.5 degrees or, exactly if the hash of the key is the least 32-bit integer, by 3.42 degrees to
-- the west.
pub jitter_bounds :
    (key : String)
    → Within (jitter_lat (hash_key key))
      × (if hash_key key == 2 ^ 31
          then jitter_lon (hash_key key) ≡ negsuc 341
          else Within (jitter_lon (hash_key key)))
jitter_bounds key = (
  jitter_lat_bounds (hash_key key),
  elim (Bool-cases (hash_key key == 2 ^ 31)) [
    | inl least ↦ let e : hash_key key ≡ 2 ^ 31 = ground arith in rw least (rw e jitter_lon-least)
    | inr other ↦ rw other (jitter_lon_bounds (hash_key key) (hash_key-lt key) (ground arith))
  ],
)
