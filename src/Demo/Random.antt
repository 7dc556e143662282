-- ===== src/Demo/Random.antt =====
-- The seeded generator `mulberry32` of dashboard/src/lib/demo.ts. A 32-bit integer is its bit
-- pattern, below 2 ^ 32; a result `n` stands for the number n / 2 ^ 32, which a double holds exactly.
use Prim.Native.Nat.{bit_or, bit_xor}
use sentinal.Base.{ℕ, ◌+◌, ◌*◌, ◌/◌, ◌%◌, ◌^◌, ◌<◌, arith}

abbrev pub word : ℕ
word = 2 ^ 32

-- `Math.imul(a, b)`
abbrev imul : ℕ → ℕ → ℕ
imul a b = a * b % word

-- `x ^ (x >>> n)`
abbrev fold_in : ℕ → ℕ → ℕ
fold_in x n = bit_xor x (x / 2 ^ n)

-- The state that a call leaves behind.
unfoldable pub next_seed : ℕ → ℕ
next_seed seed = (seed + 0x6d2b79f5) % word

-- The number that a call returns, from the state that it leaves behind.
unfoldable pub output : ℕ → ℕ
output seed =
    let t = imul (fold_in seed 15) (bit_or 1 seed) in
    let u = bit_xor ((t + imul (fold_in t 7) (bit_or 61 t)) % word) t in fold_in u 14 % word

-- Every number that is drawn lies in [0, 1).
pub output-lt : (seed : ℕ) → output seed < word
unfolding output
output-lt seed = omega arith
