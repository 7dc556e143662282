-- ===== src/Hud/Canvas.antt =====
-- The canvas of dashboard/src/components/hud/HUDAmbientLayer.tsx: its size, the first particles, and
-- which of the two effects draws. A pixel ratio is in hundredths; a draw k of `Math.random()` stands
-- for k / 2 ^ 32; a position or a speed is a number of 1 / (10000 * 2 ^ 32) pixels, a radius a number
-- of 1 / (1000 * 2 ^ 32), which are exact. A canvas cuts its size to whole pixels.
use sentinal.Base.{
  ℕ, zero, suc, ◌+◌, ◌*◌, ◌/◌, ◌≡◌, ◌≤◌, ◌<◌, arith, min, List, [], ◌∷◌, Bool, true, not, ◌&&◌,
  ◌==◌, ltb, String, if◌then◌else◌,
}
use sentinal.Base.Int.{pos, pos_part, neg_part, sub_ℕ}
use sentinal.Demo.Random.{word}
use sentinal.Hud.Particles.{Axis, Near, pace}

-- `Math.min(window.devicePixelRatio || 1, 2)`
unfoldable pub dpr : ℕ → ℕ
dpr ratio = min (if ratio == 0 then 100 else ratio) 200

pub record Canvas : Type 0 where
  pub width : ℕ
  pub height : ℕ

-- `resize`, from `innerWidth` and `innerHeight`.
unfoldable pub resize : ℕ → ℕ → ℕ → Canvas
unfolding dpr
resize ratio inner_width inner_height = record {
  width = inner_width * dpr ratio / 100;
  height = inner_height * dpr ratio / 100;
}

pub record Draws : Type 0 where
  pub x : ℕ
  pub y : ℕ
  pub vx : ℕ
  pub vy : ℕ
  pub r : ℕ

pub record Particle : Type 0 where
  pub across : Axis
  pub down : Axis
  pub r : ℕ

-- `Math.random() * size` and `(Math.random() - 0.5) * 0.22 * DPR`
unfoldable pub axis : ℕ → ℕ → ℕ → ℕ → Axis
unfolding dpr
axis ratio size k v = record {
  at = pos (k * (size * 10000));
  speed = sub_ℕ (v * (22 * dpr ratio)) (2147483648 * (22 * dpr ratio));
}

unfoldable pub particle : ℕ → Canvas → Draws → Particle
unfolding axis dpr
particle ratio c d = record {
  across = axis ratio c.width d.x d.vx;
  down = axis ratio c.height d.y d.vy;
  r = (d.r * 15 + 8 * word) * dpr ratio;
}

-- `Array.from({ length: n })`, where `draws i` are the draws for the particle `i`.
unfoldable pub particles : ℕ → Canvas → (ℕ → Draws) → ℕ → ℕ → List Particle
unfolding particle
particles ratio c draws i zero = []
particles ratio c draws i (suc n) = particle ratio c (draws i) ∷ particles ratio c draws (suc i) n

unfoldable pub constellation : ℕ → Canvas → (ℕ → Draws) → List Particle
unfolding particles
constellation ratio c draws = particles ratio c draws 0 85

-- `s.r > 2 * DPR`
unfoldable pub star_color : ℕ → ℕ → String
unfolding dpr
star_color ratio r =
    if ltb (20 * word * dpr ratio) r
    then "rgba(129, 140, 248, 0.85)"
    else "rgba(103, 232, 249, 0.9)"

-- The guards of the effect of the moving constellation, and of the still one.
unfoldable pub moves : Bool → Bool → Bool → Bool
moves reduced canvas context = not reduced && canvas && context

unfoldable pub stands : Bool → Bool → Bool → Bool
stands reduced canvas context = reduced && canvas && context

-- Where there is a canvas with a context, exactly one of the two effects draws.
pub moves-stands : (reduced : Bool) → moves reduced true true ≡ not (stands reduced true true)
unfolding moves stands
moves-stands reduced = ground arith

mul_mono : (a b c : ℕ) → a ≤ b → a * c ≤ b * c
mul_mono a b c h = grind arith

-- The size of an axis in the unit of its positions.
abbrev pub span : ℕ → ℕ
span size = 4294967296 * (size * 10000)

size_of_sub : (a b n : ℕ) → a ≤ n → b ≤ n → pos_part (sub_ℕ a b) + neg_part (sub_ℕ a b) ≤ n
size_of_sub a b n ha hb = ground (arith, ha, hb)

dpr-le : (ratio : ℕ) → dpr ratio ≤ 200
unfolding dpr
dpr-le ratio = omega arith

-- A particle starts on its canvas, and slower than the canvas is wide, if that has a pixel: as
-- `Particles.drifts-Near` asks.
pub axis-Near :
    (ratio size k v : ℕ)
    → 1 ≤ size
    → k < word
    → v < word
    → Near (span size) (axis ratio size k v) × (pace (axis ratio size k v) ≤ span size)
unfolding axis
axis-Near ratio size k v one hk hv =
    let d = dpr-le ratio in
    let start = mul_mono k 4294967296 (size * 10000) (omega arith) in
    let fast = mul_mono v 4294967296 (22 * dpr ratio) (omega arith) in
    let slow : 4294967296 * (22 * dpr ratio) ≤ span size = omega (arith, d) in
    let half : 2147483648 * (22 * dpr ratio) ≤ span size = omega (arith, d) in
    (
      omega (arith, start),
      size_of_sub (v * (22 * dpr ratio)) (2147483648 * (22 * dpr ratio)) (span size)
          (omega (arith, fast, slow)) half,
    )
