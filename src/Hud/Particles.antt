-- ===== src/Hud/Particles.antt =====
-- The drift of a particle along one axis, dashboard/src/components/hud/HUDAmbientLayer.tsx, in any unit
-- in which position and speed are integers.
use sentinal.Base.{ℕ, zero, suc, ◌+◌, ◌≡◌, ◌≤◌, ◌<◌, refl, arith, Bool, true, ltb, if◌then◌else◌}
use sentinal.Base.Int.{ℤ, pos, negsuc, pos_part, neg_part, ◌+ℤ◌, sub_ℕ}

pub record Axis : Type 0 where
  pub at : ℤ
  pub speed : ℤ

-- `v *= -1`
abbrev pub negate : ℤ → ℤ
negate v = sub_ℕ (neg_part v) (pos_part v)

abbrev pub is_out : ℕ → ℤ → Bool
is_out width (pos n) = ltb width n
is_out width (negsuc n) = true

-- `p.x += p.vx; if (p.x < 0 || p.x > canvas.width) p.vx *= -1`
unfoldable pub drift : ℕ → Axis → Axis
unfolding ◌+ℤ◌
drift width a =
    let x = a.at +ℤ a.speed in
    record { at = x; speed = if is_out width x then negate a.speed else a.speed }

unfoldable pub drifts : ℕ → ℕ → Axis → Axis
unfolding drift
drifts width zero a = a
drifts width (suc n) a = drifts width n (drift width a)

-- Within the canvas, or at most a step outside of it and on the way back.
abbrev NearAt : ℕ → ℤ → ℤ → Type 0
NearAt width (pos n) v = n ≤ width + neg_part v
NearAt width (negsuc n) v = suc n ≤ pos_part v

abbrev pub Near : ℕ → Axis → Type 0
Near width a = NearAt width a.at a.speed

-- The size of a step.
abbrev pub pace : Axis → ℕ
pace a = pos_part a.speed + neg_part a.speed

drift-Near :
    (width : ℕ) (x v : ℤ)
    → pos_part v + neg_part v ≤ width
    → NearAt width x v
    → let next = drift width (record { at = x; speed = v }) in
      Near width next × (pace next ≡ pos_part v + neg_part v)
unfolding drift ◌+ℤ◌
drift-Near width (pos n) (pos s) h k = ground arith
drift-Near width (pos n) (negsuc s) h k = ground arith
drift-Near width (negsuc n) (pos s) h k = ground arith
drift-Near width (negsuc n) (negsuc s) h k = ground arith

-- A particle that is slower than the canvas is wide leaves it by less than a step: at any time it is on
-- the canvas, or at most a step outside of it with its speed pointing back, and as fast as before.
pub drifts-Near :
    (width n : ℕ) (a : Axis)
    → pace a ≤ width
    → Near width a
    → Near width (drifts width n a) × (pace (drifts width n a) ≡ pace a)
unfolding drifts
drifts-Near width zero a h k = (k, refl)
drifts-Near width (suc n) a h k =
    let (near, same) = drift-Near width a.at a.speed h k in
    let (later, kept) = drifts-Near width n (drift width a) (omega (arith, same, h)) near in
    (later, omega (arith, kept, same))

-- Beyond the canvas, and still beyond it a step further.
abbrev FarAt : ℕ → ℤ → ℤ → Type 0
FarAt width x v =
    (width + neg_part x < pos_part x) × (width + neg_part x + neg_part v < pos_part x + pos_part v)

abbrev pub Far : ℕ → Axis → Type 0
Far width a = FarAt width a.at a.speed

drift-Far :
    (width : ℕ) (x v : ℤ) → FarAt width x v → Far width (drift width (record { at = x; speed = v }))
unfolding drift ◌+ℤ◌
drift-Far width (pos n) (pos s) (h, k) = ground arith
drift-Far width (pos n) (negsuc s) (h, k) = ground arith
drift-Far width (negsuc n) v (h, k) = absurd (omega (arith, h))

-- A particle that the canvas has left behind by more than a step, when it was made smaller, never comes
-- back: it turns around at every step.
pub drifts-Far : (width n : ℕ) (a : Axis) → Far width a → Far width (drifts width n a)
unfolding drifts
drifts-Far width zero a h = h
drifts-Far width (suc n) a h = drifts-Far width n (drift width a) (drift-Far width a.at a.speed h)
