-- ===== src/Widgets/Gauge.antt =====
-- `Gauge` of dashboard/src/components/ui/Gauge.tsx. Values and thresholds are whole numbers; a share is
-- counted in parts of `max`, which is not 0, and an angle in parts of `max` of a degree.
use sentinal.Base.{ℕ, ◌+◌, ◌*◌, arith, min, String, Bool, leb, if◌then◌else◌, ◌==◌, ◌%◌}
use sentinal.Base.Int.{ℤ, pos_part, sub_ℕ, ◌≤ℤ◌}

-- `Math.max(0, Math.min(1, value / max))`
unfoldable pub pct : ℤ → ℕ → ℕ
pct value max = min (pos_part value) max

unfoldable pub gauge_color : ℤ → ℕ → ℕ → ℕ → String
unfolding pct
gauge_color value max danger warn =
    if leb (danger * max) (pct value max * 100)
    then "#f43f5e"
    else if leb (warn * max) (pct value max * 100)
    then "#f97316"
    else "#22d3ee"

-- `-135 + 270 * pct`
unfoldable pub needle : ℤ → ℕ → ℤ
unfolding pct
needle value max = sub_ℕ (270 * pct value max) (135 * max)

-- The angle of a tick, and whether it is a long one.
unfoldable pub tick_angle : ℕ → ℕ
tick_angle i = 135 + 27 * i

unfoldable pub is_long : ℕ → Bool
is_long i = i % 5 == 0

-- The needle stays within 135 degrees of the top, and does not fall when the value grows.
pub needle_bounds :
    (value other : ℤ) (max : ℕ)
    → (sub_ℕ 0 (135 * max) ≤ℤ needle value max)
      × (needle value max ≤ℤ sub_ℕ (135 * max) 0)
      × (value ≤ℤ other → needle value max ≤ℤ needle other max)
unfolding needle pct
needle_bounds value other max = (ground arith, ground arith, λ h. ground arith)
