-- ===== src/Widgets/Metric.antt =====
-- `MetricCard` of dashboard/src/components/ui/MetricCard.tsx: the ring around the icon and the trend. A
-- ring is a number of percent from 0 on; `text_of` prints the size of a number.
use sentinal.Base.{ℕ, suc, ◌-◌, String, ◌<>◌, Bool, min, ltb, if◌then◌else◌}
use sentinal.Base.Int.{ℤ, pos, negsuc}

unfoldable pub ring_color : ℕ → String
ring_color ring = if ltb 66 ring then "#f43f5e" else if ltb 33 ring then "#f97316" else "#22d3ee"

-- `1 - Math.min(ring, 100) / 100`, in hundredths of the circumference.
unfoldable pub ring_offset : ℕ → ℕ
ring_offset ring = 100 - min ring 100

pub record Trend : Type 0 where
  pub value : ℤ
  pub is_positive : Bool

module _ (text_of : ℕ → String) where
  abbrev size : ℤ → ℕ
  size (pos n) = n
  size (negsuc n) = suc n

  unfoldable pub trend_text : Trend → String
  trend_text t = (if t.is_positive then "+" else "-") <> text_of (size t.value) <> "%"
