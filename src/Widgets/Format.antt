-- ===== src/Widgets/Format.antt =====
-- `formatValue` of dashboard/src/components/ui/AnimatedNumber.tsx, for a value of hundredths. `grouped` is
-- `toLocaleString` of a whole number, `money` that of a number of hundredths with two digits.
use sentinal.Base.{ℕ, ◌/◌, ◌%◌, String, ◌<>◌}
use sentinal.Radix.{to_radix}
use sentinal.Shell.TopBar.{pad2}

pub data Format : Type 0 where
  number currency percent : Format

-- `value.toFixed(2)`
unfoldable pub fixed2 : ℕ → String
unfolding pad2
fixed2 value = to_radix 10 (value / 100) <> ("." <> pad2 (value % 100))

module _ (grouped money : ℕ → String) where
  unfoldable pub format_value : Format → ℕ → String
  unfolding fixed2
  format_value percent value = fixed2 value <> "%"
  format_value currency value = "$" <> money value
  format_value number value = grouped (value / 100)
