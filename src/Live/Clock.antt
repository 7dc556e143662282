-- ===== src/Live/Clock.antt =====
-- The clock of `systemLoad` in dashboard/src/hooks/useAnalytics.ts: a timeout of 0 ms, an interval of five
-- seconds, and the clean-up that clears both. `fires` and `ticks` carry `Date.now()`.
use sentinal.Base.{ℕ, ◌≡◌, refl, arith, Bool, true, false, String, List, [], ◌∷◌, if◌then◌else◌}
use sentinal.Live.{Live}
use sentinal.Live.Metrics.{system_load}

pub record Clock : Type 0 where
  pub now : ℕ
  pub kickoff : Bool
  pub interval : Bool

unfoldable pub mounted : Clock
mounted = record { now = 0; kickoff = true; interval = true }

pub data Moment : Type 0 where
  fires ticks : ℕ → Moment
  unmounts : Moment

unfoldable pub step : Moment → Clock → Clock
step (fires t) c = if c.kickoff then record c { now = t; kickoff = false } else c
step (ticks t) c = if c.interval then record c { now = t } else c
step unmounts c = record c { kickoff = false; interval = false }

unfoldable pub run : List Moment → Clock → Clock
unfolding step
run [] c = c
run (m ∷ ms) c = run ms (step m c)

stopped :
    (ms : List Moment) (now : ℕ)
    → (run ms (record { now = now; kickoff = false; interval = false })).now ≡ now
unfolding run step
stopped [] now = refl
stopped (fires t ∷ ms) now = stopped ms now
stopped (ticks t ∷ ms) now = stopped ms now
stopped (unmounts ∷ ms) now = stopped ms now

-- After the clean-up the clock stands still.
pub unmounts-stopped : (ms : List Moment) (c : Clock) → (run (unmounts ∷ ms) c).now ≡ c.now
unfolding run step
unmounts-stopped ms c = stopped ms c.now

-- Until the timeout or the interval has fired, the load is 0, whatever has happened.
pub system_load-mounted :
    (get_time : String → ℕ) (l : Live) → system_load get_time mounted.now l ≡ 0
unfolding system_load mounted
system_load-mounted get_time l = ground arith
