-- ===== src/Shell/Arrival.antt =====
-- `lastEventAt` of `LiveProvider`, dashboard/src/components/live/LiveContext.tsx, and what the health page
-- says of it, dashboard/src/app/system/page.tsx. Times are milliseconds.
use sentinal.Base.{
  ℕ, ◌+◌, ◌-◌, ◌/◌, ◌≡◌, refl, arith, Option, none, some, List, [], ◌∷◌, Bool, true, false, ◌&&◌,
  not, ltb, if◌then◌else◌,
}

-- `timer` tells whether the timeout is pending.
pub record Arrival : Type 0 where
  pub last_event_at : Option ℕ
  pub has_ever_had_events : Bool
  pub timer : Bool

unfoldable pub no_arrival : Arrival
no_arrival = record { last_event_at = none; has_ever_had_events = false; timer = false }

-- The effect for so many events, after the clean-up of the one before it.
unfoldable pub observe : ℕ → Arrival → Arrival
observe n a = record a { timer = ltb 0 n && not a.has_ever_had_events }

-- The timeout's callback, at time `now`; the state that it sets runs the effect again.
unfoldable pub first_arrival : ℕ → ℕ → Arrival → Arrival
unfolding observe
first_arrival now n a =
    observe n (record { last_event_at = some now; has_ever_had_events = true; timer = false })

pub data Moment : Type 0 where
  counted : ℕ → Moment
  fires : ℕ → ℕ → Moment

unfoldable pub step : Moment → Arrival → Arrival
unfolding observe first_arrival
step (counted n) a = observe n a
step (fires now n) a = if a.timer then first_arrival now n a else a

unfoldable pub run : List Moment → Arrival → Arrival
unfolding step
run [] a = a
run (m ∷ ms) a = run ms (step m a)

-- `Math.max(0, Math.round((nowTs - lastEventAt) / 1000))`, in seconds.
unfoldable pub seconds_ago : ℕ → ℕ → ℕ
seconds_ago now last = (now - last + 500) / 1000

-- The text of the page, if there is one: the time 0 counts as none.
unfoldable pub last_event : ℕ → Option ℕ → Option ℕ
unfolding seconds_ago
last_event now none = none
last_event now (some t) = if ltb 0 t then some (seconds_ago now t) else none

record Settled (t : ℕ) (a : Arrival) : Type 0 where
  when : a.last_event_at ≡ some t
  had : a.has_ever_had_events ≡ true
  still : a.timer ≡ false

observe-Settled : (t n : ℕ) (a : Arrival) → Settled t a → Settled t (observe n a)
unfolding observe
observe-Settled t n a s = record { when = s.when; had = s.had; still = ground (arith, s.had) }

run-Settled : (t : ℕ) (ms : List Moment) (a : Arrival) → Settled t a → Settled t (run ms a)
unfolding run step
run-Settled t [] a s = s
run-Settled t (counted n ∷ ms) a s = run-Settled t ms (observe n a) (observe-Settled t n a s)
run-Settled t (fires now n ∷ ms) a s =
    let idle : step (fires now n) a ≡ a = rw s.still refl in
    run-Settled t ms (step (fires now n) a) (rw idle s)

-- The page's "Last event … ago" counts from the first arrival of events: once the provider has recorded
-- a time, it keeps it, however many events arrive later.
pub last_event-first :
    (now n : ℕ) (ms : List Moment) (a : Arrival) (at : ℕ)
    → last_event at (run ms (first_arrival now n a)).last_event_at ≡ last_event at (some now)
unfolding first_arrival observe
last_event-first now n ms a at =
    let s =
      run-Settled now ms (first_arrival now n a)
        (record { when = refl; had = refl; still = ground arith }) in
    rw s.when refl
