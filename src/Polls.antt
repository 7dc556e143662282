-- ===== src/Polls.antt =====
-- An effect that loads at once and then by `setInterval`, with the clean-up that clears the interval: the
-- effects of dashboard/src/app/system/page.tsx, analytics/page.tsx and threats/page.tsx.
use sentinal.Base.{ℕ, suc, ◌+◌, ◌≡◌, arith, Bool, true, false, List, [], ◌∷◌, if◌then◌else◌}

-- How often it has loaded, and whether its interval is set.
pub record Poll : Type 0 where
  pub loads : ℕ
  pub interval : Bool

unfoldable pub mount : Poll
mount = record { loads = 1; interval = true }

unfoldable pub tick : Poll → Poll
tick p = if p.interval then record p { loads = suc p.loads } else p

unfoldable pub unmount : Poll → Poll
unmount p = record p { interval = false }

-- The clean-up, then the effect again, as its dependencies have changed.
unfoldable pub renew : Poll → Poll
unfolding unmount
renew p = let cleared = unmount p in record { loads = suc cleared.loads; interval = true }

pub data Moment : Type 0 where
  ticks renews unmounts : Moment

unfoldable pub step : Moment → Poll → Poll
unfolding tick renew unmount
step ticks p = tick p
step renews p = renew p
step unmounts p = unmount p

unfoldable pub run : List Moment → Poll → Poll
unfolding step
run [] p = p
run (m ∷ ms) p = run ms (step m p)

-- The specification: the loads of a mounted effect, and of one that is not.
unfoldable pub loads_of : Bool → List Moment → ℕ
loads_of on [] = 0
loads_of true (ticks ∷ ms) = suc (loads_of true ms)
loads_of false (ticks ∷ ms) = loads_of false ms
loads_of on (renews ∷ ms) = suc (loads_of true ms)
loads_of on (unmounts ∷ ms) = loads_of false ms

counted :
    (ms : List Moment) (n : ℕ) (on : Bool)
    → (run ms (record { loads = n; interval = on })).loads ≡ n + loads_of on ms
unfolding run step tick renew unmount loads_of
counted [] n on = omega arith
counted (ticks ∷ ms) n true = omega (arith, counted ms (suc n) true)
counted (ticks ∷ ms) n false = counted ms n false
counted (renews ∷ ms) n true = omega (arith, counted ms (suc n) true)
counted (renews ∷ ms) n false = omega (arith, counted ms (suc n) true)
counted (unmounts ∷ ms) n true = counted ms n false
counted (unmounts ∷ ms) n false = counted ms n false

-- It loads once when it is mounted, at every tick of its interval and at every renewal; nothing is loaded
-- by a tick after the clean-up.
pub run-loads : (ms : List Moment) → (run ms mount).loads ≡ suc (loads_of true ms)
unfolding mount
run-loads ms = omega (arith, counted ms 1 true)
