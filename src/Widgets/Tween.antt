-- ===== src/Widgets/Tween.antt =====
-- `AnimatedNumber` of dashboard/src/components/ui/AnimatedNumber.tsx. Values are numbers of hundredths
-- from 0 on. The displayed number is exact: it counts units of 1 / (d * d * d) hundredths for the
-- duration d, in which every value that the tween shows is an integer.
use sentinal.Base.{
  ℕ, ◌+◌, ◌-◌, ◌*◌, min, Option, none, some, List, [], ◌∷◌, Bool, true, false, ltb, ◌==◌,
  if◌then◌else◌, ◌or◌,
}

-- The closure of an effect's `tick`: `from`, `value` and `startTime`.
pub record Tween : Type 0 where
  pub start : ℕ
  pub value : ℕ
  pub start_time : Option ℕ

-- What the last effect returned.
pub data CleanUp : Type 0 where
  nothing clear_timer : CleanUp
  cancel_tween : ℕ → CleanUp

-- `tween` is the callback that waits for the next frame; `frame` tells whether `frameRef` is not 0;
-- `timer` is the value that the deferred update will display.
pub record Animated : Type 0 where
  pub display : ℕ
  pub from_ref : ℕ
  pub frame : Bool
  pub pending : ℕ
  pub tween : Option Tween
  pub timer : Option ℕ
  pub clean_up : CleanUp

-- `a || b` between numbers.
abbrev pub or_number : ℕ → ℕ → ℕ
or_number a b = if a == 0 then b else a

abbrev pub apart : ℕ → ℕ → ℕ
apart a b = (a - b) + (b - a)

pub data Happening : Type 0 where
  changes : Bool → ℕ → Happening
  frames : ℕ → Happening
  times_out : Happening

module _ (duration : ℕ) where
  abbrev pub scaled : ℕ → ℕ
  scaled v = v * (duration * duration * duration)

  -- The first render.
  unfoldable pub first_render : ℕ → Animated
  first_render value = record {
    display = scaled value;
    from_ref = value;
    frame = false;
    pending = 0;
    tween = none;
    timer = none;
    clean_up = nothing;
  }

  unfoldable pub run_clean_up : Animated → Animated
  run_clean_up s = elim s.clean_up [
    | nothing ↦ s
    | clear_timer ↦ record s { timer = none }
    | cancel_tween value ↦ record s {
      tween = none;
      frame = false;
      from_ref = or_number s.pending value;
      pending = 0;
    }
  ]

  -- The effect's body.
  unfoldable pub effect : Bool → ℕ → Animated → Animated
  effect reduce value s =
      if reduce
      then record s { from_ref = value; timer = some value; clean_up = clear_timer }
      else if s.frame
      then record s { pending = value; clean_up = nothing }
      else if ltb (apart value s.from_ref) 50
      then record s { from_ref = value; clean_up = nothing }
      else record s {
        tween = some (record { start = s.from_ref; value = value; start_time = none });
        frame = true;
        clean_up = cancel_tween value;
      }

  -- A new `value`: React runs what the last effect returned, then the effect.
  unfoldable pub change : Bool → ℕ → Animated → Animated
  unfolding run_clean_up effect
  change reduce value s = effect reduce value (run_clean_up s)

  -- `from + (target - from) * eased`, with `k / duration` for `p`.
  unfoldable pub eased : ℕ → ℕ → ℕ → ℕ
  eased start target k =
      let r = duration - k in
      start * (r * r * r) + target * (duration * duration * duration - r * r * r)

  -- `tick(t)`, for the closure that waits.
  unfoldable pub tick : ℕ → Tween → Animated → Animated
  unfolding eased
  tick t w s =
      let since = w.start_time or t in
      let target = or_number s.pending w.value in
      let k = min (t - since) duration in
      let next = record s { display = eased w.start target k } in
      if ltb k duration
      then record next { tween = some (record w { start_time = some since }); frame = true }
      else record next { tween = none; frame = false; pending = 0; from_ref = target }

  -- A frame of the browser at time `t`.
  unfoldable pub frame_at : ℕ → Animated → Animated
  unfolding tick
  frame_at t s = elim s.tween [ none ↦ s | some w ↦ tick t w s ]

  -- The deferred update of the reduced motion.
  unfoldable pub timeout : Animated → Animated
  timeout s = elim s.timer [ none ↦ s | some v ↦ record s { display = scaled v; timer = none } ]

  unfoldable pub step : Happening → Animated → Animated
  unfolding change frame_at timeout
  step (changes reduce value) s = change reduce value s
  step (frames t) s = frame_at t s
  step times_out s = timeout s

  unfoldable pub run : List Happening → Animated → Animated
  unfolding step
  run [] s = s
  run (h ∷ hs) s = run hs (step h s)
