-- ===== src/Login/Starfield.antt =====
-- `LoginStarfield` of dashboard/src/app/login/page.tsx, on the animation loop of Hud.Frames, whose `tick`,
-- visibility handler and clean-up have the same form. A phase is counted in any unit in which phases
-- and speeds are integers; `abs_sin` is the size of the sine in hundredths. The canvas is left out.
use sentinal.Base.{
  ℕ, zero, suc, ◌+◌, ◌*◌, ◌≡◌, ◌≤◌, refl, sym, subst, ap, ◌∙◌, arith, Bool, true, not, ◌||◌, Option,
  none, some, List, [], ◌∷◌, map, length, if◌then◌else◌, Bool-cases, inl, inr,
}
use sentinal.Hud.Frames.{
  Loop, request, started, draw, on_visibility, toggle, Happening, frames, toggles,
}

pub record Star : Type 0 where
  pub tw : ℕ
  pub sp : ℕ

-- The loop with the stars and what was drawn last.
pub record Sky : Type 0 where
  pub loop : Loop
  pub stars : List Star
  pub shown : List ℕ

-- `s.tw += s.sp`
abbrev pub twinkle : Star → Star
twinkle s = record s { tw = s.tw + s.sp }

module _ (abs_sin : ℕ → ℕ) where
  -- `a`, in ten thousandths.
  unfoldable pub alpha : Star → ℕ
  alpha s = 2200 + abs_sin s.tw * 50

  -- The effect: nothing under reduced motion or without a canvas.
  unfoldable pub effect : Bool → Bool → Bool → List Star → Option Sky
  effect reduced canvas visible stars =
      if reduced || not canvas
      then none
      else some (record { loop = started visible; stars = stars; shown = [] })

  unfoldable pub tick : Sky → Sky
  unfolding alpha
  tick s =
      let turned = map twinkle s.stars in
      if s.loop.running
      then record { loop = draw s.loop; stars = turned; shown = map alpha turned }
      else record s { loop = draw s.loop }

  unfoldable pub tick_all : ℕ → Sky → Sky
  unfolding tick
  tick_all zero s = s
  tick_all (suc n) s = tick_all n (tick s)

  unfoldable pub frame : Sky → Sky
  unfolding tick_all
  frame s =
      if s.loop.visible
      then tick_all (length s.loop.waiting) (record s { loop = record s.loop { waiting = [] } })
      else s

  unfoldable pub run : List Happening → Sky → Sky
  unfolding frame toggle
  run [] s = s
  run (frames ∷ hs) s = run hs (frame s)
  run (toggles ∷ hs) s = run hs (record s { loop = toggle s.loop })

  -- The star after so many drawings.
  abbrev turned_by : ℕ → Star → Star
  turned_by n s = record s { tw = s.tw + n * s.sp }

  -- The phases are those of the first stars, turned once for each drawing.
  abbrev Turned : List Star → Sky → Type 0
  Turned first s = s.stars ≡ map (turned_by s.loop.drawn) first

  map-twinkle :
      (n : ℕ) (first : List Star)
      → map twinkle (map (turned_by n) first) ≡ map (turned_by (suc n)) first
  map-twinkle n [] = refl
  map-twinkle n (s ∷ ss) =
      let more : s.tw + n * s.sp + s.sp ≡ s.tw + suc n * s.sp = grind arith in
      simp (more, map-twinkle n ss)

  tick-Turned : (first : List Star) (s : Sky) → Turned first s → Turned first (tick s)
  unfolding tick draw request
  tick-Turned first s h = elim (Bool-cases s.loop.running) [
    | inr off ↦ simp off h
    | inl on ↦ simp on (ap (map twinkle) h ∙ map-twinkle s.loop.drawn first)
  ]

  tick_all-Turned :
      (n : ℕ) (first : List Star) (s : Sky) → Turned first s → Turned first (tick_all n s)
  unfolding tick_all
  tick_all-Turned zero first s h = h
  tick_all-Turned (suc n) first s h = tick_all-Turned n first (tick s) (tick-Turned first s h)

  frame_visible :
      (s : Sky)
      → s.loop.visible ≡ true
      → frame s
        ≡ tick_all (length s.loop.waiting) (record s { loop = record s.loop { waiting = [] } })
  unfolding frame
  frame_visible s v = rw v refl

  frame-Turned : (first : List Star) (s : Sky) → Turned first s → Turned first (frame s)
  frame-Turned first s h = elim (Bool-cases s.loop.visible) [
    | inr hidden ↦ unfold frame in simp hidden h
    | inl seen ↦ subst (Turned first) (sym (frame_visible s seen)) (
        tick_all-Turned (length s.loop.waiting) first
          (record s { loop = record s.loop { waiting = [] } }) h)
  ]

  toggle-drawn : (l : Loop) → (toggle l).drawn ≡ l.drawn
  unfolding toggle on_visibility request
  toggle-drawn l = elim (Bool-cases l.listens) [
    | inr deaf ↦ simp deaf refl
    | inl hears ↦ elim (Bool-cases l.visible) [
      | inl seen ↦ simp (hears, seen) refl
      | inr hidden ↦ simp (hears, hidden) refl
    ]
  ]

  -- After any frames and changes of the tab, every star has turned by its speed once for each drawing.
  pub run-Turned :
      (hs : List Happening) (first : List Star) (s : Sky) → Turned first s → Turned first (run hs s)
  unfolding run
  run-Turned [] first s h = h
  run-Turned (frames ∷ hs) first s h = run-Turned hs first (frame s) (frame-Turned first s h)
  run-Turned (toggles ∷ hs) first s h =
      run-Turned hs first (record s { loop = toggle s.loop })
        (h ∙ ap (λ n. map (turned_by n) first) (sym (toggle-drawn s.loop)))

  -- A star is drawn with an opacity from 0.22 to 0.72.
  pub alpha-bounds : (s : Star) → ((t : ℕ) → abs_sin t ≤ 100) → (2200 ≤ alpha s) × (alpha s ≤ 7200)
  unfolding alpha
  alpha-bounds s h = omega (arith, h s.tw)
