-- ===== src/Widgets/Shown.antt =====
-- How a tween of `AnimatedNumber` ends, and what small and early changes do to the display.
use sentinal.Base.{
  ℕ, ◌+◌, ◌-◌, ◌*◌, ◌≡◌, ◌≤◌, ◌<◌, refl, ap, sym, ◌∙◌, subst, arith, none, some, List, [], ◌∷◌,
  true, false, All,
}
use sentinal.Widgets.Tween.{
  Tween, nothing, cancel_tween, Animated, apart, scaled, run_clean_up, effect, change, eased,
  frame_at,
}
use sentinal.Widgets.Tweens.{effect_far, effect_near, frame_running, frame_ending, passed}

module _ (duration : ℕ) where
  abbrev pub frames_at : List ℕ → Animated → Animated
  frames_at [] s = s
  frames_at (t ∷ ts) s = frames_at ts (frame_at duration t s)

  eased_end : (a b : ℕ) → eased duration a b duration ≡ scaled duration b
  unfolding eased
  eased_end a b =
      let zero_left : duration - duration ≡ 0 = omega arith in
      let whole : duration * duration * duration - 0 ≡ duration * duration * duration =
        omega arith in
      rw (zero_left, whole) (omega arith)

  eased_start : (a b : ℕ) → eased duration a b 0 ≡ scaled duration a
  unfolding eased
  eased_start a b =
      let all_left : duration - 0 ≡ duration = omega arith in
      let rest : duration * duration * duration - duration * duration * duration ≡ 0 =
        omega arith in
      rw (all_left, rest) (omega arith)

  -- A tween from its first frame on.
  record Since (t v : ℕ) (s : Animated) : Type 0 where
    start : ℕ
    running : s.tween ≡ some (record { start = start; value = v; start_time = some t })
    unqueued : s.pending ≡ 0

  frames-Since :
      (t v : ℕ) (ts : List ℕ) (s : Animated)
      → All (λ u. u < t + duration) ts
      → 1 ≤ duration
      → Since t v s
      → Since t v (frames_at ts s)
  frames-Since t v [] s h d k = k
  frames-Since t v (u ∷ us) s h d k =
      let e =
        frame_running duration u s (record { start = k.start; value = v; start_time = some t })
          k.running k.unqueued (omega (arith, h.0, d)) in
      frames-Since t v us (frame_at duration u s) h.1 d (
        subst (Since t v) (sym e)
          (record { start = k.start; running = refl; unqueued = k.unqueued }))

  -- The component as the effect of a value leaves it, if the value is far from the last one.
  first-Since :
      (t v : ℕ) (s : Animated)
      → s.pending ≡ 0
      → s.frame ≡ false
      → 50 ≤ apart v s.from_ref
      → 1 ≤ duration
      → Since t v (frame_at duration t (effect duration false v s))
  first-Since t v s p f h d = rw (effect_far duration v s f h) (
      subst (Since t v)
        (sym (
          frame_running duration t _ (record { start = s.from_ref; value = v; start_time = none })
            refl p (omega (arith, d))))
        (record { start = s.from_ref; running = refl; unqueued = p }))

  last-Shown :
      (t v u : ℕ) (s : Animated)
      → Since t v s
      → t + duration ≤ u
      → let r = frame_at duration u s in
        (r.display ≡ scaled duration v) × (r.from_ref ≡ v) × (r.frame ≡ false) × (r.tween ≡ none)
  last-Shown t v u s k h =
      let w : Tween = record { start = k.start; value = v; start_time = some t } in
      let full : passed duration u w ≡ duration = omega (arith, h) in
      rw (frame_ending duration u s w k.running k.unqueued (omega (arith, full)))
        (ap (eased duration k.start v) full ∙ eased_end k.start v, refl, refl, refl)

  -- A value that is half a unit or more from the last one is displayed exactly from the first frame on
  -- that comes a duration after the tween's first one, however the frames in between fall; no further
  -- frame is asked for. The component is idle before, and the duration is not 0.
  pub tween_settles :
      (v : ℕ) (s : Animated) (t : ℕ) (ts : List ℕ) (u : ℕ)
      → 1 ≤ duration
      → s.pending ≡ 0
      → s.frame ≡ false
      → 50 ≤ apart v s.from_ref
      → All (λ t'. t' < t + duration) ts
      → t + duration ≤ u
      → let r =
          frame_at duration u (frames_at ts (frame_at duration t (effect duration false v s))) in
        (r.display ≡ scaled duration v) × (r.from_ref ≡ v) × (r.frame ≡ false) × (r.tween ≡ none)
  tween_settles v s t ts u d p f far between h =
      last-Shown t v u (frames_at ts (frame_at duration t (effect duration false v s)))
        (frames-Since t v ts (frame_at duration t (effect duration false v s)) between d
          (first-Since t v s p f far d))
        h

  -- A new value that comes while a tween runs: the first frame of the new tween displays the value that
  -- the old one was heading for, wherever the display had come to.
  pub restart_jumps :
      (s : Animated) (old new t : ℕ)
      → 1 ≤ duration
      → s.clean_up ≡ cancel_tween old
      → s.pending ≡ 0
      → 50 ≤ apart new old
      → (frame_at duration t (change duration false new s)).display ≡ scaled duration old
  unfolding change
  restart_jumps s old new t d c p far =
      let w : Tween = record { start = old; value = new; start_time = none } in
      let idle : Animated = record s { tween = none; frame = false; from_ref = old; pending = 0 } in
      let begun : Animated = record idle {
        tween = some w;
        frame = true;
        clean_up = cancel_tween new;
      } in
      let clean : run_clean_up duration s ≡ idle = unfold run_clean_up in rw (c, p) refl in
      let e : change duration false new s ≡ begun =
        ap (effect duration false new) clean ∙ effect_far duration new idle refl far in
      let nothing_passed : passed duration t w ≡ 0 = omega arith in
      ap (λ r. (frame_at duration t r).display) e
      ∙ ap (λ (r : Animated). r.display)
          (frame_running duration t begun w refl refl (omega (arith, d)))
      ∙ ap (eased duration old new) nothing_passed
      ∙ eased_start old new

  abbrev pub changes_to : List ℕ → Animated → Animated
  changes_to [] s = s
  changes_to (v ∷ vs) s = changes_to vs (change duration false v s)

  -- Each value is less than half a unit from the one before it.
  abbrev pub SmallSteps : ℕ → List ℕ → Type 0
  SmallSteps last [] = Unit {0}
  SmallSteps last (v ∷ vs) = (apart v last < 50) × SmallSteps v vs

  -- However far a value moves in steps of less than half a unit, the display stays where it is.
  pub small_changes-display :
      (vs : List ℕ) (s : Animated)
      → s.clean_up ≡ nothing
      → s.frame ≡ false
      → SmallSteps s.from_ref vs
      → (changes_to vs s).display ≡ s.display
  unfolding change
  small_changes-display [] s c f h = refl
  small_changes-display (v ∷ vs) s c f h =
      let clean : run_clean_up duration s ≡ s = unfold run_clean_up in rw c refl in
      let e : change duration false v s ≡ record s { from_ref = v; clean_up = nothing } =
        ap (effect duration false v) clean ∙ effect_near duration v s f h.0 in
      ap (λ r. (changes_to vs r).display) e
      ∙ small_changes-display vs (record s { from_ref = v; clean_up = nothing }) refl f h.1
