-- ===== src/Widgets/Tweens.antt =====
-- What `AnimatedNumber` displays, and when.
use sentinal.Base.{
  ℕ, ◌-◌, ◌≡◌, ◌≤◌, ◌<◌, refl, sym, subst, arith, min, Option, none, some, List, [], ◌∷◌, Bool,
  true, false, ltb, Bool-cases, ◌or◌, Option-cases, inl, inr,
}
use sentinal.Widgets.Tween.{
  Tween, CleanUp, nothing, clear_timer, cancel_tween, Animated, apart, first_render, run_clean_up,
  effect, change, eased, tick, frame_at, timeout, Happening, changes, frames, times_out, step, run,
}

module _ (duration : ℕ) where
  -- Only an effect that returned the tween's clean-up has a tween.
  abbrev pub Shape : CleanUp → Bool → Option Tween → Type 0
  Shape nothing f w = (f ≡ false) × (w ≡ none)
  Shape clear_timer f w = (f ≡ false) × (w ≡ none)
  Shape (cancel_tween v) f w = Unit {0}

  abbrev Clean : Animated → Type 0
  Clean s = (s.pending ≡ 0) × Shape s.clean_up s.frame s.tween

  pub clean_up-Clean :
      (c : CleanUp) (s : Animated)
      → s.clean_up ≡ c
      → s.pending ≡ 0
      → Shape c s.frame s.tween
      → let n = run_clean_up duration s in (n.pending ≡ 0) × (n.frame ≡ false) × (n.tween ≡ none)
  unfolding run_clean_up
  clean_up-Clean nothing s c p (f, t) = rw (c, run_clean_up) (p, f, t)
  clean_up-Clean clear_timer s c p (f, t) = rw (c, run_clean_up) (p, f, t)
  clean_up-Clean (cancel_tween v) s c p h = rw (c, run_clean_up) (refl, refl, refl)

  -- The effect of a value that is far from the last one, and of one that is not.
  pub effect_far :
      (v : ℕ) (s : Animated)
      → s.frame ≡ false
      → 50 ≤ apart v s.from_ref
      → effect duration false v s ≡ record s {
        tween = some (record { start = s.from_ref; value = v; start_time = none });
        frame = true;
        clean_up = cancel_tween v;
      }
  unfolding effect
  effect_far v s f h =
      let far : ltb (apart v s.from_ref) 50 ≡ false = ground arith in rw (f, far) refl

  pub effect_near :
      (v : ℕ) (s : Animated)
      → s.frame ≡ false
      → apart v s.from_ref < 50
      → effect duration false v s ≡ record s { from_ref = v; clean_up = nothing }
  unfolding effect
  effect_near v s f h =
      let near : ltb (apart v s.from_ref) 50 ≡ true = ground arith in rw (f, near) refl

  effect-Clean :
      (reduce : Bool) (v : ℕ) (s : Animated)
      → s.pending ≡ 0
      → s.frame ≡ false
      → s.tween ≡ none
      → Clean (effect duration reduce v s)
  unfolding effect
  effect-Clean true v s p f t = (p, (f, t))
  effect-Clean false v s p f t = elim (Bool-cases (ltb (apart v s.from_ref) 50)) [
    | inl near ↦ subst Clean (sym (effect_near v s f (ground (arith, near)))) (p, (f, t))
    | inr far ↦ subst Clean (sym (effect_far v s f (ground (arith, far)))) (p, tt)
  ]

  change-Clean :
      (reduce : Bool) (v : ℕ) (s : Animated) → Clean s → Clean (change duration reduce v s)
  unfolding change
  change-Clean reduce v s (p, h) =
      let (q, f, t) = clean_up-Clean s.clean_up s refl p h in
      effect-Clean reduce v (run_clean_up duration s) q f t

  -- The time since the tween's first frame, at most the duration.
  abbrev pub passed : ℕ → Tween → ℕ
  passed t w = min (t - (w.start_time or t)) duration

  pub frame_running :
      (t : ℕ) (s : Animated) (w : Tween)
      → s.tween ≡ some w
      → s.pending ≡ 0
      → passed t w < duration
      → frame_at duration t s ≡ record s {
        display = eased duration w.start w.value (passed t w);
        tween = some (record w { start_time = some (w.start_time or t) });
        frame = true;
      }
  unfolding frame_at tick
  frame_running t s w e p h =
      let on : ltb (passed t w) duration ≡ true = ground arith in rw (e, p, on) refl

  pub frame_ending :
      (t : ℕ) (s : Animated) (w : Tween)
      → s.tween ≡ some w
      → s.pending ≡ 0
      → duration ≤ passed t w
      → frame_at duration t s ≡ record s {
        display = eased duration w.start w.value (passed t w);
        tween = none;
        frame = false;
        pending = 0;
        from_ref = w.value;
      }
  unfolding frame_at tick
  frame_ending t s w e p h =
      let off : ltb (passed t w) duration ≡ false = ground arith in rw (e, p, off) refl

  pub frame_idle : (t : ℕ) (s : Animated) → s.tween ≡ none → frame_at duration t s ≡ s
  unfolding frame_at
  frame_idle t s e = rw e refl

  frame-Clean :
      (t : ℕ) (c : CleanUp) (s : Animated)
      → s.clean_up ≡ c
      → s.pending ≡ 0
      → Shape c s.frame s.tween
      → Clean (frame_at duration t s)
  frame-Clean t nothing s c p (f, w) =
      subst Clean (sym (frame_idle t s w)) (p, subst (λ k. Shape k s.frame s.tween) (sym c) (f, w))
  frame-Clean t clear_timer s c p (f, w) =
      subst Clean (sym (frame_idle t s w)) (p, subst (λ k. Shape k s.frame s.tween) (sym c) (f, w))
  frame-Clean t (cancel_tween v) s c p h = elim (Option-cases s.tween) [
    | inl w ↦
        subst Clean (sym (frame_idle t s w)) (p, subst (λ k. Shape k s.frame s.tween) (sym c) tt)
    | inr (w, e) ↦ elim (Bool-cases (ltb (passed t w) duration)) [
      | inl on ↦ subst Clean (sym (frame_running t s w e p (ground (arith, on)))) (p, rw c tt)
      | inr off ↦ subst Clean (sym (frame_ending t s w e p (ground (arith, off)))) (refl, rw c tt)
    ]
  ]

  step-Clean : (h : Happening) (s : Animated) → Clean s → Clean (step duration h s)
  unfolding step timeout
  step-Clean (changes reduce v) s k = change-Clean reduce v s k
  step-Clean (frames t) s k = frame-Clean t s.clean_up s refl k.0 k.1
  step-Clean times_out s k = elim (Option-cases s.timer) [ inl e ↦ rw e k | inr (v, e) ↦ rw e k ]

  run-Clean : (hs : List Happening) (s : Animated) → Clean s → Clean (run duration hs s)
  unfolding run
  run-Clean [] s k = k
  run-Clean (h ∷ hs) s k = run-Clean hs (step duration h s) (step-Clean h s k)

  -- Whatever has happened to the component, when its effect runs for a new value no tween is running
  -- and nothing is queued: the clean-up that React runs first has cancelled the tween. So the branch
  -- that queues the value is never taken.
  pub never_queues :
      (hs : List Happening) (value : ℕ)
      → let s = run_clean_up duration (run duration hs (first_render duration value)) in
        (s.pending ≡ 0) × (s.frame ≡ false) × (s.tween ≡ none)
  unfolding first_render
  never_queues hs value =
      let s = run duration hs (first_render duration value) in
      let k = run-Clean hs (first_render duration value) (refl, (refl, refl)) in
      clean_up-Clean s.clean_up s refl k.0 k.1
