-- ===== src/Hud/BootTime.antt =====
-- When the boot sequence ends, and when it does not.
use sentinal.Base.{
  ℕ, zero, suc, ◌+◌, ◌-◌, ◌*◌, ◌≡◌, ◌≤◌, ◌<◌, refl, ap, subst, ◌∙◌, arith, none, some, List, [],
  ◌∷◌, Bool, true, false, ◌&&◌, ◌==◌, ltb, ltb→lt, leb, if◌then◌else◌, All, Bool-cases, inl, inr,
}
use sentinal.Hud.Boot.{
  Boot, boot, done, boot_lines, start, clean_up, first_boot, reveal, tick_timeouts, tick_line, tick,
  ticks, rerender, renders, overlay,
}

-- No call of `onDone` in so many ticks.
uncalled : ℕ → Boot → Bool
unfolding tick tick_timeouts tick_line reveal boot_lines
uncalled zero b = true
uncalled (suc n) b = (b.calls == 0) && uncalled n (tick b)

uncalled-ticks : (n m : ℕ) (b : Boot) → uncalled n b ≡ true → m < n → (ticks m b).calls ≡ 0
unfolding uncalled ticks
uncalled-ticks zero m b h l = absurd (omega arith)
uncalled-ticks (suc n) zero b h l = ground arith
uncalled-ticks (suc n) (suc m) b h l = uncalled-ticks n m (tick b) (ground arith) (omega arith)

ticks-add : (n m : ℕ) (b : Boot) → ticks (n + m) b ≡ ticks m (ticks n b)
unfolding ticks
ticks-add zero m b = let none_yet : 0 + m ≡ m = omega arith in ap (λ k. ticks k b) none_yet
ticks-add (suc n) m b =
    let step : suc n + m ≡ suc (n + m) = omega arith in
    ap (λ k. ticks k b) step ∙ ticks-add n m (tick b)

abbrev booting : Boot
booting = start false first_boot

finished : Boot
finished = record {
  visible_lines = 9;
  phase = done;
  i = 9;
  line_left = none;
  timeouts = [];
  calls = 1;
}

uncalled_before : uncalled 289 booting ≡ true
unfolding uncalled start first_boot
uncalled_before = refl

ticks-finished : ticks 289 booting ≡ finished
unfolding finished start first_boot ticks tick tick_timeouts tick_line reveal boot_lines
ticks-finished = refl

ticks_still : (n : ℕ) → ticks n finished ≡ finished
unfolding finished ticks tick tick_timeouts tick_line
ticks_still zero = refl
ticks_still (suc n) = ticks_still n

-- Left to itself, the boot sequence calls `onDone` once, at 2.89 s, and never earlier or again; from
-- then on its overlay is gone.
pub boot_ends :
    (n : ℕ)
    → ((ticks n (start false first_boot)).calls ≡ (if ltb n 289 then 0 else 1))
      × (289 ≤ n → overlay (ticks n (start false first_boot)) ≡ none)
unfolding finished overlay
boot_ends n = elim (Bool-cases (ltb n 289)) [
  | inl early ↦ (
    rw early (uncalled-ticks 289 n booting uncalled_before (ltb→lt n 289 early)),
    λ late. absurd (omega (arith, ltb→lt n 289 early, late)),
  )
  | inr late ↦
      let h : 289 ≤ n = ground arith in
      let split : n ≡ 289 + (n - 289) = omega (arith, h) in
      let there : ticks n booting ≡ finished =
        ap (λ k. ticks k booting) split
        ∙ ticks-add 289 (n - 289) booting
        ∙ ap (ticks (n - 289)) ticks-finished
        ∙ ticks_still (n - 289) in
      (rw (late, there) refl, λ _. rw there refl)
]

-- The effect has run for `n` ticks and revealed fewer than all lines.
record Young (n : ℕ) (b : Boot) : Type 0 where
  left : ℕ
  counts_down : b.line_left ≡ some left
  elapsed : b.i * 16 + 16 ≡ n + left
  positive : 1 ≤ left
  at_most : left ≤ 16
  no_timeout : b.timeouts ≡ []
  not_called : b.calls ≡ 0
  first_phase : b.phase ≡ boot

tick_alone :
    (b : Boot) (l : ℕ)
    → b.timeouts ≡ []
    → b.line_left ≡ some l
    → tick b ≡ tick_line (some l) (record b { timeouts = [] })
unfolding tick tick_timeouts
tick_alone b l t e = rw (t, e) refl

tick-Young : (n : ℕ) (b : Boot) → n + 1 < 144 → Young n b → Young (n + 1) (tick b)
unfolding tick_line reveal boot_lines
tick-Young n b h y = elim (Bool-cases (leb y.left 1)) [
  | inl due ↦
      let few : leb 9 (suc b.i) ≡ false = ground (arith, y.elapsed, due) in
      rw (tick_alone b y.left y.no_timeout y.counts_down, due, few)
        (record {
          left = 16;
          counts_down = refl;
          elapsed = ground (arith, y.elapsed, y.positive, due);
          positive = omega arith;
          at_most = omega arith;
          no_timeout = refl;
          not_called = y.not_called;
          first_phase = y.first_phase;
        })
  | inr more ↦
      rw (tick_alone b y.left y.no_timeout y.counts_down, more)
        (record {
          left = y.left - 1;
          counts_down = refl;
          elapsed = ground (arith, y.elapsed, more);
          positive = ground (arith, more);
          at_most = omega (arith, y.at_most);
          no_timeout = refl;
          not_called = y.not_called;
          first_phase = y.first_phase;
        })
]

ticks-Young : (k n : ℕ) (b : Boot) → n + k < 144 → Young n b → Young (n + k) (ticks k b)
unfolding ticks
ticks-Young zero n b h y = subst (λ m. Young m b) (omega arith) y
ticks-Young (suc k) n b h y =
    subst (λ m. Young m (ticks k (tick b))) (omega arith)
      (ticks-Young k (n + 1) (tick b) (omega arith) (tick-Young n b (omega arith) y))

rerender-Young : (n : ℕ) (b : Boot) → Young n b → Young 0 (rerender false b)
unfolding rerender start clean_up
rerender-Young n b y = record {
  left = 16;
  counts_down = refl;
  elapsed = omega arith;
  positive = omega arith;
  at_most = omega arith;
  no_timeout = y.no_timeout;
  not_called = y.not_called;
  first_phase = y.first_phase;
}

renders-Young :
    (gaps : List ℕ) (b : Boot) → All (λ gap. gap < 144) gaps → Young 0 b → Young 0 (renders gaps b)
unfolding renders
renders-Young [] b h y = y
renders-Young (gap ∷ gaps) b h y =
    let young = ticks-Young gap 0 b (omega (arith, h.0)) y in
    renders-Young gaps (rerender false (ticks gap b)) h.1
      (rerender-Young (0 + gap) (ticks gap b) young)

-- If the shell renders again before 1.44 s have passed, and again and again before 1.44 s have passed
-- since, the boot sequence has not called `onDone`, nor left its first phase, after any number of such
-- renders: each gives the effect a new `onDone`, which starts it over.
pub boot_starves :
    (gaps : List ℕ)
    → All (λ gap. gap < 144) gaps
    → ((renders gaps (start false first_boot)).calls ≡ 0)
      × ((renders gaps (start false first_boot)).phase ≡ boot)
unfolding start first_boot
boot_starves gaps h =
    let y = renders-Young gaps booting h (record {
      left = 16;
      counts_down = refl;
      elapsed = omega arith;
      positive = omega arith;
      at_most = omega arith;
      no_timeout = refl;
      not_called = refl;
      first_phase = refl;
    }) in
    (y.not_called, y.first_phase)
