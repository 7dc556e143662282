-- ===== src/Hud/Loops.antt =====
-- How many loops the constellation keeps going.
use sentinal.Base.{
  ℕ, zero, suc, ◌+◌, ◌≡◌, refl, ap, sym, subst, ◌∙◌, arith, List, [], ◌∷◌, Bool, true, false, not,
  if◌then◌else◌, length, length-append, Bool-cases, inl, inr,
}
use sentinal.Hud.Frames.{
  Loop, request, started, draw, draws, frame, on_visibility, toggle, stop, Happening, frames,
  toggles, run,
}

-- How often the tab was shown again.
unfoldable pub returns : Bool → List Happening → ℕ
returns v [] = 0
returns v (frames ∷ hs) = returns v hs
returns true (toggles ∷ hs) = returns false hs
returns false (toggles ∷ hs) = suc (returns true hs)

-- Every callback of a frame that runs asks for another.
draws_running :
    (n : ℕ) (l : Loop)
    → l.running ≡ true
    → (length (draws n l).waiting ≡ length l.waiting + n)
      × ((draws n l).running ≡ true)
      × ((draws n l).drawn ≡ l.drawn + n)
      × ((draws n l).visible ≡ l.visible)
      × ((draws n l).listens ≡ l.listens)
unfolding draws draw request
draws_running zero l r = ground arith
draws_running (suc n) l r =
    let one : draw l ≡ request (record l { drawn = suc l.drawn }) = unfold draw in rw r refl in
    let (w, r1, d, v, h) = draws_running n (request (record l { drawn = suc l.drawn })) r in
    rw (draws, one)
      (omega (arith, w, length-append l.waiting (suc l.asked ∷ [])), r1, omega (arith, d), v, h)

-- The effect is attached, with so many callbacks waiting, and runs if the tab is visible.
record Going (k : ℕ) (l : Loop) : Type 0 where
  heard : l.listens ≡ true
  many : length l.waiting ≡ k
  awake : l.visible ≡ true → l.running ≡ true

frame_visible :
    (l : Loop) → l.visible ≡ true → frame l ≡ draws (length l.waiting) (record l { waiting = [] })
unfolding frame
frame_visible l v = rw v refl

frame_hidden : (l : Loop) → l.visible ≡ false → frame l ≡ l
unfolding frame
frame_hidden l v = rw v refl

toggle_hides :
    (l : Loop)
    → l.listens ≡ true
    → l.visible ≡ true
    → toggle l ≡ record l { visible = false; running = false }
unfolding toggle on_visibility
toggle_hides l h v = rw (h, v) refl

toggle_shows :
    (l : Loop)
    → l.listens ≡ true
    → l.visible ≡ false
    → toggle l ≡ request (record l { visible = true; running = true })
unfolding toggle on_visibility
toggle_shows l h v = rw (h, v) refl

abbrev Framed : ℕ → Bool → Loop → Loop → Type 0
Framed k v l m = Going k m × (m.drawn ≡ l.drawn + (if v then k else 0)) × (m.visible ≡ v)

frame-Going : (k : ℕ) (v : Bool) (l : Loop) → l.visible ≡ v → Going k l → Framed k v l (frame l)
frame-Going k true l v g =
    let (w, r, d, s, h) =
      draws_running (length l.waiting) (record l { waiting = [] }) (g.awake v) in
    subst (Framed k true l) (sym (frame_visible l v)) (
      record { heard = h ∙ g.heard; many = omega (arith, w, g.many); awake = λ _. r },
      omega (arith, d, g.many),
      s ∙ v,
    )
frame-Going k false l h g = subst (Framed k false l) (sym (frame_hidden l h)) (g, omega arith, h)

abbrev Toggled : ℕ → Bool → Loop → Type 0
Toggled k v m = Going (if v then k else suc k) m × (m.visible ≡ not v)

toggle-Going : (k : ℕ) (v : Bool) (l : Loop) → l.visible ≡ v → Going k l → Toggled k v (toggle l)
unfolding request
toggle-Going k true l v g =
    subst (Toggled k true) (sym (toggle_hides l g.heard v))
      (record { heard = g.heard; many = g.many; awake = λ h. absurd cc }, refl)
toggle-Going k false l h g = subst (Toggled k false) (sym (toggle_shows l g.heard h)) (
  record {
    heard = g.heard;
    many = omega (arith, length-append l.waiting (suc l.asked ∷ []), g.many);
    awake = λ _. refl;
  },
  refl,
)

run-Going :
    (hs : List Happening) (k : ℕ) (v : Bool) (l : Loop)
    → l.visible ≡ v
    → Going k l
    → Going (k + returns v hs) (run hs l)
unfolding run returns
run-Going [] k v l e g = subst (λ n. Going n l) (omega arith) g
run-Going (frames ∷ hs) k v l e g =
    let (next, d, s) = frame-Going k v l e g in run-Going hs k v (frame l) s next
run-Going (toggles ∷ hs) k true l e g =
    let (next, s) = toggle-Going k true l e g in run-Going hs k false (toggle l) s next
run-Going (toggles ∷ hs) k false l e g =
    let (next, s) = toggle-Going k false l e g in
    subst (λ n. Going n (run hs (toggle l))) (omega arith)
      (run-Going hs (suc k) true (toggle l) s next)

-- While the effect is attached, one loop runs for its start and one more for each time that the tab
-- was shown again: so many callbacks wait, and a frame of a visible tab draws so many times.
pub loops_pile_up :
    (visible : Bool) (hs : List Happening)
    → let l = run hs (started visible) in
      (length l.waiting ≡ 1 + returns visible hs)
      × (l.visible ≡ true → (frame l).drawn ≡ l.drawn + (1 + returns visible hs))
unfolding started request
loops_pile_up visible hs =
    let g =
      run-Going hs 1 visible (started visible) refl
        (record { heard = refl; many = refl; awake = λ _. refl }) in
    (
      g.many,
      λ v.
          let (next, d, s) =
            frame-Going (1 + returns visible hs) true (run hs (started visible)) v g in
          d,
    )

draws_stopped : (n : ℕ) (l : Loop) → l.running ≡ false → draws n l ≡ l
unfolding draws draw
draws_stopped zero l r = refl
draws_stopped (suc n) l r =
    (let idle : draw l ≡ l = unfold draw in rw r refl in ap (draws n) idle) ∙ draws_stopped n l r

record Silent (l m : Loop) : Type 0 where
  deaf : m.listens ≡ false
  asleep : m.running ≡ false
  as_before : m.drawn ≡ l.drawn

frame-Silent : (l m : Loop) → Silent l m → Silent l (frame m)
frame-Silent l m s = elim (Bool-cases m.visible) [
  | inl v ↦
      subst (Silent l)
        (sym (
          frame_visible m v
          ∙ draws_stopped (length m.waiting) (record m { waiting = [] }) s.asleep))
        (record { deaf = s.deaf; asleep = s.asleep; as_before = s.as_before })
  | inr h ↦ subst (Silent l) (sym (frame_hidden m h)) s
]

toggle-Silent : (l m : Loop) → Silent l m → Silent l (toggle m)
unfolding toggle
toggle-Silent l m s = rw s.deaf (record { deaf = refl; asleep = s.asleep; as_before = s.as_before })

run-Silent : (hs : List Happening) (l m : Loop) → Silent l m → Silent l (run hs m)
unfolding run
run-Silent [] l m s = s
run-Silent (frames ∷ hs) l m s = run-Silent hs l (frame m) (frame-Silent l m s)
run-Silent (toggles ∷ hs) l m s = run-Silent hs l (toggle m) (toggle-Silent l m s)

-- Once the effect is cleaned up nothing is drawn any more, however many loops there were: the
-- callbacks that were not cancelled return at once.
pub stop_silences : (hs : List Happening) (l : Loop) → (run hs (stop l)).drawn ≡ l.drawn
unfolding stop
stop_silences hs l =
    (run-Silent hs l (stop l) (record { deaf = refl; asleep = refl; as_before = refl })).as_before
