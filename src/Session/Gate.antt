-- ===== src/Session/Gate.antt =====
-- `AuthGate` of dashboard/src/components/layout/AuthGate.tsx and the bypass of `AppShell`. A load of the
-- page starts the state; `replace` leads away from it after some time, or never.
use sentinal.Base.{
  ℕ, suc, ◌+◌, ◌≡◌, ◌≤◌, refl, sym, subst, arith, Bool, true, false, ◌||◌, String, Option, List, [],
  ◌∷◌, truthy, if◌then◌else◌, ◌=?◌, Bool-cases, inl, inr,
}
use sentinal.Shell.Gate.{is_login}

-- `ready_timer` and `retry_timer` tell whether the timeouts of the two effects are pending;
-- `redirects` counts the calls of `replace`.
pub record Gate : Type 0 where
  pub ready : Bool
  pub ready_timer : Bool
  pub retry_timer : Bool
  pub redirects : ℕ

unfoldable pub closed : Gate
closed = record { ready = false; ready_timer = false; retry_timer = false; redirects = 0 }

-- The effect for a path, after its clean-up, with the token that is stored then.
unfoldable pub enter : Option String → Gate → Gate
enter token g =
    let cleared = record g { ready_timer = false } in
    if truthy token
    then record cleared { ready_timer = true }
    else record cleared { redirects = suc g.redirects }

-- The effect of the first render only.
unfoldable pub arm : Option String → Gate → Gate
arm token g = if truthy token then g else record g { retry_timer = true }

pub data Moment : Type 0 where
  enters : Option String → Moment
  becomes_ready retries : Moment

unfoldable pub step : Moment → Gate → Gate
unfolding enter
step (enters token) g = enter token g
step becomes_ready g = if g.ready_timer then record g { ready = true; ready_timer = false } else g
step retries g =
    if g.retry_timer then record g { redirects = suc g.redirects; retry_timer = false } else g

unfoldable pub run : List Moment → Gate → Gate
unfolding step
run [] g = g
run (m ∷ ms) g = run ms (step m g)

-- A load of the page, and what follows.
unfoldable pub visit : Option String → List Moment → Gate
unfolding run enter arm closed
visit token ms = run ms (arm token (enter token closed))

unfoldable pub shows_children : String → Gate → Bool
shows_children pathname g = g.ready || (pathname =? "/login") || (pathname =? "/login/")

-- No token was stored whenever the effect ran.
abbrev pub NoToken : List Moment → Type 0
NoToken [] = Unit {0}
NoToken (enters token ∷ ms) = (truthy token ≡ false) × NoToken ms
NoToken (becomes_ready ∷ ms) = NoToken ms
NoToken (retries ∷ ms) = NoToken ms

abbrev pub entries : List Moment → ℕ
entries [] = 0
entries (enters token ∷ ms) = suc (entries ms)
entries (becomes_ready ∷ ms) = entries ms
entries (retries ∷ ms) = entries ms

record Shut (n : ℕ) (g : Gate) : Type 0 where
  unready : g.ready ≡ false
  untimed : g.ready_timer ≡ false
  sent : n ≤ g.redirects

step-Shut :
    (n : ℕ) (m : Moment) (g : Gate)
    → NoToken (m ∷ [])
    → Shut n g
    → Shut (n + entries (m ∷ [])) (step m g)
unfolding step enter
step-Shut n (enters token) g h s =
    rw h.0 (record { unready = s.unready; untimed = refl; sent = omega (arith, s.sent) })
step-Shut n becomes_ready g h s =
    let idle : step becomes_ready g ≡ g = rw s.untimed refl in
    subst (Shut (n + 0)) (sym idle)
      (record { unready = s.unready; untimed = s.untimed; sent = omega (arith, s.sent) })
step-Shut n retries g h s = elim (Bool-cases g.retry_timer) [
  | inl e ↦ rw e (record { unready = s.unready; untimed = s.untimed; sent = omega (arith, s.sent) })
  | inr e ↦ rw e (record { unready = s.unready; untimed = s.untimed; sent = omega (arith, s.sent) })
]

run-Shut :
    (n : ℕ) (ms : List Moment) (g : Gate) → NoToken ms → Shut n g → Shut (n + entries ms) (run ms g)
unfolding run
run-Shut n [] g h s = record {
  unready = s.unready;
  untimed = s.untimed;
  sent = omega (arith, s.sent);
}
run-Shut n (enters token ∷ ms) g h s =
    let k =
      run-Shut (n + 1) ms (step (enters token) g) h.1 (step-Shut n (enters token) g (h.0, tt) s) in
    record { unready = k.unready; untimed = k.untimed; sent = omega (arith, k.sent) }
run-Shut n (becomes_ready ∷ ms) g h s =
    let k = run-Shut (n + 0) ms (step becomes_ready g) h (step-Shut n becomes_ready g tt s) in
    record { unready = k.unready; untimed = k.untimed; sent = omega (arith, k.sent) }
run-Shut n (retries ∷ ms) g h s =
    let k = run-Shut (n + 0) ms (step retries g) h (step-Shut n retries g tt s) in
    record { unready = k.unready; untimed = k.untimed; sent = omega (arith, k.sent) }

-- If no token is stored when the page loads, nor at any later change of the path, the gate shows its
-- children on the sign-in page alone, and has asked for that page once for each of those times at least.
pub visit-shows_children :
    (token : Option String) (ms : List Moment) (pathname : String)
    → truthy token ≡ false
    → NoToken ms
    → (shows_children pathname (visit token ms) ≡ is_login pathname)
      × (1 + entries ms ≤ (visit token ms).redirects)
unfolding visit closed enter arm shows_children is_login
visit-shows_children token ms pathname h k =
    let s =
      run-Shut 1 ms (arm token (enter token closed)) k
        (rw h (record { unready = refl; untimed = refl; sent = omega arith })) in
    (rw s.unready refl, s.sent)
