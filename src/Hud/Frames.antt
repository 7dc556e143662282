-- ===== src/Hud/Frames.antt =====
-- The animation loop of the constellation, dashboard/src/components/hud/HUDAmbientLayer.tsx: `tick`
-- asks for the next frame, and `onVisibility` follows the tab. The browser calls what was asked for
-- before a frame, and has no frames while the tab is hidden.
use sentinal.Base.{
  ℕ, zero, suc, List, [], ◌∷◌, ◌++◌, Bool, true, false, not, ◌==◌, filter, if◌then◌else◌, length,
}

-- `visible` is the tab's; `waiting` holds the handles of the frames that were asked for, `asked` how
-- many were; `raf` and `running` are the effect's variables; `drawn` counts the drawings; `listens`
-- tells whether the handler is attached.
pub record Loop : Type 0 where
  pub visible : Bool
  pub running : Bool
  pub raf : ℕ
  pub waiting : List ℕ
  pub asked : ℕ
  pub drawn : ℕ
  pub listens : Bool

-- `raf = requestAnimationFrame(tick)`
unfoldable pub request : Loop → Loop
request l = record l {
  raf = suc l.asked;
  waiting = l.waiting ++ suc l.asked ∷ [];
  asked = suc l.asked;
}

unfoldable pub started : Bool → Loop
unfolding request
started visible = request (record {
  visible = visible;
  running = true;
  raf = 0;
  waiting = [];
  asked = 0;
  drawn = 0;
  listens = true;
})

-- `tick`
unfoldable pub draw : Loop → Loop
unfolding request
draw l = if l.running then request (record l { drawn = suc l.drawn }) else l

unfoldable pub draws : ℕ → Loop → Loop
unfolding draw
draws zero l = l
draws (suc n) l = draws n (draw l)

-- The browser's frame: the callbacks that wait for it, none of those that they ask for.
unfoldable pub frame : Loop → Loop
unfolding draws
frame l = if l.visible then draws (length l.waiting) (record l { waiting = [] }) else l

-- `onVisibility`
unfoldable pub on_visibility : Loop → Loop
unfolding request
on_visibility l =
    let next = record l { running = l.visible } in if l.visible then request next else next

-- The tab is hidden or shown again.
unfoldable pub toggle : Loop → Loop
unfolding on_visibility
toggle l =
    let next = record l { visible = not l.visible } in
    if l.listens then on_visibility next else next

-- The effect's clean-up.
unfoldable pub stop : Loop → Loop
stop l = record l {
  running = false;
  waiting = filter (λ h. not (h == l.raf)) l.waiting;
  listens = false;
}

pub data Happening : Type 0 where
  frames toggles : Happening

unfoldable pub run : List Happening → Loop → Loop
unfolding frame toggle
run [] l = l
run (frames ∷ hs) l = run hs (frame l)
run (toggles ∷ hs) l = run hs (toggle l)
