-- ===== src/Hud/Boot.antt =====
-- `BootSequence` of dashboard/src/components/hud/HUDAmbientLayer.tsx with its timers. Time passes in
-- ticks of 10 ms, of which every delay of the component is a multiple.
use sentinal.Base.{
  ℕ, zero, suc, ◌-◌, String, Option, none, some, List, [], ◌∷◌, ◌++◌, Bool, true, false, leb,
  if◌then◌else◌, length, take,
}

unfoldable pub boot_lines : List String
boot_lines =
    "SENTINEL CORE v4.2.1 — initializing…" ∷ "mounting secure enclave … OK"
    ∷ "loading threat models [rules, velocity, ml-gbt] … OK"
    ∷ "establishing kafka streams … 6 partitions online" ∷ "clickhouse olap … 3 replicas verified"
    ∷ "syncing geo-intelligence db … 241,930 ranges" ∷ "verifying jwt ring (rs256) … keys valid"
    ∷ "calibrating anomaly detectors … done" ∷ "ALL SYSTEMS NOMINAL — WELCOME, OPERATOR" ∷ []

pub data Phase : Type 0 where
  boot online done : Phase

-- The callbacks of the timeouts.
pub data Task : Type 0 where
  go_online go_done call_done : Task

-- `line_left` is the time to the interval's next tick, `none` once it is cleared; `i` is the effect's
-- variable; `timeouts` are those that were not cleared, with the time they have left; `calls` counts
-- the calls of `onDone`.
pub record Boot : Type 0 where
  pub visible_lines : ℕ
  pub phase : Phase
  pub i : ℕ
  pub line_left : Option ℕ
  pub timeouts : List (ℕ × Task)
  pub calls : ℕ

-- The effect, which starts over with `i`.
unfoldable pub start : Bool → Boot → Boot
start true b = record b { timeouts = b.timeouts ++ (15, call_done) ∷ [] }
start false b = record b { i = 0; line_left = some 16 }

-- The clean-up: under reduced motion its timeout is the only one there is.
unfoldable pub clean_up : Bool → Boot → Boot
clean_up true b = record b { timeouts = [] }
clean_up false b = record b { line_left = none }

unfoldable pub first_boot : Boot
first_boot = record {
  visible_lines = 0;
  phase = boot;
  i = 0;
  line_left = none;
  timeouts = [];
  calls = 0;
}

-- The callback of the interval.
unfoldable pub reveal : Boot → Boot
unfolding boot_lines
reveal b =
    let next = record b { i = suc b.i; visible_lines = suc b.i; line_left = some 16 } in
    if leb (length boot_lines) (suc b.i)
    then record next {
      line_left = none;
      timeouts = b.timeouts ++ (32, go_online) ∷ (115, go_done) ∷ (145, call_done) ∷ [];
    }
    else next

unfoldable pub perform : Task → Boot → Boot
perform go_online b = record b { phase = online }
perform go_done b = record b { phase = done }
perform call_done b = record b { calls = suc b.calls }

-- A tick for the timeouts: what is due is performed, in order.
unfoldable pub tick_timeouts : List (ℕ × Task) → Boot → Boot
unfolding perform
tick_timeouts [] b = b
tick_timeouts (t ∷ ts) b =
    tick_timeouts ts (
      if leb t.0 1
      then perform t.1 b
      else record b { timeouts = b.timeouts ++ (t.0 - 1, t.1) ∷ [] })

unfoldable pub tick_line : Option ℕ → Boot → Boot
unfolding reveal
tick_line none b = b
tick_line (some n) b = if leb n 1 then reveal b else record b { line_left = some (n - 1) }

unfoldable pub tick : Boot → Boot
unfolding tick_timeouts tick_line
tick b = tick_line b.line_left (tick_timeouts b.timeouts (record b { timeouts = [] }))

unfoldable pub ticks : ℕ → Boot → Boot
unfolding tick
ticks zero b = b
ticks (suc n) b = ticks n (tick b)

-- A render of the shell, which passes a new `onDone`: the effect is cleaned up and runs again.
unfoldable pub rerender : Bool → Boot → Boot
unfolding start clean_up
rerender reduce b = start reduce (clean_up reduce b)

-- The shell renders again after each of the given times.
unfoldable pub renders : List ℕ → Boot → Boot
unfolding ticks rerender
renders [] b = b
renders (gap ∷ gaps) b = renders gaps (rerender false (ticks gap b))

-- The overlay, if there is one: the lines of the log, and whether "SYSTEMS ONLINE" stands below it.
unfoldable pub overlay : Boot → Option (List String × Bool)
unfolding boot_lines
overlay b = elim b.phase [
  | boot ↦ some (take b.visible_lines boot_lines, false)
  | online ↦ some (take b.visible_lines boot_lines, true)
  | done ↦ none
]
