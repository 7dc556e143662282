-- ===== src/Live/Demo.antt =====
-- The simulated stream.
use sentinal.Base.{
  ◌+◌, ◌≤◌, ◌≡◌, refl, ap, ◌∙◌, sym, arith, true, false, Option, none, some, List, [], ◌∷◌, ◌++◌,
  reverse, take, count, length, take-append-take, take-all, length-take, length-append,
  count-append,
}
use mathlib.Core.Path.{◌≡⟨◌⟩◌, ◌∎}
use mathlib.Core.List.{append_assoc, reverse-cons}
use sentinal.Event.{AnalyticsEvent, is_flagged}
use sentinal.Live.{
  Live, AnalyticsOverview, Action, ticked, probed, tick, run, demo_total, demo_fraud, demo_overview,
  bump, count_event, zero_percent,
}

abbrev pub ticks_of : List AnalyticsEvent → List Action
ticks_of [] = []
ticks_of (e ∷ es) = ticked e ∷ ticks_of es

-- The overview `o` after the events `es` have been counted.
abbrev pub Counted : List AnalyticsEvent → AnalyticsOverview → Option AnalyticsOverview → Type 0
Counted es o none = ⊥
Counted es o (some p) =
    (p.total_events ≡ o.total_events + length es)
    × (p.fraud_events ≡ o.fraud_events + count is_flagged es)

tick-overview :
    (e : AnalyticsEvent) (l : Live) (o : AnalyticsOverview)
    → l.overview ≡ some o
    → (tick e l).overview ≡ some (count_event e o)
unfolding tick
tick-overview e l o h = ground arith

counted_total :
    (e : AnalyticsEvent) (o : AnalyticsOverview)
    → ((count_event e o).total_events ≡ o.total_events + 1)
      × ((count_event e o).fraud_events ≡ o.fraud_events + bump (is_flagged e))
unfolding count_event
counted_total e o = (refl, refl)

count-cons :
    (e : AnalyticsEvent) (es : List AnalyticsEvent)
    → count is_flagged (e ∷ es) ≡ bump (is_flagged e) + count is_flagged es
count-cons e es = ground arith

Counted-cons :
    (e : AnalyticsEvent) (es : List AnalyticsEvent) (o : AnalyticsOverview)
    (p : Option AnalyticsOverview)
    → Counted es (count_event e o) p
    → Counted (e ∷ es) o p
Counted-cons e es o none c = c
Counted-cons e es o (some p) c =
    (omega (arith, c, counted_total e o), omega (arith, c, counted_total e o, count-cons e es))

run_ticks-overview :
    (es : List AnalyticsEvent) (l : Live) (o : AnalyticsOverview)
    → l.overview ≡ some o
    → Counted es o (run l (ticks_of es)).overview
unfolding run
run_ticks-overview [] l o h = rw h (omega arith, omega arith)
run_ticks-overview (e ∷ es) l o h =
    Counted-cons e es o _
      (run_ticks-overview es (tick e l) (count_event e o) (tick-overview e l o h))

tick-events : (e : AnalyticsEvent) (l : Live) → (tick e l).events ≡ take 50 (e ∷ l.events)
unfolding tick
tick-events e l = refl

run_ticks-events :
    (es : List AnalyticsEvent) (l : Live)
    → length l.events ≤ 50
    → (run l (ticks_of es)).events ≡ take 50 (reverse es ++ l.events)
unfolding run
run_ticks-events [] l h = sym (take-all 50 l.events h)
run_ticks-events (e ∷ es) l h =
    (run (tick e l) (ticks_of es)).events
    ≡⟨ run_ticks-events es (tick e l)
        (omega (arith, length-take 50 (e ∷ l.events), ap length (tick-events e l))) ⟩
      take 50 (reverse es ++ (tick e l).events)
    ≡⟨ ap (λ w. take 50 (reverse es ++ w)) (tick-events e l) ⟩
      take 50 (reverse es ++ take 50 (e ∷ l.events))
    ≡⟨ take-append-take 50 50 (reverse es) (e ∷ l.events) (omega arith) ⟩
      take 50 (reverse es ++ (e ∷ l.events))
    ≡⟨ ap (take 50) (rw (reverse-cons e es) (sym (append_assoc (reverse es) (e ∷ []) l.events))) ⟩
      take 50 (reverse (e ∷ es) ++ l.events) ∎

abbrev pub demo_start : AnalyticsOverview
demo_start = record {
  total_events = demo_total;
  fraud_events = demo_fraud;
  fraud_rate = zero_percent;
}

Counted-backfill :
    (backfill es : List AnalyticsEvent) (p : Option AnalyticsOverview)
    → Counted es (demo_overview backfill) p
    → Counted (backfill ++ es) demo_start p
unfolding demo_overview
Counted-backfill backfill es none c = c
Counted-backfill backfill es (some p) c = (
  omega (arith, c, length-append backfill es),
  omega (arith, c, count-append is_flagged backfill es),
)

engaged :
    (backfill : List AnalyticsEvent) (l : Live)
    → l.mounted ≡ true
    → ((probed false backfill l).events ≡ backfill)
      × ((probed false backfill l).overview ≡ some (demo_overview backfill))
unfolding probed
engaged backfill l m = ground arith

-- With no backend, a mounted hook that starts from the generated backfill and is then fed the
-- generated events shows the newest fifty of them, newest first and the backfill behind them, and
-- its counters are those that it started from plus one for each event, and for each flagged one.
pub demo_stream :
    (backfill es : List AnalyticsEvent) (l : Live)
    → l.mounted ≡ true
    → length backfill ≤ 50
    → let k = run (probed false backfill l) (ticks_of es) in
      (k.events ≡ take 50 (reverse es ++ backfill)) × Counted (backfill ++ es) demo_start k.overview
demo_stream backfill es l m h =
    let (shown, counters) = engaged backfill l m in
    (
      run_ticks-events es (probed false backfill l) (omega (arith, ap length shown))
          ∙ ap (λ w. take 50 (reverse es ++ w)) shown,
      Counted-backfill backfill es _
          (run_ticks-overview es (probed false backfill l) (demo_overview backfill) counters),
    )
