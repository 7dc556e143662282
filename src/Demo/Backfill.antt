-- ===== src/Demo/Backfill.antt =====
-- `demoBackfill` and `demoTick` of dashboard/src/lib/demo.ts. `time_of i` is the time of the event
-- with index `i`, `now - (i / count) * minutes * 60_000` in floating point; that it falls as `i`
-- grows is all that is used of it. `get_time` reads a timestamp back.
use sentinal.Base.{
  ℕ, zero, suc, ◌≤◌, ◌<◌, ◌≡◌, refl, Option, none, some, String, List, [], ◌∷◌, arith, length, All,
  All-map, ap,
}
use sentinal.Event.{AnalyticsEvent}
use sentinal.Demo.Event.{Source, generate_event}
use sentinal.Demo.Bands.{Plausible, generate_event-Plausible}

module _ (to_iso : ℕ → String) (now : ℕ) (time_of : ℕ → ℕ) where
  abbrev stamp : ℕ → AnalyticsEvent → AnalyticsEvent
  stamp i e = record e { timestamp = to_iso (time_of i) }

  abbrev push :
      ℕ → Option AnalyticsEvent → Option (List AnalyticsEvent) → Option (List AnalyticsEvent)
  push i none rest = none
  push i (some e) none = none
  push i (some e) (some es) = some (stamp i e ∷ es)

  -- `for (let i = count; i > 0; i--)`, oldest event first; `none` where the generator throws.
  unfoldable pub backfill_loop : ℕ → Source → Option (List AnalyticsEvent) × Source
  backfill_loop zero g = (some [], g)
  backfill_loop (suc i) g =
      let (e, g') = generate_event to_iso now g in
      let (rest, g'') = backfill_loop i g' in (push (suc i) e rest, g'')

  unfoldable pub demo_backfill : ℕ → ℕ → ℕ → Option (List AnalyticsEvent)
  demo_backfill count seed seq = (backfill_loop count (record { seed = seed; seq = seq })).0

-- Times rise strictly along the list.
abbrev pub Ascending : (String → ℕ) → List AnalyticsEvent → Type 0
Ascending get_time [] = Unit {0}
Ascending get_time (e ∷ es) =
    All (λ x. get_time e.timestamp < get_time x.timestamp) es × Ascending get_time es

stamp-Plausible :
    (t : String) (e : AnalyticsEvent) → Plausible e → Plausible (record e { timestamp = t })
stamp-Plausible t e p = record {
  exact = p.exact;
  action_shown = p.action_shown;
  score_shown = p.score_shown;
  ip = p.ip;
  has_action = p.has_action;
  has_score = p.has_score;
  has_ip = p.has_ip;
  rounded = p.rounded;
  band = p.band;
  address = p.address;
}

module _ (to_iso : ℕ → String) (get_time : String → ℕ) (now : ℕ) (time_of : ℕ → ℕ)
    (reads : (t : ℕ) → get_time (to_iso t) ≡ t) (count : ℕ)
    (falls : (i j : ℕ) → i < j → j ≤ count → time_of j < time_of i) where
  -- What the loop makes from index `i` down.
  record Filled (i : ℕ) (made : Option (List AnalyticsEvent)) : Type 0 where
    events : List AnalyticsEvent
    made_events : made ≡ some events
    counted : length events ≡ i
    plausible : All Plausible events
    from : All (λ x. time_of i ≤ get_time x.timestamp) events
    ascending : Ascending get_time events

  backfill_loop-Filled :
      (i : ℕ) (g : Source) → i ≤ count → Filled i (backfill_loop to_iso now time_of i g).0
  unfolding backfill_loop
  backfill_loop-Filled zero g h = record {
    events = [];
    made_events = refl;
    counted = refl;
    plausible = tt;
    from = tt;
    ascending = tt;
  }
  backfill_loop-Filled (suc i) g h =
      let (e, made, p) = generate_event-Plausible to_iso now g in
      let rest = backfill_loop-Filled i (generate_event to_iso now g).1 (omega arith) in
      record {
        events = record e { timestamp = to_iso (time_of (suc i)) } ∷ rest.events;
        made_events = rw (made, rest.made_events) refl;
        counted = ap suc rest.counted;
        plausible = (stamp-Plausible _ e p, rest.plausible);
        from =
            (omega (arith, reads (time_of (suc i))), All-map _ _ (later i h) rest.events rest.from);
        ascending = (All-map _ _ (later_read i h) rest.events rest.from, rest.ascending);
      }
    where
      later :
          (i : ℕ)
          → suc i ≤ count
          → (x : AnalyticsEvent) → time_of i ≤ get_time x.timestamp
          → time_of (suc i) ≤ get_time x.timestamp
      later i h x t = omega (arith, falls i (suc i) (omega arith) h)

      later_read :
          (i : ℕ)
          → suc i ≤ count
          → (x : AnalyticsEvent) → time_of i ≤ get_time x.timestamp
          → get_time (to_iso (time_of (suc i))) < get_time x.timestamp
      later_read i h x t = omega (arith, falls i (suc i) (omega arith) h, reads (time_of (suc i)))

  -- From any seed the backfill has as many events as asked for, each of them plausible, and their
  -- times rise strictly from the first to the last: the oldest event comes first.
  pub demo_backfill_lem :
      (seed seq : ℕ)
      → (es : List AnalyticsEvent) × (demo_backfill to_iso now time_of count seed seq ≡ some es)
        × (length es ≡ count)
        × All Plausible es
        × Ascending get_time es
  unfolding demo_backfill
  demo_backfill_lem seed seq =
      let filled = backfill_loop-Filled count (record { seed = seed; seq = seq }) (omega arith) in
      (filled.events, filled.made_events, filled.counted, filled.plausible, filled.ascending)
