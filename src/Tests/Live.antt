-- ===== src/Tests/Live.antt =====
-- A dashboard that engages the demo mode, ticks, reconnects and is fed.
use sentinal.Base.{
  ◌≡◌, refl, ◌⊎◌, true, false, String, none, some, List, [], ◌∷◌, ◌++◌, reverse, take, arith,
  length, ◌≤◌,
}
use sentinal.Event.{AnalyticsEvent, event_key}
use sentinal.Live.{
  Live, AnalyticsOverview, Action, refreshed, probes, ticked, received, unmounts, malformed, body,
  init, refresh, probed, merge, without_key, run,
}
use sentinal.Live.Metrics.{metrics, IsPercent, system_load, is_recent}
use sentinal.Live.Window.{run-init-metrics}
use sentinal.Live.Refresh.{Loaded, Refused, refresh-cases}
use sentinal.Live.Demo.{ticks_of, Counted, demo_start, demo_stream}

abbrev event : String → String → AnalyticsEvent
event id action = record {
  id = some id;
  event_id = none;
  event_type = "user.login";
  user_id = none;
  ip_address = some "45.132.1.9";
  timestamp = "2026-01-01T00:00:00Z";
  action = some action;
  risk_score = some 4200;
  country_code = some "US";
  country = none;
  lat = none;
  lon = none;
}

abbrev fine : AnalyticsEvent
fine = event "e1" "ALLOW"

abbrev fraud : AnalyticsEvent
fraud = event "e2" "BLOCK"

abbrev overview : AnalyticsOverview
overview = record {
  total_events = 8;
  fraud_events = 2;
  fraud_rate = record { part = 2; whole = 8 };
}

abbrev history : List Action
history =
    probes false (fine ∷ [])
    ∷ ticked fraud
    ∷ refreshed (body overview) (malformed "Unexpected token")
    ∷ refreshed (body overview) (body (fraud ∷ []))
    ∷ received fine
    ∷ unmounts
    ∷ []

run-init-metrics_example :
    (length (run init history).events ≤ 50)
    × IsPercent (metrics (run init history)).fraud_rate
    × ((metrics (run init history)).active_alerts ≤ length (run init history).events)
run-init-metrics_example =
    run-init-metrics history
      (omega arith, (tt, ((omega arith, tt), ((omega arith, omega arith), (tt, (tt, tt))))))

refresh-cases_example :
    Loaded
      (body overview)
      (malformed "Unexpected token")
      init
      (refresh (body overview) (malformed "Unexpected token") init)
    ⊎ Refused
        (body overview)
        (malformed "Unexpected token")
        init
        (refresh (body overview) (malformed "Unexpected token") init)
refresh-cases_example = refresh-cases (body overview) (malformed "Unexpected token") init

demo_stream_example :
    let k = run (probed false (fine ∷ []) init) (ticks_of (fraud ∷ fine ∷ [])) in
    (k.events ≡ take 50 (reverse (fraud ∷ fine ∷ []) ++ fine ∷ []))
    × Counted (fine ∷ fraud ∷ fine ∷ []) demo_start k.overview
demo_stream_example =
    demo_stream (fine ∷ []) (fraud ∷ fine ∷ []) init (unfold init in refl) (omega arith)

abbrev fed : Live
fed = record {
  overview = none;
  events = fine ∷ fraud ∷ [];
  error = none;
  loading = false;
  demo = false;
  mounted = true;
  intervals = [];
}

-- Two events of the last ten seconds are shown as a load of 2, not of 20.
test_load : system_load (λ t. 5000) 9000 fed ≡ 2
unfolding system_load is_recent
test_load = refl

test_merge : merge fine (fraud ∷ fine ∷ []) ≡ fine ∷ fraud ∷ []
unfolding merge without_key event_key
test_merge = refl
