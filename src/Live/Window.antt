-- ===== src/Live/Window.antt =====
-- The window of events and the counters stay in range over any history of the hook.
use sentinal.Base.{
  ◌≤◌, arith, Bool, Option, none, some, List, [], ◌∷◌, length, count-le, length-take, All,
}
use sentinal.Event.{AnalyticsEvent, event_key, is_flagged}
use sentinal.Live.{
  Live, AnalyticsOverview, Action, refreshed, probes, ticked, received, unmounts, Reply,
  network_error, http_error, malformed, body, init, refresh, probed, tick, receive, merge, step,
  run, demo_overview, map_option, count_event, without_key,
}
use sentinal.Live.Metrics.{IsPercent, RateIsPercent, metrics, metrics-IsPercent, alerts-le}

pub record IsWindow (l : Live) : Type 0 where
  pub bounded : length l.events ≤ 50
  pub rated : RateIsPercent l.overview

abbrev OverviewFits : Reply AnalyticsOverview → Type 0
OverviewFits (body o) = IsPercent o.fraud_rate
OverviewFits _ = Unit {0}

abbrev EventsFit : Reply (List AnalyticsEvent) → Type 0
EventsFit (body es) = length es ≤ 50
EventsFit _ = Unit {0}

-- What the server is asked for, `limit=50` and a rate in percent, and the size of the backfill.
abbrev pub Fits : Action → Type 0
Fits (refreshed o es) = OverviewFits o × EventsFit es
Fits (probes reachable backfill) = length backfill ≤ 50
Fits (ticked e) = Unit {0}
Fits (received e) = Unit {0}
Fits unmounts = Unit {0}

init-IsWindow : IsWindow init
unfolding init
init-IsWindow = record { bounded = omega arith; rated = tt }

refresh-IsWindow :
    (o : Reply AnalyticsOverview) (es : Reply (List AnalyticsEvent)) (l : Live)
    → OverviewFits o
    → EventsFit es
    → IsWindow l
    → IsWindow (refresh o es l)
unfolding refresh
refresh-IsWindow (network_error m) _ l f g v = ground arith
refresh-IsWindow http_error (network_error m) l f g v = ground arith
refresh-IsWindow http_error _ l f g v = ground arith
refresh-IsWindow (malformed k) (network_error m) l f g v = ground arith
refresh-IsWindow (malformed k) http_error l f g v = ground arith
refresh-IsWindow (malformed k) _ l f g v = ground arith
refresh-IsWindow (body o) (network_error m) l f g v = ground arith
refresh-IsWindow (body o) _ l f g v = ground arith

demo_rated : (es : List AnalyticsEvent) → IsPercent (demo_overview es).fraud_rate
unfolding demo_overview
demo_rated es = omega (arith, count-le is_flagged es)

probed-IsWindow :
    (reachable : Bool) (es : List AnalyticsEvent) (l : Live)
    → length es ≤ 50
    → IsWindow l
    → IsWindow (probed reachable es l)
unfolding probed
probed-IsWindow reachable es l f v = ground (arith, demo_rated es)

tick-IsWindow : (e : AnalyticsEvent) (l : Live) → IsWindow l → IsWindow (tick e l)
unfolding tick
tick-IsWindow e l v = record {
  bounded = omega (arith, length-take 50 (e ∷ l.events));
  rated = counted l.overview;
}
  where
    counted : (o : Option AnalyticsOverview) → RateIsPercent (map_option (count_event e) o)
    counted none = tt
    counted (some o) = omega arith

receive-IsWindow : (e : AnalyticsEvent) (l : Live) → IsWindow l → IsWindow (receive e l)
unfolding receive merge
receive-IsWindow e l v = ground (arith, length-take 50 (e ∷ without_key (event_key e) l.events))

step-IsWindow : (l : Live) (a : Action) → Fits a → IsWindow l → IsWindow (step l a)
unfolding step
step-IsWindow l (refreshed o es) f v = refresh-IsWindow o es l f.0 f.1 v
step-IsWindow l (probes reachable backfill) f v = probed-IsWindow reachable backfill l f v
step-IsWindow l (ticked e) f v = tick-IsWindow e l v
step-IsWindow l (received e) f v = receive-IsWindow e l v
step-IsWindow l unmounts f v = ground arith

run-IsWindow : (l : Live) (as' : List Action) → All Fits as' → IsWindow l → IsWindow (run l as')
unfolding run
run-IsWindow l [] f v = v
run-IsWindow l (a ∷ as') f v = run-IsWindow (step l a) as' f.1 (step-IsWindow l a f.0 v)

-- Whatever the requests return, within what is asked of the server, and in whatever order the hook is
-- probed, refreshed, ticked and fed: at most fifty events are kept, the rate that is shown is between
-- 0 and 100 percent, and there are at most as many alerts as events.
pub run-init-metrics :
    (as' : List Action)
    → All Fits as'
    → (length (run init as').events ≤ 50)
      × IsPercent (metrics (run init as')).fraud_rate
      × ((metrics (run init as')).active_alerts ≤ length (run init as').events)
run-init-metrics as' f =
    let v = run-IsWindow init as' f init-IsWindow in
    (v.bounded, metrics-IsPercent (run init as') v.rated, alerts-le (run init as'))
