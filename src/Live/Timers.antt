-- ===== src/Live/Timers.antt =====
-- The browser's intervals outlive the hook.
use sentinal.Base.{◌+◌, ◌≤◌, ◌≡◌, arith, Bool, true, List, [], ◌∷◌, length}
use sentinal.Event.{AnalyticsEvent}
use sentinal.Live.{
  Live, Action, refreshed, probes, ticked, received, unmounts, refresh, probed, unmount, step, run,
  Reply, AnalyticsOverview,
}

refresh-intervals :
    (o : Reply AnalyticsOverview) (e : Reply (List AnalyticsEvent)) (l : Live)
    → length (refresh o e l).intervals ≡ length l.intervals
unfolding refresh
refresh-intervals o e l = ground arith

step-intervals : (l : Live) (a : Action) → length l.intervals ≤ length (step l a).intervals
unfolding step
step-intervals l (refreshed o e) = omega (arith, refresh-intervals o e l)
step-intervals l (probes reachable es) = ground arith
step-intervals l (ticked e) = omega arith
step-intervals l (received e) = ground arith
step-intervals l unmounts = omega arith

run-intervals : (l : Live) (as' : List Action) → length l.intervals ≤ length (run l as').intervals
unfolding run
run-intervals l [] = omega arith
run-intervals l (a ∷ as') = omega (arith, step-intervals l a, run-intervals (step l a) as')

-- Once a mounted hook has been probed its interval runs for good: no later step stops it, and
-- unmounting the hook does not either.
pub probe_interval_leaks :
    (reachable : Bool) (es : List AnalyticsEvent) (l : Live) (as' : List Action)
    → l.mounted ≡ true
    → length l.intervals + 1 ≤ length (run (unmount (probed reachable es l)) as').intervals
unfolding probed unmount
probe_interval_leaks reachable es l as' m =
    ground (arith, run-intervals (unmount (probed reachable es l)) as')
