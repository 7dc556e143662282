-- ===== src/Live.antt =====
-- The telemetry hook, `useAnalytics` of dashboard/src/hooks/useAnalytics.ts: its state and what
-- changes it. The two requests of `refresh` are given by their outcomes, the generated events and
-- the socket's events by their values; a microtask runs at once. `intervals` are the browser's
-- running `setInterval`s that the probe has started.
pub mod Metrics
pub mod Window
pub mod Merge
pub mod Refresh
pub mod Demo
pub mod Timers
pub mod Labels
pub mod Clock
use sentinal.Base.{
  ℕ, ◌+◌, Bool, true, false, not, ◌||◌, String, Option, none, some, List, [], ◌∷◌, if◌then◌else◌,
  take, filter, count, length, ltb,
}
use sentinal.Event.{AnalyticsEvent, event_key, key_eq, is_flagged}

-- `part / whole * 100`, unrounded.
pub record Percent : Type 0 where
  pub part : ℕ
  pub whole : ℕ

abbrev pub zero_percent : Percent
zero_percent = record { part = 0; whole = 1 }

pub record AnalyticsOverview : Type 0 where
  pub total_events : ℕ
  pub fraud_events : ℕ
  pub fraud_rate : Percent

pub data Interval : Type 0 where
  refreshes ticks : Interval

pub record Live : Type 0 where
  pub overview : Option AnalyticsOverview
  pub events : List AnalyticsEvent
  pub error : Option String
  pub loading : Bool
  pub demo : Bool
  pub mounted : Bool
  pub intervals : List Interval

-- How a request ends: `fetch` throws, the status is no success, `json()` throws, or a body.
pub data Reply (A : Type 0) : Type 0 where
  network_error : String → Reply A
  http_error : Reply A
  malformed : String → Reply A
  body : A → Reply A

unfoldable pub init : Live
init = record {
  overview = none;
  events = [];
  error = none;
  loading = true;
  demo = false;
  mounted = true;
  intervals = [];
}

abbrev pub window_size : ℕ
window_size = 50

unfoldable pub failed : String → Live → Live
failed message l = record l { error = some message; loading = false }

abbrev pub unavailable : String
unavailable = "Analytics API unavailable"

-- The body of the `try` in `refresh`, statement by statement, and its `catch` and `finally`.
unfoldable pub refresh : Reply AnalyticsOverview → Reply (List AnalyticsEvent) → Live → Live
unfolding failed
refresh (network_error m) e l = failed m l
refresh o (network_error m) l = failed m l
refresh http_error e l = failed unavailable l
refresh o http_error l = failed unavailable l
refresh (malformed m) e l = failed m l
refresh (body o) (malformed m) l = failed m (record l { overview = some o })
refresh (body o) (body es) l = record l {
  overview = some o;
  events = es;
  error = none;
  demo = false;
  loading = false;
}

-- The counters that the demo mode starts from.
unfoldable pub demo_total : ℕ
demo_total = 128400

unfoldable pub demo_fraud : ℕ
demo_fraud = 1872

unfoldable pub demo_overview : List AnalyticsEvent → AnalyticsOverview
unfolding demo_total demo_fraud
demo_overview backfill =
    let total = demo_total + length backfill in
    let fraud = demo_fraud + count is_flagged backfill in
    record {
      total_events = total;
      fraud_events = fraud;
      fraud_rate = record { part = fraud; whole = total };
    }

-- `probeBackend()`: any response counts, `none` is a request that throws or is aborted.
unfoldable pub probe_backend : Bool → Option ℕ → Bool
probe_backend false status = false
probe_backend true none = false
probe_backend true (some status) = ltb 0 status

-- The continuation of `probeBackend()`. The first `refresh` of the reachable case is a step of its
-- own. What the continuation returns, the function that would clear the interval, is dropped.
unfoldable pub probed : Bool → List AnalyticsEvent → Live → Live
unfolding demo_overview
probed reachable backfill l =
    if not l.mounted
    then l
    else if reachable
    then record l { intervals = refreshes ∷ l.intervals }
    else record l {
      demo = true;
      events = backfill;
      overview = some (demo_overview backfill);
      error = none;
      loading = false;
      intervals = ticks ∷ l.intervals;
    }

abbrev pub bump : Bool → ℕ
bump true = 1
bump false = 0

unfoldable pub count_event : AnalyticsEvent → AnalyticsOverview → AnalyticsOverview
count_event e o = record {
  total_events = o.total_events + 1;
  fraud_events = o.fraud_events + bump (is_flagged e);
  fraud_rate = zero_percent;
}

abbrev pub map_option {ℓ κ} : {A : Type ℓ} {B : Type κ} → (A → B) → Option A → Option B
map_option f none = none
map_option f (some a) = some (f a)

-- One round of the simulated stream.
unfoldable pub tick : AnalyticsEvent → Live → Live
unfolding count_event
tick e l = record l {
  events = take window_size (e ∷ l.events);
  overview = map_option (count_event e) l.overview;
}

-- `current.filter((event) => key(event) !== key(liveEvent))`
unfoldable pub without_key : Option String → List AnalyticsEvent → List AnalyticsEvent
without_key k es = filter (λ x. not (key_eq (event_key x) k)) es

-- `[liveEvent, ...current.filter(…)].slice(0, 50)`
unfoldable pub merge : AnalyticsEvent → List AnalyticsEvent → List AnalyticsEvent
unfolding without_key
merge e es = take window_size (e ∷ without_key (event_key e) es)

-- A live event of the socket; the demo mode ignores it.
unfoldable pub receive : AnalyticsEvent → Live → Live
receive e l = if l.demo then l else record l { events = merge e l.events }

-- The cleanup of the effect: `cancelled = true`.
unfoldable pub unmount : Live → Live
unmount l = record l { mounted = false }

pub data Action : Type 0 where
  refreshed : Reply AnalyticsOverview → Reply (List AnalyticsEvent) → Action
  probes : Bool → List AnalyticsEvent → Action
  ticked : AnalyticsEvent → Action
  received : AnalyticsEvent → Action
  unmounts : Action

unfoldable pub step : Live → Action → Live
unfolding refresh probed tick receive unmount
step l (refreshed o e) = refresh o e l
step l (probes reachable backfill) = probed reachable backfill l
step l (ticked e) = tick e l
step l (received e) = receive e l
step l unmounts = unmount l

unfoldable pub run : Live → List Action → Live
unfolding step
run l [] = l
run l (a ∷ as') = run (step l a) as'
