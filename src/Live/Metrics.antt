-- ===== src/Live/Metrics.antt =====
-- What the hook computes from its state: `metrics`, `history`, `threatRatio`, `systemLoad`.
use sentinal.Base.{
  ℕ, ◌+◌, ◌*◌, ◌/◌, ◌≤◌, ◌≡◌, arith, Bool, String, Option, none, some, List, ◌<◌, inl, inr,
  Bool-cases, if◌then◌else◌, ltb, ◌==◌, count, length, reverse, map, min, count-le,
}
use sentinal.Event.{AnalyticsEvent, is_flagged}
use sentinal.Live.{Live, Percent, AnalyticsOverview, zero_percent}

abbrev over : ℕ → ℕ → Percent
over part whole = if ltb 0 whole then record { part = part; whole = whole } else zero_percent

pub record AnalyticsMetrics : Type 0 where
  pub total_transactions : ℕ
  pub fraud_rate : Percent
  pub active_alerts : ℕ

total_of : Option AnalyticsOverview → ℕ
total_of none = 0
total_of (some o) = o.total_events

rate_of : Option AnalyticsOverview → Percent
rate_of none = zero_percent
rate_of (some o) = o.fraud_rate

unfoldable pub metrics : Live → AnalyticsMetrics
unfolding total_of rate_of
metrics l =
    let flagged = count is_flagged l.events in
    record {
      total_transactions = total_of l.overview;
      fraud_rate = if l.demo then over flagged (length l.events) else rate_of l.overview;
      active_alerts = flagged;
    }

pub record HistoryPoint : Type 0 where
  pub time : String
  pub transactions : ℕ
  pub fraud : ℕ

abbrev pub history_point : (String → String) → AnalyticsEvent → HistoryPoint
history_point label e = record {
  time = label e.timestamp;
  transactions = 1;
  fraud = if is_flagged e then 1 else 0;
}

-- `label` is `formatTimeLabel`, which caches the browser's formatting of a timestamp.
unfoldable pub history : (String → String) → Live → List HistoryPoint
history label l = map (history_point label) (reverse l.events)

unfoldable pub threat_ratio : Live → Percent
threat_ratio l = over (count is_flagged l.events) (length l.events)

-- `get_time` is `new Date(timestamp).getTime()`; `t > now - 10_000` is written without subtraction.
unfoldable pub is_recent : (String → ℕ) → ℕ → AnalyticsEvent → Bool
is_recent get_time now e = ltb now (get_time e.timestamp + 10000)

-- `Math.min(100, Math.round((recent / 10) * 10))`; `Math.round` rounds a half up.
unfoldable pub system_load : (String → ℕ) → ℕ → Live → ℕ
system_load get_time now l =
    let recent = count (is_recent get_time now) l.events in
    if length l.events == 0
    then 0
    else if now == 0
    then 0
    else min 100 ((recent * 10 * 2 + 10) / 20)

abbrev pub IsPercent : Percent → Type 0
IsPercent p = (1 ≤ p.whole) × (p.part ≤ p.whole)

threat_ratio-IsPercent : (l : Live) → IsPercent (threat_ratio l)
unfolding threat_ratio
threat_ratio-IsPercent l = ground (arith, count-le is_flagged l.events)

abbrev pub RateIsPercent : Option AnalyticsOverview → Type 0
RateIsPercent none = Unit {0}
RateIsPercent (some o) = IsPercent o.fraud_rate

pub metrics-IsPercent : (l : Live) → RateIsPercent l.overview → IsPercent (metrics l).fraud_rate
unfolding metrics
metrics-IsPercent l h = elim (Bool-cases l.demo) [
  | inl on ↦ rw on (unfold threat_ratio in threat_ratio-IsPercent l)
  | inr off ↦ rw off (rated l.overview h)
]
  where
    rated : (o : Option AnalyticsOverview) → RateIsPercent o → IsPercent (rate_of o)
    rated none h = omega arith
    rated (some o) h = h

pub alerts-le : (l : Live) → (metrics l).active_alerts ≤ length l.events
unfolding metrics
alerts-le l = omega (arith, count-le is_flagged l.events)

-- The load that the system page shows is the number of events of the last ten seconds, out of a
-- window of at most fifty: it never passes 50.
pub system_load-eq-recent :
    (get_time : String → ℕ) (now : ℕ) (l : Live)
    → 0 < now
    → length l.events ≤ 50
    → (system_load get_time now l ≡ count (is_recent get_time now) l.events)
      × (system_load get_time now l ≤ 50)
unfolding system_load
system_load-eq-recent get_time now l pos h = (
  ground (arith, count-le (is_recent get_time now) l.events, nothing l.events),
  ground (arith, count-le (is_recent get_time now) l.events, nothing l.events),
)
  where
    nothing : (es : List AnalyticsEvent) → length es ≡ 0 → count (is_recent get_time now) es ≡ 0
    nothing es e = omega (arith, count-le (is_recent get_time now) es)
