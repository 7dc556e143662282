-- ===== src/Analytics.antt =====
-- The analytics page, dashboard/src/app/analytics/page.tsx: what it counts in the window of events. A
-- `Record<string, number>` is a list of pairs in the order of insertion; `clock` formats the time of
-- a bucket.
pub mod Counts
pub mod Rollups
use sentinal.Base.{
  ℕ, zero, suc, ◌+◌, ◌/◌, ◌%◌, min, Bool, true, false, not, String, Option, none, some, List, [],
  ◌∷◌, ◌=?◌, ◌==◌, ltb, or_else, ◌or◌, truthy, take, map, length, filter, get_or, if◌then◌else◌,
}
use sentinal.Event.{AnalyticsEvent, is_flagged, score, points}
use sentinal.Live.Metrics.{HistoryPoint}

pub record FraudRatePoint : Type 0 where
  pub time_bucket : String
  pub total : ℕ
  pub fraud : ℕ

pub record HourlyBar : Type 0 where
  pub time : String
  pub volume : ℕ
  pub blocked : ℕ

abbrev rollup_bar : (String → String) → FraudRatePoint → HourlyBar
rollup_bar clock p = record { time = clock p.time_bucket; volume = p.total; blocked = p.fraud }

abbrev history_bar : HistoryPoint → HourlyBar
history_bar p = record { time = p.time; volume = p.transactions; blocked = p.fraud }

-- The rollup if it has points, else the live window.
unfoldable pub hourly_data :
    (String → String) → List FraudRatePoint → List HistoryPoint → List HourlyBar
hourly_data clock series history =
    if ltb 0 (length series) then map (rollup_bar clock) series else map history_bar history

abbrev pub Counts : Type 0
Counts = List (String × ℕ)

-- `counts[k] = (counts[k] ?? 0) + 1`
unfoldable pub increment : String → Counts → Counts
increment k [] = (k, 1) ∷ []
increment k ((j, n) ∷ rest) =
    let later = increment k rest in if j =? k then (j, n + 1) ∷ rest else (j, n) ∷ later

-- `counts[k] ?? 0`
unfoldable pub count_of : String → Counts → ℕ
count_of k [] = 0
count_of k ((j, n) ∷ rest) = let later = count_of k rest in if j =? k then n else later

-- The flagged events by their type.
unfoldable pub fraud_counts : Counts → List AnalyticsEvent → Counts
unfolding increment
fraud_counts counts [] = counts
fraud_counts counts (e ∷ es) =
    fraud_counts (if is_flagged e then increment e.event_type counts else counts) es

pub record FraudType : Type 0 where
  pub name : String
  pub value : ℕ
  pub color : String

abbrev colored : ℕ → Counts → List FraudType
colored i [] = []
colored i ((name, value) ∷ rest) =
    record {
      name = name;
      value = value;
      color =
          get_or ("#f43f5e" ∷ "#f97316" ∷ "#eab308" ∷ "#06b6d4" ∷ "#818cf8" ∷ []) (i % 5) "#f43f5e";
    }
    ∷ colored (i + 1) rest

unfoldable pub fraud_types : List AnalyticsEvent → List FraudType
unfolding fraud_counts
fraud_types es = colored 0 (fraud_counts [] es)

-- `Math.min(4, Math.floor(s / 20))`
unfoldable pub bucket_of : AnalyticsEvent → ℕ
bucket_of e = min 4 (score e / points 20)

-- The counts of the five buckets, after adding the events to `counts`.
abbrev pub bump_at : ℕ → List ℕ → List ℕ
bump_at i [] = []
bump_at zero (n ∷ ns) = (n + 1) ∷ ns
bump_at (suc i) (n ∷ ns) = n ∷ bump_at i ns

unfoldable pub score_buckets_from : List ℕ → List AnalyticsEvent → List ℕ
unfolding bucket_of
score_buckets_from counts [] = counts
score_buckets_from counts (e ∷ es) = score_buckets_from (bump_at (bucket_of e) counts) es

unfoldable pub score_buckets : List AnalyticsEvent → List ℕ
unfolding score_buckets_from
score_buckets es = score_buckets_from (0 ∷ 0 ∷ 0 ∷ 0 ∷ 0 ∷ []) es

-- The events by their action; an empty or missing action is not counted.
abbrev pub count_action : Option String → Counts → Counts
count_action none counts = counts
count_action (some a) counts = if truthy (some a) then increment a counts else counts

unfoldable pub action_counts : Counts → List AnalyticsEvent → Counts
action_counts counts [] = counts
action_counts counts (e ∷ es) = action_counts (count_action e.action counts) es

pub record ActionShare : Type 0 where
  pub name : String
  pub value : ℕ
  pub fill : String

abbrev pub share_of : Counts → String → String → ActionShare
share_of counts name fill = record { name = name; value = count_of name counts; fill = fill }

unfoldable pub action_breakdown : List AnalyticsEvent → List ActionShare
unfolding action_counts count_of
action_breakdown es =
    let counts = action_counts [] es in
    filter (λ (d : ActionShare). ltb 0 d.value)
      (share_of counts "ALLOW" "#10b981"
        ∷ share_of counts "REVIEW" "#eab308"
        ∷ share_of counts "CHALLENGE" "#f97316"
        ∷ share_of counts "BLOCK" "#f43f5e"
        ∷ [])

abbrev pub sum_values : List ActionShare → ℕ
sum_values [] = 0
sum_values (d ∷ ds) = d.value + sum_values ds

unfoldable pub total_scored : List AnalyticsEvent → ℕ
unfolding action_breakdown
total_scored es = sum_values (action_breakdown es)
