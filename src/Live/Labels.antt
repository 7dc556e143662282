-- ===== src/Live/Labels.antt =====
-- The labels of the time axis: `formatTimeLabel` of dashboard/src/hooks/useAnalytics.ts with its
-- `timeLabelCache`. `to_label` is the browser's formatting of a timestamp.
use sentinal.Base.{
  ◌≡◌, refl, String, List, [], ◌∷◌, ◌=?◌, map, reverse, cached, Right, cached-Right, if◌then◌else◌,
}
use text.Mathlib.TextEquality.{eq_iff}
use sentinal.Event.{AnalyticsEvent, is_flagged}
use sentinal.Live.{Live}
use sentinal.Live.Metrics.{HistoryPoint, history_point, history}

module _ (to_label : String → String) where
  abbrev pub Labels : Type 0
  Labels = List (String × String)

  unfoldable pub format_time_label : String → Labels → String × Labels
  format_time_label iso cache = cached ◌=?◌ to_label iso cache

  -- The `map` of the memo: points with their labels, and the cache after it.
  unfoldable pub points : List AnalyticsEvent → Labels → List HistoryPoint × Labels
  unfolding format_time_label
  points [] cache = ([], cache)
  points (e ∷ es) cache =
      let label = format_time_label e.timestamp cache in
      let rest = points es label.1 in
      (
        record { time = label.0; transactions = 1; fraud = if is_flagged e then 1 else 0 } ∷ rest.0,
        rest.1,
      )

  unfoldable pub cached_history : Live → Labels → List HistoryPoint × Labels
  unfolding points
  cached_history l cache = points (reverse l.events) cache

  points-Right :
      (es : List AnalyticsEvent) (cache : Labels)
      → Right ◌=?◌ to_label cache
      → ((points es cache).0 ≡ map (history_point to_label) es)
        × Right ◌=?◌ to_label (points es cache).1
  unfolding points format_time_label
  points-Right [] cache r = (refl, r)
  points-Right (e ∷ es) cache r =
      let (drawn, next, hit) =
        cached-Right ◌=?◌ to_label (λ c d. (eq_iff c d).0) (λ c. (eq_iff c c).1 refl) e.timestamp
          cache r in
      let (rest, last) = points-Right es (format_time_label e.timestamp cache).1 next in
      (rw (drawn, rest) refl, last)

  -- The history through the cache of labels is the history with the browser's labels, and the cache stays
  -- right for the next one, if it was right before; it is so when it is empty.
  pub cached_history-history :
      (l : Live) (cache : Labels)
      → Right ◌=?◌ to_label cache
      → ((cached_history l cache).0 ≡ history to_label l)
        × Right ◌=?◌ to_label (cached_history l cache).1
  unfolding cached_history history
  cached_history-history l cache r = points-Right (reverse l.events) cache r
