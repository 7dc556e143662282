-- ===== src/Demo/History.antt =====
-- The chart's time axis over the backfill: the hook reverses a window that it takes to be newest first.
use sentinal.Base.{
  ℕ, ◌≡◌, ◌<◌, refl, String, List, [], ◌∷◌, ◌++◌, All, All-append, reverse, map, false, true,
  if◌then◌else◌,
}
use mathlib.Core.List.{reverse-cons}
use sentinal.Event.{AnalyticsEvent, is_flagged}
use sentinal.Live.{Live, probed}
use sentinal.Live.Metrics.{history}
use sentinal.Demo.Backfill.{Ascending}

-- Times fall strictly along the list.
abbrev pub Descending : (String → ℕ) → List AnalyticsEvent → Type 0
Descending get_time [] = Unit {0}
Descending get_time (e ∷ es) =
    All (λ x. get_time x.timestamp < get_time e.timestamp) es × Descending get_time es

module _ (get_time : String → ℕ) where
  All-reverse :
      (P : AnalyticsEvent → Type 0) (es : List AnalyticsEvent) → All P es → All P (reverse es)
  All-reverse P [] h = tt
  All-reverse P (e ∷ es) h =
      rw (reverse-cons e es) (All-append P (reverse es) (e ∷ []) (All-reverse P es h.1) (h.0, tt))

  Descending-snoc :
      (es : List AnalyticsEvent) (e : AnalyticsEvent)
      → Descending get_time es
      → All (λ x. get_time e.timestamp < get_time x.timestamp) es
      → Descending get_time (es ++ e ∷ [])
  Descending-snoc [] e d a = (tt, tt)
  Descending-snoc (x ∷ xs) e d a =
      (All-append _ xs (e ∷ []) d.0 (a.0, tt), Descending-snoc xs e d.1 a.1)

  Descending-reverse :
      (es : List AnalyticsEvent) → Ascending get_time es → Descending get_time (reverse es)
  Descending-reverse [] a = tt
  Descending-reverse (e ∷ es) a =
      rw (reverse-cons e es)
        (Descending-snoc (reverse es) e (Descending-reverse es a.1) (All-reverse _ es a.0))

  -- The history that a chart of the demo mode starts from, left to right, is the history of events whose
  -- times fall: the newest stands at the left, for every backfill that is oldest first.
  pub demo_history-Descending :
      (label : String → String) (backfill : List AnalyticsEvent) (l : Live)
      → l.mounted ≡ true
      → Ascending get_time backfill
      → (es : List AnalyticsEvent) × (history label (probed false backfill l)
          ≡ map
              (λ (e : AnalyticsEvent). record {
                time = label e.timestamp;
                transactions = 1;
                fraud = if is_flagged e then 1 else 0;
              })
              es)
        × Descending get_time es
  unfolding history probed
  demo_history-Descending label backfill l m a =
      (reverse backfill, rw m refl, Descending-reverse backfill a)
