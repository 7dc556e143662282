-- ===== src/Shell/Ticker.antt =====
-- The items of the ticker, `tickerItems` of dashboard/src/components/layout/AppShell.tsx. `to_fixed` is
-- `toFixed(1)` of a score.
use sentinal.Base.{
  ℕ, ◌+◌, ◌*◌, ◌≡◌, refl, arith, min, String, ◌<>◌, Option, none, some, List, [], ◌∷◌, ◌++◌, map,
  take, length, length-append, length-map, length-take, Bool, true, false, if◌then◌else◌, ◌==◌,
  ◌or◌,
}
use sentinal.Event.{AnalyticsEvent}
use sentinal.Radix.{to_radix}
use sentinal.Hud.Readouts.{ticker}

module _ (to_fixed : ℕ → String) where
  abbrev risk_text : Option ℕ → String
  risk_text none = "—"
  risk_text (some s) = to_fixed s

  unfoldable pub event_item : AnalyticsEvent → String
  event_item e =
      (e.action or "ALLOW")
      <> " · "
      <> (e.ip_address or "unknown")
      <> " · RISK "
      <> risk_text e.risk_score

  unfoldable pub ticker_items : List AnalyticsEvent → Bool → Bool → List String
  unfolding event_item
  ticker_items events is_connected demo =
      ("SENTINEL TELEMETRY LINK ACTIVE"
        ∷ ("DECISIONS BUFFERED: " <> to_radix 10 (length events))
        ∷ (if is_connected then "WS UPLINK: STABLE" else "WS UPLINK: RECONNECTING")
        ∷ map event_item (take 8 events))
      ++ (if demo then "DEMO MODE — SIMULATED TELEMETRY" ∷ [] else [])

  length-ticker_items :
      (events : List AnalyticsEvent) (is_connected demo : Bool)
      → length (ticker_items events is_connected demo)
        ≡ 3 + min 8 (length events) + (if demo then 1 else 0)
  unfolding ticker_items
  length-ticker_items events c true = omega (
    arith,
    length-append (map event_item (take 8 events)) ("DEMO MODE — SIMULATED TELEMETRY" ∷ []),
    length-map event_item (take 8 events),
    length-take 8 events,
  )
  length-ticker_items events c false = omega (
    arith,
    length-append (map event_item (take 8 events)) [],
    length-map event_item (take 8 events),
    length-take 8 events,
  )

  -- Without reduced motion the ticker is always shown, and its track holds everything twice: three
  -- lines on the state, up to eight decisions, and a line for the demo mode.
  pub ticker-items :
      (events : List AnalyticsEvent) (is_connected demo : Bool)
      → (track : List String) × (ticker false (ticker_items events is_connected demo) ≡ some track)
        × (length track ≡ 2 * (3 + min 8 (length events) + (if demo then 1 else 0)))
  unfolding ticker
  ticker-items events c d =
      let items = ticker_items events c d in
      let shown : (length items == 0) ≡ false = ground (arith, length-ticker_items events c d) in
      (
        items ++ items,
        rw shown refl,
        omega (arith, length-append items items, length-ticker_items events c d),
      )
