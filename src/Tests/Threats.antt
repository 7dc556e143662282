-- ===== src/Tests/Threats.antt =====
-- A window with a repeated address, and one with a critical event.
use sentinal.Base.{ℕ, ◌^◌, ◌≡◌, refl, String, none, some, List, [], ◌∷◌}
use sentinal.Event.{AnalyticsEvent, points, score, is_blocked, event_key}
use sentinal.Threats.Jitter.{hash_key}
use sentinal.Threats.Markers.{blocked, Sound, threats, threats-Sound}
use sentinal.Threats.Alerts.{is_critical, scan, fresh_id, alert_id}

abbrev event : String → String → ℕ → AnalyticsEvent
event id ip risk = record {
  id = some id;
  event_id = none;
  event_type = "user.login";
  user_id = none;
  ip_address = some ip;
  timestamp = "2026-01-01T00:00:00Z";
  action = some "BLOCK";
  risk_score = some (points risk);
  country_code = some "US";
  country = none;
  lat = none;
  lon = none;
}

abbrev window : List AnalyticsEvent
window = event "e1" "45.132.1.9" 90 ∷ event "e2" "45.132.1.9" 95 ∷ event "e1" "73.12.4.4" 82 ∷ []

threats-Sound_example : Sound blocked [] window (threats (λ t. t) blocked window)
threats-Sound_example =
    threats-Sound (λ t. t) blocked window
      (("45.132.1.9", refl), (("45.132.1.9", refl), (("73.12.4.4", refl), tt)))

-- The scan alerts the first two and leaves out the one that is below 85.
test_scan : (scan [] window).0 ≡ "e2" ∷ "e1" ∷ []
unfolding scan fresh_id alert_id is_critical event_key is_blocked score
test_scan = refl

-- A key whose hash is the least 32-bit integer.
test_worst : hash_key "polygenelubricants" ≡ 2 ^ 31
unfolding hash_key
test_worst = refl
