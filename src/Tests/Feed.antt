-- ===== src/Tests/Feed.antt =====
-- Two windows that the comparator takes for the same.
use sentinal.Base.{◌≡◌, refl, true, String, none, some, [], ◌∷◌}
use sentinal.Event.{AnalyticsEvent, event_key}
use sentinal.Feed.{same_feed, same_event}

abbrev at : String → AnalyticsEvent
at time = record {
  id = some "e1";
  event_id = none;
  event_type = "user.login";
  user_id = none;
  ip_address = none;
  timestamp = time;
  action = some "BLOCK";
  risk_score = some 9000;
  country_code = none;
  country = none;
  lat = none;
  lon = none;
}

test_same_feed : same_feed 12 (at "1" ∷ []) 12 (at "2" ∷ []) ≡ true
unfolding same_feed same_event event_key
test_same_feed = refl
