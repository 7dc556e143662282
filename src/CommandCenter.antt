-- ===== src/CommandCenter.antt =====
-- What the page dashboard/src/app/page.tsx hands to its instruments. `text_of` is `String` on a number.
use sentinal.Base.{
  ℕ, ◌+◌, ◌≡◌, ◌∙◌, refl, arith, min, String, Option, some, List, [], ◌∷◌, map, filter, take,
  length, length-map, length-take, length-filter, count, any, Bool, true, false, is_text,
  is_text-eq, ltb, get_elem?, ◌or◌, if◌then◌else◌,
}
use sentinal.Event.{AnalyticsEvent, event_key, is_flagged, is_blocked, score}
use sentinal.Hud.Readouts.{Tone, cyan, emerald, amber, rose, Target, tracked, radar_bounds}

pub record Chip : Type 0 where
  pub label : String
  pub value : String
  pub tone : Tone

module _ (text_of : ℕ → String) where
  unfoldable pub chips : Bool → List AnalyticsEvent → List Chip
  chips is_connected events =
      record { label = "Events"; value = text_of (length events); tone = cyan }
      ∷ record {
        label = "Threats";
        value = text_of (length (filter is_flagged events));
        tone = if any is_blocked events then rose else amber;
      }
      ∷ record {
        label = "Uplink";
        value = if is_connected then "SYNC" else "DOWN";
        tone = if is_connected then emerald else rose;
      }
      ∷ []

-- `score_text` is `String(e.risk_score)`.
unfoldable pub radar_target : (Option ℕ → String) → AnalyticsEvent → Target
radar_target score_text e = record {
  id = event_key e or score_text e.risk_score;
  score = score e;
  action = e.action or "ALLOW";
}

unfoldable pub radar_targets : (Option ℕ → String) → List AnalyticsEvent → List Target
unfolding radar_target
radar_targets score_text events = map (radar_target score_text) (take 14 events)

-- The ring of the card on the stream's health.
unfoldable pub stream_ring : Bool → ℕ
stream_ring is_connected = if is_connected then 100 else 0

unfoldable pub connection_text : Bool → String
connection_text is_connected = if is_connected then "SYSTEM ONLINE" else "CONNECTION LOST"

abbrev pub is_challenge : AnalyticsEvent → Bool
is_challenge e = is_text e.action "CHALLENGE"

any-count : (events : List AnalyticsEvent) → any is_blocked events ≡ ltb 0 (count is_blocked events)
any-count [] = refl
any-count (e ∷ es) = ground (arith, any-count es)

one_action : (e : AnalyticsEvent) → is_blocked e ≡ true → is_challenge e ≡ false
unfolding is_blocked
one_action e h = rw (is_text-eq e.action "BLOCK" h) refl

flagged-count :
    (events : List AnalyticsEvent)
    → count is_flagged events ≡ count is_blocked events + count is_challenge events
unfolding is_flagged is_blocked
flagged-count [] = omega arith
flagged-count (e ∷ es) = ground (arith, one_action e, flagged-count es)

-- The chip on threats shows how many decisions block plus how many challenge, and is red exactly when
-- one blocks.
pub chips-threats :
    (text_of : ℕ → String) (is_connected : Bool) (events : List AnalyticsEvent)
    → get_elem? (chips text_of is_connected events) 1
      ≡ some (record {
        label = "Threats";
        value = text_of (count is_blocked events + count is_challenge events);
        tone = if ltb 0 (count is_blocked events) then rose else amber;
      })
unfolding chips
chips-threats text_of is_connected events =
    let size : length (filter is_flagged events)
        ≡ count is_blocked events + count is_challenge events =
      length-filter is_flagged events ∙ flagged-count events in
    rw (size, any-count events) refl

-- The radar of the page is handed up to fourteen events and shows the first twelve of them: it says how
-- many it tracks.
pub radar_targets-tracked :
    {N : Type 0} (across down : ℕ → ℕ → N) (score_text : Option ℕ → String)
    (events : List AnalyticsEvent)
    → tracked across down (radar_targets score_text events) ≡ min 12 (length events)
unfolding radar_targets
radar_targets-tracked {N} across down score_text events =
    let (size, ids, bounds) =
      radar_bounds across down (map (radar_target score_text) (take 14 events)) in
    omega
      (arith, size, length-map (radar_target score_text) (take 14 events), length-take 14 events)
