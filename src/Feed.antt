-- ===== src/Feed.antt =====
-- The live feed of dashboard/src/components/feed/LiveThreatFeed.tsx with the comparator that decides
-- whether it is drawn again, the levels of dashboard/src/components/ui/RiskBadge.tsx, and the
-- notifications of dashboard/src/components/layout/TopBar.tsx.
pub mod Memo
pub mod Panel
use sentinal.Base.{
  ℕ, Bool, true, false, ◌&&◌, ◌||◌, String, Option, none, some, List, [], ◌∷◌, ◌==◌, leb, filter,
  take, length, map, if◌then◌else◌,
}
use sentinal.Event.{AnalyticsEvent, event_key, key_eq, is_flagged, score, points}

unfoldable pub is_threat : AnalyticsEvent → Bool
is_threat e = is_flagged e || leb (points 60) (score e)

-- The events that the feed shows.
unfoldable pub feed : ℕ → List AnalyticsEvent → List AnalyticsEvent
feed limit es = take limit (filter is_threat es)

pub data RiskLevel : Type 0 where
  low medium high critical : RiskLevel

unfoldable pub risk_level : ℕ → RiskLevel
risk_level s =
    if leb (points 80) s
    then critical
    else if leb (points 60) s
    then high
    else if leb (points 40) s
    then medium
    else low

-- What a row of the feed takes from the fields that the comparator reads.
pub record Row : Type 0 where
  pub key : Option String
  pub action : Option String
  pub level : RiskLevel
  pub score : ℕ

unfoldable pub row : AnalyticsEvent → Row
row e = record {
  key = event_key e;
  action = e.action;
  level = risk_level (score e);
  score = score e;
}

abbrev pub score_eq : Option ℕ → Option ℕ → Bool
score_eq none none = true
score_eq none (some n) = false
score_eq (some m) none = false
score_eq (some m) (some n) = m == n

unfoldable pub same_event : AnalyticsEvent → AnalyticsEvent → Bool
same_event a b =
    key_eq (event_key a) (event_key b)
    && (score_eq a.risk_score b.risk_score && key_eq a.action b.action)

-- The loop of the comparator, over two windows of the same length.
abbrev pub same_events : List AnalyticsEvent → List AnalyticsEvent → Bool
same_events [] ys = true
same_events (x ∷ xs) [] = false
same_events (x ∷ xs) (y ∷ ys) = same_event x y && same_events xs ys

-- True where the feed is not drawn again.
unfoldable pub same_feed : ℕ → List AnalyticsEvent → ℕ → List AnalyticsEvent → Bool
same_feed limit es limit' es' = limit == limit' && (length es == length es' && same_events es es')

-- The list under the bell.
unfoldable pub notifications : List AnalyticsEvent → List AnalyticsEvent
notifications es = take 8 (filter is_flagged es)
