-- ===== src/Event.antt =====
-- Decision events as the dashboard keeps them: `AnalyticsEvent` of dashboard/src/hooks/useAnalytics.ts
-- with the `lat` and `lon` that dashboard/src/lib/demo.ts and the server add and the maps read.
-- A risk score is a number of hundredths of a point, the precision to which the risk engine rounds.
-- A coordinate is a number of units of 1 / (100 * 2^31) degree, in which every coordinate that the
-- dashboard's own tables and generator produce is an integer.
use sentinal.Base.{
  ℕ, ◌*◌, ◌^◌, ◌-◌, String, Option, none, some, Bool, true, false, ◌||◌, is_text, or_else, ◌or◌,
}
use sentinal.Base.Int.{ℤ, pos, negsuc}

pub record AnalyticsEvent : Type 0 where
  pub id : Option String
  pub event_id : Option String
  pub event_type : String
  pub user_id : Option String
  pub ip_address : Option String
  pub timestamp : String
  pub action : Option String
  pub risk_score : Option ℕ
  pub country_code : Option String
  pub country : Option String
  pub lat : Option ℤ
  pub lon : Option ℤ

-- `n` points, as a score.
abbrev pub points : ℕ → ℕ
points n = n * 100

-- One hundredth of a degree.
abbrev pub centidegree : ℕ
centidegree = 2 ^ 31

-- A number of hundredths of a degree, north or east, and south or west.
abbrev pub degrees : ℕ → ℤ
degrees n = pos (n * centidegree)

abbrev pub south_west : ℕ → ℤ
south_west n = negsuc (n * centidegree - 1)

-- `event.id ?? event.event_id`
unfoldable pub event_key : AnalyticsEvent → Option String
event_key e = or_else e.id e.event_id

-- `===` between two keys, either of which may be undefined.
abbrev pub key_eq : Option String → Option String → Bool
key_eq none none = true
key_eq none (some b) = false
key_eq (some a) k = is_text k a

-- `event.action === "BLOCK" || event.action === "CHALLENGE"`
unfoldable pub is_flagged : AnalyticsEvent → Bool
is_flagged e = is_text e.action "BLOCK" || is_text e.action "CHALLENGE"

unfoldable pub is_blocked : AnalyticsEvent → Bool
is_blocked e = is_text e.action "BLOCK"

-- `event.risk_score ?? 0`
unfoldable pub score : AnalyticsEvent → ℕ
score e = e.risk_score or 0
