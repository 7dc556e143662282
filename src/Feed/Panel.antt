-- ===== src/Feed/Panel.antt =====
-- What the feed of dashboard/src/components/feed/LiveThreatFeed.tsx draws, with the badge of
-- dashboard/src/components/ui/RiskBadge.tsx; `fixed1` is `toFixed(1)` of a score.
use sentinal.Base.{
  ℕ, ◌≡◌, ◌≤◌, refl, arith, Bool, true, false, not, ◌&&◌, String, Option, some, List, [], ◌∷◌,
  is_text, truthy, ◌or◌, ◌<>◌, count, if◌then◌else◌,
}
use sentinal.Event.{AnalyticsEvent, event_key, score}
use sentinal.Feed.{RiskLevel, low, medium, high, critical, risk_level, feed}

pub record Badge : Type 0 where
  pub label : String
  pub dot : String
  pub shown : String

abbrev level_text : RiskLevel → String
level_text low = "LOW"
level_text medium = "MEDIUM"
level_text high = "HIGH"
level_text critical = "CRITICAL"

abbrev dot_class : RiskLevel → String
dot_class critical = "animate-pulse bg-rose-400"
dot_class high = "bg-orange-400"
dot_class medium = "bg-yellow-400"
dot_class low = "bg-emerald-400"

unfoldable pub risk_badge : (ℕ → String) → ℕ → Badge
unfolding risk_level
risk_badge fixed1 s = record {
  label = level_text (risk_level s);
  dot = dot_class (risk_level s);
  shown = fixed1 s;
}

-- An entry; `ripples` is the ping of the newest one.
pub record Entry : Type 0 where
  pub key : Option String
  pub title : String
  pub time : String
  pub source : String
  pub risk : ℕ
  pub is_critical : Bool
  pub ripples : Bool
  pub glows : Bool

-- The address, and the type where there is one.
abbrev pub source_of : AnalyticsEvent → String
source_of e =
    let ip = e.ip_address or "unknown source" in
    if truthy (some e.event_type) then ip <> (" · " <> e.event_type) else ip

-- `clock` is `toLocaleTimeString` of the date of a timestamp.
unfoldable pub entry : (String → String) → Bool → Bool → AnalyticsEvent → Entry
entry clock reduced newest e = record {
  key = event_key e;
  title = (e.action or "") <> " decision";
  time = clock e.timestamp;
  source = source_of e;
  risk = score e;
  is_critical = is_text e.action "BLOCK";
  ripples = newest && not reduced;
  glows = is_text e.action "BLOCK" && not reduced;
}

unfoldable pub entries : (String → String) → Bool → Bool → List AnalyticsEvent → List Entry
unfolding entry
entries clock reduced newest [] = []
entries clock reduced newest (e ∷ es) =
    entry clock reduced newest e ∷ entries clock reduced false es

-- The panel, or the text that there is no threat.
pub data Panel : Type 0 where
  no_threats : Panel
  shows : List Entry → Panel

unfoldable pub panel : (String → String) → Bool → ℕ → List AnalyticsEvent → Panel
unfolding entries feed
panel clock reduced limit es = elim (feed limit es) [
  | [] ↦ no_threats
  | e ∷ rest ↦ shows (entries clock reduced true (e ∷ rest))
]

silent :
    (clock : String → String) (reduced : Bool) (es : List AnalyticsEvent)
    → count (λ (x : Entry). x.ripples) (entries clock reduced false es) ≡ 0
unfolding entries entry
silent clock reduced [] = refl
silent clock reduced (e ∷ es) = silent clock reduced es

-- At most one entry pings, and none where motion is reduced.
pub entries-ripples :
    (clock : String → String) (reduced : Bool) (es : List AnalyticsEvent)
    → count (λ (x : Entry). x.ripples) (entries clock reduced true es) ≤ (if reduced then 0 else 1)
unfolding entries entry
entries-ripples clock true [] = omega arith
entries-ripples clock false [] = omega arith
entries-ripples clock true (e ∷ es) = omega (arith, silent clock true es)
entries-ripples clock false (e ∷ es) = omega (arith, silent clock false es)
