-- ===== src/Threats/Command.antt =====
-- The markers of the command center, `mapThreats` of dashboard/src/app/page.tsx, against those of the
-- threat page.
use Prim.Native.String.{String}
use sentinal.Base.{
  ℕ, ◌≡◌, refl, ap, ◌∙◌, sym, Option, none, some, List, [], ◌∷◌, false, ◌=?◌, ◌or◌, or_else, truthy,
  take, map, All, Bool-cases, Option-cases, inl, inr,
}
use mathlib.Core.Bool.{false≢true}
use sentinal.Base.Int.{ℤ}
use sentinal.Event.{AnalyticsEvent}
use sentinal.Threats.Coords.{Coords, lookup_coords, country_coords, coords_by, resolve_coords}
use sentinal.Threats.Markers.{
  GeoThreat, all, marker_key, direct, place, marker, filtered_out, seen_before, threats_from,
  threats,
}

pub record MapThreat : Type 0 where
  pub id : String
  pub lat : ℤ
  pub lon : ℤ
  pub score : ℕ
  pub action : String
  pub label : Option String

-- A marker of the threat page without its address and time.
abbrev pub forget : GeoThreat → MapThreat
forget t = record {
  id = t.id;
  lat = t.lat;
  lon = t.lon;
  score = t.score;
  action = t.action;
  label = t.label;
}

unfoldable pub base_of : (String → String) → AnalyticsEvent → Option Coords
base_of upper e = or_else (direct e.lat e.lon) (
    or_else (lookup_coords (upper (e.country_code or "")) country_coords)
      (lookup_coords (upper (e.country or "")) country_coords))

-- The `map` and the `filter` that follows it; a marker's position and fields are computed as on the
-- threat page.
unfoldable pub map_threats_all : (String → String) → List AnalyticsEvent → List MapThreat
map_threats_all upper [] = []
map_threats_all upper (e ∷ es) =
    let rest = map_threats_all upper es in
    elim (base_of upper e) [ none ↦ rest | some c ↦ forget (marker e c) ∷ rest ]

unfoldable pub map_threats : (String → String) → List AnalyticsEvent → List MapThreat
unfolding map_threats_all
map_threats upper es = take 12 (map_threats_all upper es)

-- No two events have the same marker key.
abbrev pub DistinctKeys : List AnalyticsEvent → Type 0
DistinctKeys [] = Unit {0}
DistinctKeys (e ∷ es) = All (λ x. (marker_key e =? marker_key x) ≡ false) es × DistinctKeys es

abbrev Unseen : List String → List AnalyticsEvent → Type 0
Unseen seen es = All (λ x. seen_before (marker_key x) seen ≡ false) es

Unseen-cons :
    (k : String) (seen : List String) (es : List AnalyticsEvent)
    → All (λ x. (k =? marker_key x) ≡ false) es
    → Unseen seen es
    → Unseen (k ∷ seen) es
Unseen-cons k seen [] a u = tt
Unseen-cons k seen (e ∷ es) a u = (rw (a.0, u.0) refl, Unseen-cons k seen es a.1 u.1)

lookup-untrue :
    (code : String) → truthy (some code) ≡ false → lookup_coords code country_coords ≡ none
unfolding lookup_coords country_coords
lookup-untrue String.[] h = refl
lookup-untrue (String.◌∷◌ c s) h = absurd (false≢true (sym h))

lookup-blank :
    (upper : String → String) → upper "" ≡ "" → lookup_coords (upper "") country_coords ≡ none
unfolding lookup_coords country_coords
lookup-blank upper h = rw h refl

lookup-coords_by :
    (upper : String → String) (o : Option String)
    → upper "" ≡ ""
    → lookup_coords (upper (o or "")) country_coords ≡ coords_by upper o
unfolding coords_by
lookup-coords_by upper none h = lookup-blank upper h
lookup-coords_by upper (some t) h = elim (Bool-cases (truthy (some (upper t)))) [
  | inl full ↦ rw full refl
  | inr bare ↦ rw bare (lookup-untrue (upper t) bare)
]

base_of-place :
    (upper : String → String) (e : AnalyticsEvent) → upper "" ≡ "" → base_of upper e ≡ place upper e
unfolding base_of place resolve_coords
base_of-place upper e h =
    rw (lookup-coords_by upper e.country_code h, lookup-coords_by upper e.country h) refl

all-none :
    (upper : String → String) (e : AnalyticsEvent) (es : List AnalyticsEvent)
    → base_of upper e ≡ none
    → map_threats_all upper (e ∷ es) ≡ map_threats_all upper es
unfolding map_threats_all
all-none upper e es h = rw (h, map_threats_all) refl

all-some :
    (upper : String → String) (e : AnalyticsEvent) (es : List AnalyticsEvent) (c : Coords)
    → base_of upper e ≡ some c
    → map_threats_all upper (e ∷ es) ≡ forget (marker e c) ∷ map_threats_all upper es
unfolding map_threats_all
all-some upper e es c h = rw (h, map_threats_all) refl

all-threats_from :
    (upper : String → String) (seen : List String) (es : List AnalyticsEvent)
    → upper "" ≡ ""
    → DistinctKeys es
    → Unseen seen es
    → map_threats_all upper es ≡ map forget (threats_from upper all seen es)
unfolding threats_from filtered_out
all-threats_from upper seen [] h d u = unfold map_threats_all in refl
all-threats_from upper seen (e ∷ es) h d u = elim (Option-cases (place upper e)) [
  | inl nowhere ↦
      all-none upper e es (base_of-place upper e h ∙ nowhere)
      ∙ rw (u.0, nowhere) (all-threats_from upper seen es h d.1 u.1)
  | inr (c, found) ↦
      all-some upper e es c (base_of-place upper e h ∙ found)
      ∙ rw (u.0, found)
          (ap (◌∷◌ (forget (marker e c))) (
            all-threats_from upper (marker_key e ∷ seen) es h d.1
              (Unseen-cons (marker_key e) seen es d.0 u.1)))
]

none-seen : (es : List AnalyticsEvent) → Unseen [] es
none-seen [] = tt
none-seen (e ∷ es) = (refl, none-seen es)

-- For events with distinct keys, and if the empty text has no capitals, the command center shows the
-- first twelve markers of the threat page without its filter.
pub map_threats-threats :
    (upper : String → String) (es : List AnalyticsEvent)
    → upper "" ≡ ""
    → DistinctKeys es
    → map_threats upper es ≡ take 12 (map forget (threats upper all es))
unfolding map_threats threats
map_threats-threats upper es h d = ap (take 12) (all-threats_from upper [] es h d (none-seen es))
