-- ===== src/WorldMap/Arcs.antt =====
-- The markers and the arcs of the map, dashboard/src/components/map/WorldThreatMap.tsx: the memos
-- `sorted` and `arcs`. A position on the page is what the projection of
-- d3-geo gives; delays are in hundredths of a second.
use sentinal.Base.{
  ℕ, suc, ◌-◌, ◌*◌, String, List, [], ◌∷◌, reverse, ◌<>◌, Bool, leb, length, take, drop, sort,
  ascending,
}
use sentinal.Base.Int.{ℤ}
use sentinal.Event.{points}
use sentinal.Threats.Command.{MapThreat}

abbrev pub threat_score : MapThreat → ℕ
threat_score t = t.score

unfoldable pub sorted : List MapThreat → List MapThreat
sorted threats = sort (ascending threat_score) threats

module _ {P : Type 0} (project : ℤ → ℤ → P) where
  abbrev pub place : MapThreat → P
  place t = project t.lat t.lon

  pub record Arc : Type 0 where
    pub id : String
    pub start : P
    pub end : P
    pub delay : ℕ
    pub critical : Bool

  unfoldable pub arc : MapThreat → ℕ → MapThreat → Arc
  arc target i t = record {
    id = "arc-" <> t.id;
    start = place t;
    end = place target;
    delay = i * 45;
    critical = leb (points 60) t.score;
  }

  -- The `map` with its index.
  abbrev pub arcs_from : MapThreat → ℕ → List MapThreat → List Arc
  arcs_from target i [] = []
  arcs_from target i (t ∷ ts) = arc target i t ∷ arcs_from target (suc i) ts

abbrev pub last_of : MapThreat → List MapThreat → MapThreat
last_of t [] = t
last_of t (u ∷ us) = last_of u us

-- `sorted.slice(-4, -1)`
abbrev pub inner : List MapThreat → List MapThreat
inner s = drop (length s - 4) (take (length s - 1) s)

module _ {P : Type 0} (project : ℤ → ℤ → P) where
  unfoldable pub arcs_of : List MapThreat → List (Arc project)
  unfolding arc
  arcs_of [] = []
  arcs_of (t ∷ []) = []
  arcs_of (t ∷ u ∷ us) = arcs_from project (last_of u us) 0 (reverse (inner (t ∷ u ∷ us)))

  unfoldable pub arcs : List MapThreat → List (Arc project)
  unfolding arcs_of sorted
  arcs threats = arcs_of (sorted threats)
