-- ===== src/WorldMap/Memo.antt =====
-- The marker of a threat and the comparator of the memoized export,
-- dashboard/src/components/map/WorldThreatMap.tsx. A handler is known by its number.
use sentinal.Base.{
  ℕ, String, Option, none, some, List, [], ◌∷◌, map, Bool, true, false, ◌||◌, ◌&&◌, not, ◌=?◌, ◌==◌,
  leb, if◌then◌else◌, length, is_text,
}
use sentinal.Event.{points}
use sentinal.Threats.Command.{MapThreat}
use sentinal.WorldMap.Arcs.{sorted}

unfoldable pub is_critical : MapThreat → Bool
is_critical t = (t.action =? "BLOCK") || leb (points 80) t.score

unfoldable pub marker_color : MapThreat → String
unfolding is_critical
marker_color t =
    if is_critical t then "#f43f5e" else if leb (points 60) t.score then "#f97316" else "#eab308"

-- What a marker shows, its position and its title aside.
pub record Marker : Type 0 where
  pub id : String
  pub color : String
  pub critical : Bool
  pub is_sel : Bool

unfoldable pub marker : Option String → MapThreat → Marker
unfolding marker_color
marker selected t = record {
  id = t.id;
  color = marker_color t;
  critical = is_critical t;
  is_sel = is_text selected t.id;
}

unfoldable pub markers : Option String → List MapThreat → List Marker
unfolding marker sorted
markers selected threats = map (marker selected) (sorted threats)

-- A property that may be left out, or be `null`.
pub data Given (A : Type 0) : Type 0 where
  undefined null : Given A
  value : A → Given A

abbrev pub given : Given String → Option String
given undefined = none
given null = none
given (value t) = some t

pub record MapProps : Type 0 where
  pub threats : List MapThreat
  pub selected_id : Given String
  pub on_select : Option ℕ
  pub class_name : Option String

-- `===`
unfoldable pub same_given : Given String → Given String → Bool
same_given undefined undefined = true
same_given null null = true
same_given (value a) (value b) = a =? b
same_given _ _ = false

abbrev pub same_text : Option String → Option String → Bool
same_text none none = true
same_text (some a) o = is_text o a
same_text none (some b) = false

abbrev pub same_handler : Option ℕ → Option ℕ → Bool
same_handler none none = true
same_handler (some a) (some b) = a == b
same_handler _ _ = false

unfoldable pub same_threat : MapThreat → MapThreat → Bool
same_threat a b = (a.id =? b.id) && (a.score == b.score) && (a.action =? b.action)

-- The loop, on lists of one length.
unfoldable pub same_threats : List MapThreat → List MapThreat → Bool
unfolding same_threat
same_threats [] ys = true
same_threats (x ∷ xs) [] = true
same_threats (x ∷ xs) (y ∷ ys) = same_threat x y && same_threats xs ys

unfoldable pub same_props : MapProps → MapProps → Bool
unfolding same_given same_threats
same_props p n =
    if not (same_given p.selected_id n.selected_id)
    then false
    else if not (same_handler p.on_select n.on_select)
    then false
    else if not (same_text p.class_name n.class_name)
    then false
    else if not (length p.threats == length n.threats)
    then false
    else same_threats p.threats n.threats
