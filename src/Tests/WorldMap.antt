-- ===== src/Tests/WorldMap.antt =====
-- Loads of the geometry, the paths, and three threats.
use sentinal.Base.{
  arith, ℕ, ◌≡◌, refl, String, Option, none, some, List, [], ◌∷◌, map, false, ◌<>◌, if◌then◌else◌,
  ◌=?◌,
}
use text.Mathlib.TextEquality.{eq_iff}
use sentinal.Base.{InOrder, ascending}
use sentinal.Base.Int.{ℤ, pos}
use sentinal.Threats.Command.{MapThreat}
use sentinal.WorldMap.Atlas.{View, Event, no_atlas, first_render, mount, loads, fails, run, arrives}
use sentinal.WorldMap.Loading.{run-kept}
use sentinal.WorldMap.Views.{Served, mounted-Served}
use sentinal.Base.{Right}
use sentinal.WorldMap.Paths.{Paths, path_of, draw, draw-pure}
use sentinal.WorldMap.Arcs.{Arc, arcs}

abbrev view : View String
view = record { countries = none; waiting = none; cancelled = false }

-- Two loads share a fetch, which fails; the next load starts another.
abbrev retried : List (Event String)
retried = loads ∷ loads ∷ fails 0 ∷ loads ∷ []

test_retried : (run String retried (no_atlas String, view)).0.flying ≡ 1 ∷ []
unfolding run no_atlas
test_retried = refl

-- A second attempt that succeeds, then another load and an answer that is out of date.
abbrev fetched : List (Event String)
fetched = loads ∷ fails 0 ∷ loads ∷ arrives 1 ("FR" ∷ []) ∷ []

run-kept_example :
    let before = run String fetched (no_atlas String, view) in
    let after = run String (loads ∷ arrives 0 [] ∷ []) before in
    (after.0.cache ≡ some ("FR" ∷ []))
    × (after.0.flying ≡ [])
    × (after.0.started ≡ before.0.started)
run-kept_example =
    run-kept String fetched (loads ∷ arrives 0 [] ∷ []) view ("FR" ∷ [])
      (unfold run no_atlas in refl)

mounted-Served_example :
    let a = (run String retried (no_atlas String, view)).0 in
    Served String
      (mount String a (first_render String a)).0
      (mount String a (first_render String a)).1
unfolding run no_atlas
mounted-Served_example = mounted-Served String retried view refl

-- Features that are their names, and a generator without a path for one of them.
abbrev generator : String → Option String
generator name = if name =? "Nowhere" then none else some ("path of " <> name)

abbrev no_paths : Paths String
no_paths = record { cache = []; computed = [] }

draw-pure_example :
    let r = draw ◌=?◌ generator ("France" ∷ "Nowhere" ∷ "France" ∷ []) no_paths in
    (r.0 ≡ "path of France" ∷ "" ∷ "path of France" ∷ [])
    × Right ◌=?◌ (path_of ◌=?◌ generator) r.1.cache
    × ((draw ◌=?◌ generator ("France" ∷ "Nowhere" ∷ "France" ∷ []) r.1).1 ≡ r.1)
draw-pure_example =
    draw-pure ◌=?◌ generator (λ c d. (eq_iff c d).0) (λ c. (eq_iff c c).1 refl)
      ("France" ∷ "Nowhere" ∷ "France" ∷ []) no_paths tt

-- The second France is not computed.
test_draw :
    (draw ◌=?◌ generator ("France" ∷ "Nowhere" ∷ "France" ∷ []) no_paths).1.computed
    ≡ "France" ∷ "Nowhere" ∷ []
unfolding draw
test_draw = refl

abbrev threat : String → ℕ → MapThreat
threat id score = record {
  id = id;
  lat = pos 10;
  lon = pos 20;
  score = score;
  action = "BLOCK";
  label = none;
}

abbrev threats : List MapThreat
threats = threat "a" 9000 ∷ threat "b" 4000 ∷ threat "c" 7000 ∷ []

-- The sources of the arcs, the highest first, and the one target.
test_arcs :
    map (λ (a : Arc (λ (lat lon : ℤ). lat)). a.id) (arcs (λ lat lon. lat) threats)
    ≡ "arc-c" ∷ "arc-b" ∷ []
unfolding arcs sentinal.Base.sort sentinal.Base.insert
test_arcs = refl
