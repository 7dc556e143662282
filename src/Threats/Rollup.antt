-- ===== src/Threats/Rollup.antt =====
-- The rollup of the countries on dashboard/src/app/threats/page.tsx: the effect and its replies, `none`
-- where `fetchGeo` rejects.
use sentinal.Base.{◌≡◌, refl, Option, none, List, [], ◌∷◌, ◌++◌, ◌or◌}
use sentinal.Polls.{Poll, Moment, mount, step}
use sentinal.Demo.Rollups.{Count}

pub record GeoRollup : Type 0 where
  pub poll : Poll
  pub geo_rollup : List Count

pub data Event : Type 0 where
  polls : Moment → Event
  arrives : Option (List Count) → Event

unfoldable pub load_geo : GeoRollup
load_geo = record { poll = mount; geo_rollup = [] }

unfoldable pub on_event : Event → GeoRollup → GeoRollup
on_event (polls m) g = record g { poll = step m g.poll }
on_event (arrives reply) g = record g { geo_rollup = reply or [] }

unfoldable pub run : List Event → GeoRollup → GeoRollup
unfolding on_event
run [] g = g
run (e ∷ es) g = run es (on_event e g)

run-append : (es more : List Event) (g : GeoRollup) → run (es ++ more) g ≡ run more (run es g)
unfolding run
run-append [] more g = refl
run-append (e ∷ es) more g = run-append es more (on_event e g)

-- A reply that fails empties the rollup, whatever was shown before.
pub rejects-empty :
    (es : List Event) (g : GeoRollup) → (run (es ++ arrives none ∷ []) g).geo_rollup ≡ []
rejects-empty es g = rw (run-append es (arrives none ∷ []) g) (unfold run in refl)
