-- ===== src/Tests/Demo.antt =====
-- The generator run from a seed.
use sentinal.Base.{take}
use sentinal.Demo.Rollups.{Count, demo_geo}
use Prim.Native.String.{String}
use sentinal.Base.{
  ℕ, zero, suc, ◌*◌, ◌-◌, ◌≤◌, ◌<◌, ◌≡◌, refl, ap, none, some, List, [], ◌∷◌, arith, length,
  text_length, All, map, if◌then◌else◌, false,
}
use sentinal.Event.{AnalyticsEvent}
use sentinal.Demo.Random.{word, next_seed, output}
use sentinal.Demo.Pick.{weighted_pick, pick_loop}
use sentinal.Demo.Event.{Source, generate_event}
use sentinal.Demo.Bands.{Plausible, generate_event-Plausible}

-- A clock that prints times in strokes.
abbrev strokes : ℕ → String
strokes zero = ""
strokes (suc n) = String.◌∷◌ "i" (strokes n)

strokes_read : (n : ℕ) → text_length (strokes n) ≡ n
unfolding text_length
strokes_read zero = refl
strokes_read (suc n) = ap suc (strokes_read n)

abbrev source : Source
source = record { seed = 42; seq = 0 }

generate_event-Plausible_example :
    (e : AnalyticsEvent) × ((generate_event strokes 7 source).0 ≡ some e) × Plausible e
generate_event-Plausible_example = generate_event-Plausible strokes 7 source

abbrev thirds : List ℕ
thirds = 1 ∷ 2 ∷ 3 ∷ []

-- The first number that `mulberry32(42)` returns is 2581720956 / 2 ^ 32.
test_mulberry : output (next_seed 42) ≡ 2581720956
unfolding output next_seed
test_mulberry = refl

test_pick : weighted_pick (λ n. n) thirds (word - 1) ≡ some 3
unfolding weighted_pick pick_loop
test_pick = refl

-- The countries of the demo's rollup, and the strongest source.
test_geo : map (λ (c : Count). c.label) (take 3 demo_geo) ≡ "US" ∷ "GB" ∷ "IN" ∷ []
unfolding demo_geo sentinal.Base.sort sentinal.Demo.Tables.country_pool sentinal.Base.insert
test_geo = refl
