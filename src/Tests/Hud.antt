-- ===== src/Tests/Hud.antt =====
-- The boot sequence in the demo mode, the loops after two returns to the tab, and three particles.
use sentinal.Base.{
  ℕ, ◌≡◌, ◌≤◌, refl, arith, true, false, none, List, [], ◌∷◌, length, ltb, if◌then◌else◌,
}
use sentinal.Base.Int.{pos}
use sentinal.Hud.Boot.{boot, start, first_boot, ticks, renders, overlay}
use sentinal.Hud.BootTime.{boot_ends, boot_starves}
use sentinal.Hud.Frames.{frames, toggles, Happening}
use sentinal.Hud.Loops.{returns}
use sentinal.Hud.Links.{Point, links, moving_link, still_link, seen, links_moving-still}

boot_ends_example :
    ((ticks 300 (start false first_boot)).calls ≡ (if ltb 300 289 then 0 else 1))
    × (289 ≤ 300 → overlay (ticks 300 (start false first_boot)) ≡ none)
boot_ends_example = boot_ends 300

-- The demo's tick renders the shell every 1.4 s.
boot_starves_example :
    ((renders (140 ∷ 140 ∷ 140 ∷ []) (start false first_boot)).calls ≡ 0)
    × ((renders (140 ∷ 140 ∷ 140 ∷ []) (start false first_boot)).phase ≡ boot)
boot_starves_example =
    boot_starves (140 ∷ 140 ∷ 140 ∷ []) (omega arith, (omega arith, (omega arith, tt)))

abbrev twice_away : List Happening
twice_away = frames ∷ toggles ∷ toggles ∷ frames ∷ toggles ∷ toggles ∷ []

test_returns : returns true twice_away ≡ 2
unfolding returns
test_returns = refl

abbrev point : ℕ → Point
point n = record { x = pos n; y = pos 0 }

abbrev points : List Point
points = point 0 ∷ point 5 ∷ point 200 ∷ []

test_links : length (links (moving_link 175) points) ≡ 1
unfolding links moving_link sentinal.Hud.Links.distance2
test_links = refl
