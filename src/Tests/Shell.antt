-- ===== src/Tests/Shell.antt =====
-- The badge, the clock and the boot gate.
use sentinal.Base.{ℕ, ◌≡◌, refl, String, true, false, none, some, List, [], ◌∷◌}
use sentinal.Shell.TopBar.{mission_clock}
use sentinal.Shell.Gate.{load, is_active}

test_clock : mission_clock 9 5 30 ≡ "09:05:30"
unfolding mission_clock sentinal.Base.text_length sentinal.Radix.to_radix
test_clock = refl

-- The first load of a browser shows the boot sequence.
test_load :
    (load (λ t. none) 1700000000000 (record { boot_at = none; booting = false })).booting ≡ true
unfolding load
test_load = refl

test_active : is_active "/threats/" "/threats" ≡ true
unfolding is_active
test_active = refl
