-- ===== src/Tests/System.antt =====
-- The simulated run of the probes.
use sentinal.Base.{◌≡◌, refl}
use sentinal.System.{degraded, demo_probes, overall}

test_demo : overall (demo_probes 7) ≡ degraded
unfolding overall demo_probes
test_demo = refl
