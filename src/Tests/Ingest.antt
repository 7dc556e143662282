-- ===== src/Tests/Ingest.antt =====
-- Two callers with a batch of two, and a client that lags.
use sentinal.Base.{ℕ, ◌≡◌, refl, true, false, List, [], ◌∷◌, length}
use sentinal.Ingest.Batch.{Queued, new_engine, Moment, adds, receives, ticks, run}
use sentinal.Ingest.Hub.{
  Signal, registers, unregisters, writes, broadcasts, fans_out, pings, new_hub,
}
use sentinal.Ingest.Hub
use sentinal.Ingest.Clients.{view, follow_all, run-follow_all}

abbrev event : ℕ → ℕ → Queued ℕ
event p n = record { producer = p; event = n }

abbrev history : List (Moment ℕ)
history =
    adds (event 0 7)
    ∷ adds (event 0 8)
    ∷ adds (event 1 9)
    ∷ receives true false false
    ∷ receives false true false
    ∷ adds (event 0 8)
    ∷ ticks false false false
    ∷ []

test_history : length (run 2 history new_engine).answers ≡ 2
unfolding run new_engine
test_history = refl

abbrev signals : List (Signal ℕ)
signals =
    registers 1 ∷ registers 2 ∷ broadcasts 7 ∷ fans_out ∷ writes 2 ∷ pings ∷ unregisters 2 ∷ []

run-follow_all_example :
    view 1 (Hub.run signals new_hub) ≡ follow_all 1 signals (view 1 (new_hub {Event = ℕ}))
run-follow_all_example = run-follow_all 1 signals new_hub
