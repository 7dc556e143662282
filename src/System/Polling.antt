-- ===== src/System/Polling.antt =====
-- When dashboard/src/app/system/page.tsx probes the services: the effect depends on `runProbes`, which
-- is a new function whenever the connection, the number of events or the demo mode has changed.
use sentinal.Base.{
  ℕ, zero, suc, ◌+◌, ◌≡◌, ◌∙◌, refl, arith, Bool, not, ◌&&◌, ◌==◌, List, [], ◌∷◌, ap, if◌then◌else◌,
}
use sentinal.Polls.{Poll, renew, unmount}

-- The dependencies of `runProbes`.
pub record Deps : Type 0 where
  pub is_connected : Bool
  pub events : ℕ
  pub demo : Bool

abbrev pub equal : Bool → Bool → Bool
equal a b = if a then b else not b

unfoldable pub are_same : Deps → Deps → Bool
are_same d e = equal d.is_connected e.is_connected && d.events == e.events && equal d.demo e.demo

-- A render with the dependencies of the one before it.
unfoldable pub render : Deps → Deps → Poll → Poll
unfolding are_same renew
render before now p = if are_same before now then p else renew p

unfoldable pub renders : Deps → List Deps → Poll → Poll
unfolding render
renders before [] p = p
renders before (d ∷ ds) p = renders d ds (render before d p)

-- The renders of so many events that arrive one after the other.
abbrev pub arriving : ℕ → Deps → List Deps
arriving zero d = []
arriving (suc n) d = let more = record d { events = suc d.events } in more ∷ arriving n more

render-more : (d : Deps) (p : Poll) → render d (record d { events = suc d.events }) p ≡ renew p
unfolding render are_same renew
render-more d p = ground arith

-- While the window of events grows, every event that arrives probes all services again, besides the
-- interval of thirty seconds.
pub renders-arriving :
    (n : ℕ) (d : Deps) (p : Poll) → (renders d (arriving n d) p).loads ≡ p.loads + n
unfolding renders
renders-arriving zero d p = omega arith
renders-arriving (suc n) d p =
    let more = record d { events = suc d.events } in
    let one : (render d more p).loads ≡ suc p.loads =
      ap (λ (q : Poll). q.loads) (render-more d p) ∙ (unfold renew unmount in refl) in
    omega (arith, renders-arriving n more (render d more p), one)
