-- ===== src/WorldMap/Views.antt =====
-- What one map draws of the atlas, and when.
use sentinal.Base.{
  ℕ, ◌≡◌, refl, true, false, none, some, List, [], ◌∷◌, ◌==◌, ==_refl, any, Bool-cases, inl, inr,
}
use sentinal.WorldMap.Atlas.{
  Atlas, View, load_atlas, first_render, mount, deliver, unmount, Event, loads, leaves, arrives,
  fails, step, run, no_atlas,
}
use sentinal.WorldMap.Loading.{Cell, idle, loading, loaded, Holds, run-Holds}

module _ (F : Type 0) where
  -- The fetch that a map waits for after its effect, and what the map draws when that fetch ends.
  abbrev pub Served : Atlas F → View F → Type 0
  Served a v =
      (n : ℕ) × (v.waiting ≡ some n)
      × (any (λ m. m == n) a.flying ≡ true)
      × ((fs : List F) → (step F (arrives n fs) (a, v)).1.countries ≡ some fs)

  mount-Served :
      (a : Atlas F) (c : Cell F) (v : View F)
      → Holds F a c
      → a.cache ≡ none
      → v.cancelled ≡ false
      → Served (mount F a v).0 (mount F a v).1
  unfolding mount load_atlas step deliver
  mount-Served a (loaded fs) v (h, f) bare c = absurd cc
  mount-Served a idle v (h, p, f) bare c =
      rw (h, p, f)
        (a.started, refl, rw (==_refl a.started) refl, λ fs. rw (==_refl a.started, c) refl)
  mount-Served a loading v (n, h, p, f) bare c =
      rw (h, p, f) (n, refl, rw (==_refl n) refl, λ fs. rw (==_refl n, c) refl)

  -- A map that is mounted while there is no geometry, whatever has happened before, waits for a fetch
  -- that is in flight, and draws what that fetch brings when it arrives.
  pub mounted-Served :
      (es : List (Event F)) (v : View F)
      → let a = (run F es (no_atlas F, v)).0 in
        a.cache ≡ none → Served (mount F a (first_render F a)).0 (mount F a (first_render F a)).1
  unfolding first_render
  mounted-Served es v bare =
      let (c, moves, holds) = run-Holds F es v in
      mount-Served (run F es (no_atlas F, v)).0 c (first_render F (run F es (no_atlas F, v)).0)
        holds bare refl

  abbrev Blank : View F → Type 0
  Blank v = (v.countries ≡ none) × (v.waiting ≡ none)

  step-Blank : (e : Event F) (s : Atlas F × View F) → Blank s.1 → Blank (step F e s).1
  unfolding step deliver unmount
  step-Blank loads s b = b
  step-Blank leaves s b = b
  step-Blank (arrives n fs) s (c, w) = elim (Bool-cases (any (λ m. m == n) s.0.flying)) [
    | inl h ↦ rw (h, c, w) (refl, refl)
    | inr h ↦ rw h (c, w)
  ]
  step-Blank (fails n) s (c, w) = elim (Bool-cases (any (λ m. m == n) s.0.flying)) [
    | inl h ↦ rw (h, c, w) (refl, refl)
    | inr h ↦ rw h (c, w)
  ]

  run-Blank : (es : List (Event F)) (s : Atlas F × View F) → Blank s.1 → Blank (run F es s).1
  unfolding run
  run-Blank [] s b = b
  run-Blank (e ∷ es) s b = run-Blank es (step F e s) (step-Blank e s b)

  -- If the geometry arrives between a map's first render and its effect, the map draws no country,
  -- whatever happens later: the effect returns early and nothing else sets the state.
  pub late_mount-Blank :
      (a b : Atlas F) (fs : List F) (es : List (Event F))
      → a.cache ≡ none
      → b.cache ≡ some fs
      → (run F es (mount F b (first_render F a))).1.countries ≡ none
  unfolding mount first_render
  late_mount-Blank a b fs es h k =
      (run-Blank es (mount F b (first_render F a)) (rw (h, k) (refl, refl))).0
