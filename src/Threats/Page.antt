-- ===== src/Threats/Page.antt =====
-- The selection and the bars of countries on dashboard/src/app/threats/page.tsx.
use sentinal.Base.{
  ℕ, suc, ◌*◌, ◌≡◌, ◌≤◌, refl, arith, String, ◌=?◌, Option, none, some, List, [], ◌∷◌, take, true,
  any, All, All-map, All-take, if◌then◌else◌, Bool-cases, inl, inr, leb→le, InOrder, descending,
}
use text.Mathlib.TextEquality.{eq_iff}
use sentinal.Threats.Markers.{GeoThreat}
use sentinal.Threats.Command.{MapThreat, forget}
use sentinal.Demo.Rollups.{Count}

-- `threats.find((x) => x.id === id)`
unfoldable pub find_threat : String → List GeoThreat → Option GeoThreat
find_threat id [] = none
find_threat id (x ∷ xs) = let rest = find_threat id xs in if x.id =? id then some x else rest

-- A click on a marker of the map, with the selection before it.
unfoldable pub select : List GeoThreat → MapThreat → Option GeoThreat → Option GeoThreat
unfolding find_threat
select threats t selected = elim (find_threat t.id threats) [
  | none ↦ selected
  | some full ↦ some full
]

unfoldable pub close_detail : Option GeoThreat → Option GeoThreat
close_detail selected = none

-- A bar: `pct` is `part` of `whole`, as a number of hundredths of it.
pub record Bar : Type 0 where
  pub country : String
  pub part : ℕ
  pub whole : ℕ
  pub delay : ℕ

abbrev bars_from : ℕ → ℕ → List Count → List Bar
bars_from whole i [] = []
bars_from whole i (g ∷ gs) =
    record { country = g.label; part = g.count; whole = whole; delay = i * 8 }
    ∷ bars_from whole (suc i) gs

unfoldable pub bars : List Count → List Bar
bars [] = []
bars (g ∷ gs) = bars_from g.count 0 (take 6 (g ∷ gs))

select_first :
    (t : GeoThreat) (threats : List GeoThreat)
    → any (λ (x : GeoThreat). x.id =? t.id) threats ≡ true
    → (x : GeoThreat) × (find_threat t.id threats ≡ some x) × (x.id ≡ t.id)
unfolding find_threat
select_first t [] h = absurd cc
select_first t (x ∷ xs) h = elim (Bool-cases (x.id =? t.id)) [
  | inl same ↦ (x, rw same refl, (eq_iff x.id t.id).0 same)
  | inr other ↦
      let (y, found, e) = select_first t xs (rw other at h) in (y, rw (other, found) refl, e)
]

-- A click on the marker of one of the page's threats selects a threat with the marker's identity.
pub select_lem :
    (threats : List GeoThreat) (t : GeoThreat) (selected : Option GeoThreat)
    → any (λ (x : GeoThreat). x.id =? t.id) threats ≡ true
    → (x : GeoThreat) × (select threats (forget t) selected ≡ some x) × (x.id ≡ t.id)
unfolding select
select_lem threats t selected h =
    let (x, found, e) = select_first t threats h in (x, rw (select, found) refl, e)

bars_from-All :
    (whole i : ℕ) (gs : List Count)
    → All (λ (g : Count). g.count ≤ whole) gs
    → All (λ (b : Bar). b.part ≤ b.whole) (bars_from whole i gs)
bars_from-All whole i [] h = tt
bars_from-All whole i (g ∷ gs) h = (h.0, bars_from-All whole (suc i) gs h.1)

-- Of countries in the order of their counts no bar is longer than its track.
pub bars-All :
    (gs : List Count)
    → InOrder (descending (λ (c : Count). c.count)) gs
    → All (λ (b : Bar). b.part ≤ b.whole) (bars gs)
unfolding bars
bars-All [] h = tt
bars-All (g ∷ gs) h = bars_from-All g.count 0 (take 6 (g ∷ gs)) (
    All-take (λ (c : Count). c.count ≤ g.count) 6 (g ∷ gs)
      (
        omega arith,
        All-map _ (λ (c : Count). c.count ≤ g.count) (λ c k. leb→le c.count g.count k) gs h.0,
      ))
