-- ===== src/Hud/Links.antt =====
-- The lines between particles, dashboard/src/components/hud/HUDAmbientLayer.tsx: of the moving
-- constellation and of the still one. A line's opacity is 0.42 (1 - d / r) for the distance d and the
-- reach r, of which d * d and r are given, so that it is above 0.02 where 441 d * d < 400 r * r.
use sentinal.Base.{
  ℕ, ◌+◌, ◌*◌, ◌≡◌, ◌≤◌, refl, arith, List, [], ◌∷◌, ◌++◌, Bool, true, false, ltb, if◌then◌else◌,
  length, length-append, filter, sym, ap, Bool-cases, inl, inr,
}
use sentinal.Base.Int.{ℤ, pos_part, neg_part, ◌+ℤ◌}
use sentinal.Hud.Particles.{negate}

pub record Point : Type 0 where
  pub x : ℤ
  pub y : ℤ

-- `(a - b) * (a - b)`
unfoldable square : ℤ → ℤ → ℕ
unfolding ◌+ℤ◌
square a b = let d = a +ℤ negate b in (pos_part d + neg_part d) * (pos_part d + neg_part d)

unfoldable pub distance2 : Point → Point → ℕ
unfolding square
distance2 a b = square a.x b.x + square a.y b.y

-- The moving constellation leaves out what would hardly be seen.
unfoldable pub moving_link : ℕ → ℕ → Bool
moving_link reach d2 =
    if ltb d2 (reach * reach) then ltb (441 * d2) (400 * (reach * reach)) else false

unfoldable pub still_link : ℕ → ℕ → Bool
still_link reach d2 = ltb d2 (reach * reach)

module _ (linked : ℕ → Bool) where
  -- The loop over `j`.
  unfoldable pub links_of : Point → List Point → List (Point × Point)
  links_of a [] = []
  links_of a (b ∷ bs) =
      let rest = links_of a bs in if linked (distance2 a b) then (a, b) ∷ rest else rest

  -- The loop over `i`.
  unfoldable pub links : List Point → List (Point × Point)
  unfolding links_of
  links [] = []
  links (a ∷ as') = links_of a as' ++ links as'

  length-links_of : (a : Point) (bs : List Point) → length (links_of a bs) ≤ length bs
  unfolding links_of
  length-links_of a [] = omega arith
  length-links_of a (b ∷ bs) = ground (arith, length-links_of a bs)

  length-links : (ps : List Point) → 2 * length (links ps) ≤ length ps * length ps
  unfolding links
  length-links [] = omega arith
  length-links (a ∷ as') =
      omega
        (arith, length-append (links_of a as') (links as'), length-links_of a as', length-links as')

filter-append :
    (p : Point × Point → Bool) (xs ys : List (Point × Point))
    → filter p (xs ++ ys) ≡ filter p xs ++ filter p ys
filter-append p [] ys = refl
filter-append p (x ∷ xs) ys = elim (Bool-cases (p x)) [
  | inl h ↦ rw h (ap (◌∷◌ x) (filter-append p xs ys))
  | inr h ↦ rw h (filter-append p xs ys)
]

-- A line that is far enough from invisible, of the still constellation.
abbrev pub seen : ℕ → Point × Point → Bool
seen reach l = moving_link reach (distance2 l.0 l.1)

seen-still : (reach d : ℕ) → moving_link reach d ≡ true → still_link reach d ≡ true
unfolding moving_link still_link
seen-still reach d h = ground arith

links_of-filter :
    (reach : ℕ) (a : Point) (bs : List Point)
    → links_of (moving_link reach) a bs ≡ filter (seen reach) (links_of (still_link reach) a bs)
unfolding links_of
links_of-filter reach a [] = refl
links_of-filter reach a (b ∷ bs) = elim (Bool-cases (moving_link reach (distance2 a b))) [
  | inl h ↦
      rw (h, seen-still reach (distance2 a b) h)
        (rw h (ap (◌∷◌ (a, b)) (links_of-filter reach a bs)))
  | inr h ↦ elim (Bool-cases (still_link reach (distance2 a b))) [
    | inl k ↦ rw (h, k) (rw h (links_of-filter reach a bs))
    | inr k ↦ rw (h, k) (links_of-filter reach a bs)
  ]
]

-- The moving constellation draws the lines of the still one whose opacity is above 0.02, in the same
-- order; they are at most half the square of the number of particles.
pub links_moving-still :
    (reach : ℕ) (ps : List Point)
    → (links (moving_link reach) ps ≡ filter (seen reach) (links (still_link reach) ps))
      × (2 * length (links (moving_link reach) ps) ≤ length ps * length ps)
unfolding links
links_moving-still reach ps = (go ps, length-links (moving_link reach) ps)
  where
    go :
        (qs : List Point)
        → links (moving_link reach) qs ≡ filter (seen reach) (links (still_link reach) qs)
    go [] = refl
    go (a ∷ as') =
        rw (links_of-filter reach a as', go as')
          (sym (
            filter-append (seen reach) (links_of (still_link reach) a as')
              (links (still_link reach) as')))
