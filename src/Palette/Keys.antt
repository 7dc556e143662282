-- ===== src/Palette/Keys.antt =====
-- What the keys of the palette do to the selection.
use sentinal.Base.{
  ℕ, zero, suc, ◌-◌, ◌<◌, ◌≡◌, refl, arith, inl, inr, String, none, some, List, [], ◌∷◌, leb,
  length, get_elem?, Bool-cases,
}
use sentinal.Base.Int.{pos, negsuc, ◌+ℤ◌}
use sentinal.Palette.{
  Entry, Palette, arrow_down, enter, types, press, clamped, min_ℤ, go, destination,
}

get_elem?-lt : (rs : List Entry) (i : ℕ) → i < length rs → (r : Entry) × (get_elem? rs i ≡ some r)
get_elem?-lt [] i h = absurd (omega arith)
get_elem?-lt (r ∷ rs) zero h = (r, refl)
get_elem?-lt (r ∷ rs) (suc i) h = get_elem?-lt rs i (omega arith)

clamped_pos : (k n : ℕ) → 0 < n → (i : ℕ) × (clamped (pos k) n ≡ pos i) × (i < n)
unfolding clamped
clamped_pos k n h = elim (Bool-cases (leb k (n - 1))) [
  | inl low ↦ (k, ground arith, ground arith)
  | inr high ↦ (n - 1, ground arith, omega arith)
]

-- While the selection is not negative and there are results, Enter opens one of them.
pub press-enter :
    (find : String → List Entry) (p : Palette) (k : ℕ)
    → p.selected ≡ pos k
    → 0 < length (find p.query)
    → (r : Entry) × ((press find enter p).1 ≡ some (destination r.href))
unfolding press go
press-enter find p k s h =
    let (i, c, lt) = clamped_pos k (length (find p.query)) h in
    let (r, e) = get_elem?-lt (find p.query) i lt in (r, rw (s, c, e) refl)

down_from : (k : ℕ) → min_ℤ (pos k +ℤ pos 1) (negsuc 0) ≡ negsuc 0
unfolding ◌+ℤ◌
down_from k = ground arith

clamped_neg : (n : ℕ) → clamped (negsuc 0) n ≡ negsuc 0
unfolding clamped
clamped_neg n = ground arith

press-down :
    (find : String → List Entry) (p : Palette) (k : ℕ)
    → p.selected ≡ pos k
    → find p.query ≡ []
    → (press find arrow_down p).0.selected ≡ negsuc 0
unfolding press
press-down find p k s h = rw (s, h) (down_from k)

press-stuck :
    (find : String → List Entry) (p : Palette) (q : String)
    → p.selected ≡ negsuc 0
    → (press find enter (press find (types q) p).0).1 ≡ none
unfolding press go
press-stuck find p q s = rw (s, clamped_neg (length (find q))) refl

-- ArrowDown on an empty list of results makes the selection negative. Whatever is typed then, and
-- however many results that has, Enter opens nothing.
pub press-arrow_down-types :
    (find : String → List Entry) (p : Palette) (k : ℕ) (q : String)
    → p.selected ≡ pos k
    → find p.query ≡ []
    → (press find enter (press find (types q) (press find arrow_down p).0).0).1 ≡ none
press-arrow_down-types find p k q s h =
    press-stuck find (press find arrow_down p).0 q (press-down find p k s h)
