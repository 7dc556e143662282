-- ===== src/Feed/Memo.antt =====
-- The comparator of the live feed against what the feed shows.
use sentinal.Base.{
  ℕ, zero, suc, ◌≡◌, refl, arith, sym, ap, ◌∙◌, Bool, true, false, ◌&&◌, String, Option, none, some,
  List, [], ◌∷◌, ◌==◌, filter, take, length, map, Bool-cases, inl, inr,
}
use text.Mathlib.TextEquality.{eq_iff}
use sentinal.Event.{AnalyticsEvent, event_key, key_eq, is_flagged, score}
use sentinal.Feed.{is_threat, feed, Row, row, score_eq, same_event, same_events, same_feed}

map-take :
    (f : AnalyticsEvent → Row) (n : ℕ) (xs : List AnalyticsEvent)
    → map f (take n xs) ≡ take n (map f xs)
map-take f zero xs = refl
map-take f (suc n) [] = refl
map-take f (suc n) (x ∷ xs) = ap (◌∷◌ (f x)) (map-take f n xs)

key_eq-eq : (a b : Option String) → key_eq a b ≡ true → a ≡ b
key_eq-eq none none h = refl
key_eq-eq none (some b) h = cc
key_eq-eq (some a) none h = cc
key_eq-eq (some a) (some b) h = ap some (sym ((eq_iff b a).0 h))

score_eq-eq : (a b : Option ℕ) → score_eq a b ≡ true → a ≡ b
score_eq-eq none none h = refl
score_eq-eq none (some b) h = cc
score_eq-eq (some a) none h = cc
score_eq-eq (some a) (some b) h = ground arith

both : (a b : Bool) → a && b ≡ true → (a ≡ true) × (b ≡ true)
both true true h = (refl, refl)
both true false h = cc
both false b h = cc

same_event-eq :
    (a b : AnalyticsEvent) → same_event a b ≡ true → (row a ≡ row b) × (is_threat a ≡ is_threat b)
unfolding same_event row is_threat is_flagged score
same_event-eq a b h =
    let (k, rest) = both (key_eq (event_key a) (event_key b)) _ h in
    let (s, t) = both (score_eq a.risk_score b.risk_score) (key_eq a.action b.action) rest in
    let ek = key_eq-eq (event_key a) (event_key b) k in
    let es = score_eq-eq a.risk_score b.risk_score s in
    let ea = key_eq-eq a.action b.action t in (rw (ek, es, ea) refl, rw (es, ea) refl)

rows-eq :
    (xs ys : List AnalyticsEvent)
    → length xs ≡ length ys
    → same_events xs ys ≡ true
    → map row (filter is_threat xs) ≡ map row (filter is_threat ys)
rows-eq [] [] l h = refl
rows-eq [] (y ∷ ys) l h = absurd (omega (arith, l))
rows-eq (x ∷ xs) [] l h = absurd (omega (arith, l))
rows-eq (x ∷ xs) (y ∷ ys) l h =
    let (first, rest) = both (same_event x y) (same_events xs ys) h in
    let (r, t) = same_event-eq x y first in
    let later = rows-eq xs ys (omega (arith, l)) rest in
    elim (Bool-cases (is_threat y)) [
      | inl shown ↦ rw (t, shown, r, later) refl
      | inr hidden ↦ rw (t, hidden) later
    ]

-- Where the comparator keeps the feed from being drawn again, the rows are the same in their keys,
-- actions, scores and levels, and in their order.
pub same_feed-rows :
    (limit limit' : ℕ) (es es' : List AnalyticsEvent)
    → same_feed limit es limit' es' ≡ true
    → map row (feed limit es) ≡ map row (feed limit' es')
unfolding same_feed feed
same_feed-rows limit limit' es es' h =
    let (l, rest) = both (limit == limit') (length es == length es' && same_events es es') h in
    let (n, same) = both (length es == length es') (same_events es es') rest in
    let el : limit ≡ limit' = ground arith in
    map-take row limit (filter is_threat es)
    ∙ (rw (el, rows-eq es es' (ground arith) same) refl
        ∙ sym (map-take row limit' (filter is_threat es')))
