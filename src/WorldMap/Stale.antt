-- ===== src/WorldMap/Stale.antt =====
-- The comparator of the map against what the map shows.
use sentinal.Base.{
  ℕ, ◌≡◌, refl, sym, ap, ◌∙◌, arith, String, Option, none, some, List, [], ◌∷◌, map, Bool, true,
  false, ◌&&◌, ◌=?◌, ◌==◌, ==_iff, ==_refl, length, length-map, map-sort, ascending, sort,
}
use text.Mathlib.TextEquality.{eq_iff}
use sentinal.Base.Int.{ℤ, pos}
use sentinal.Threats.Command.{MapThreat}
use sentinal.WorldMap.Arcs.{threat_score, sorted}
use sentinal.WorldMap.Memo.{
  MapProps, Given, undefined, null, value, given, is_critical, marker_color, marker, markers,
  same_given, same_text, same_handler, same_threat, same_threats, same_props,
}

-- A threat somewhere else, under another label.
abbrev pub moved : (MapThreat → ℤ × ℤ × Option String) → MapThreat → MapThreat
moved to t = record t { lat = (to t).0; lon = (to t).1; label = (to t).2 }

abbrev canon : MapThreat → MapThreat
canon = moved (λ t. (pos 0, pos 0, none))

both : (a b : Bool) → a && b ≡ true → (a ≡ true) × (b ≡ true)
both true true h = (refl, refl)
both true false h = cc
both false b h = cc

same_threat-canon : (a b : MapThreat) → same_threat a b ≡ true → canon a ≡ canon b
unfolding same_threat
same_threat-canon a b h =
    let (first, k) = both (a.id =? b.id && (a.score == b.score)) (a.action =? b.action) h in
    let (i, s) = both (a.id =? b.id) (a.score == b.score) first in
    rw ((eq_iff a.id b.id).0 i, (==_iff a.score b.score).0 s, (eq_iff a.action b.action).0 k) refl

same_threats-canon :
    (xs ys : List MapThreat)
    → length xs ≡ length ys
    → same_threats xs ys ≡ true
    → map canon xs ≡ map canon ys
unfolding same_threats
same_threats-canon [] [] l h = refl
same_threats-canon [] (y ∷ ys) l h = absurd (omega (arith, l))
same_threats-canon (x ∷ xs) [] l h = absurd (omega (arith, l))
same_threats-canon (x ∷ xs) (y ∷ ys) l h =
    let (first, rest) = both (same_threat x y) (same_threats xs ys) h in
    let e = same_threat-canon x y first in
    let es = same_threats-canon xs ys (omega (arith, l)) rest in rw (e, es) refl

map-canon :
    (s : Option String) (xs : List MapThreat) → map (marker s) xs ≡ map (marker s) (map canon xs)
unfolding marker marker_color is_critical
map-canon s [] = refl
map-canon s (x ∷ xs) = ap (◌∷◌ (marker s x)) (map-canon s xs)

markers-canon :
    (s : Option String) (xs : List MapThreat)
    → markers s xs ≡ map (marker s) (sort (ascending threat_score) (map canon xs))
unfolding markers sorted
markers-canon s xs =
    map-canon s (sorted xs)
    ∙ ap (map (marker s))
        (map-sort canon (ascending threat_score) (ascending threat_score) (λ x y. refl) xs)

same_given-eq : (a b : Given String) → same_given a b ≡ true → a ≡ b
unfolding same_given
same_given-eq undefined undefined h = refl
same_given-eq undefined null h = cc
same_given-eq undefined (value b) h = cc
same_given-eq null undefined h = cc
same_given-eq null null h = refl
same_given-eq null (value b) h = cc
same_given-eq (value a) undefined h = cc
same_given-eq (value a) null h = cc
same_given-eq (value a) (value b) h = ap value ((eq_iff a b).0 h)

-- What a true comparison has compared.
same_props-parts :
    (p n : MapProps)
    → same_props p n ≡ true
    → (same_given p.selected_id n.selected_id ≡ true)
      × (length p.threats ≡ length n.threats)
      × (same_threats p.threats n.threats ≡ true)
unfolding same_props
same_props-parts p n h = ground arith

-- When the comparator says that a render may be skipped, every marker has the identity, the color, the
-- size and the selection that the render would give it, in the same order of painting.
pub same_props-markers :
    (p n : MapProps)
    → same_props p n ≡ true
    → markers (given p.selected_id) p.threats ≡ markers (given n.selected_id) n.threats
same_props-markers p n h =
    let (s, l, t) = same_props-parts p n h in
    let e = same_given-eq p.selected_id n.selected_id s in
    markers-canon (given p.selected_id) p.threats
    ∙ rw (e, same_threats-canon p.threats n.threats l t) refl
    ∙ sym (markers-canon (given n.selected_id) n.threats)

same_threats-moved :
    (to : MapThreat → ℤ × ℤ × Option String) (xs : List MapThreat)
    → same_threats xs (map (moved to) xs) ≡ true
unfolding same_threats same_threat
same_threats-moved to [] = refl
same_threats-moved to (x ∷ xs) =
    rw ((eq_iff x.id x.id).1 refl, ==_refl x.score, (eq_iff x.action x.action).1 refl)
      (same_threats-moved to xs)

same_given_refl : (g : Given String) → same_given g g ≡ true
unfolding same_given
same_given_refl undefined = refl
same_given_refl null = refl
same_given_refl (value t) = (eq_iff t t).1 refl

same_handler_refl : (h : Option ℕ) → same_handler h h ≡ true
same_handler_refl none = refl
same_handler_refl (some n) = ==_refl n

same_text_refl : (o : Option String) → same_text o o ≡ true
same_text_refl none = refl
same_text_refl (some t) = (eq_iff t t).1 refl

-- The comparator does not see that threats have moved or are called otherwise: a render that changes
-- nothing but positions and labels is skipped.
pub same_props-moved :
    (to : MapThreat → ℤ × ℤ × Option String) (p : MapProps)
    → same_props p (record p { threats = map (moved to) p.threats }) ≡ true
unfolding same_props
same_props-moved to p =
    rw
      (
        same_given_refl p.selected_id,
        same_handler_refl p.on_select,
        same_text_refl p.class_name,
        length-map (moved to) p.threats,
        ==_refl (length p.threats),
      )
      (same_threats-moved to p.threats)
