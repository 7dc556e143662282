-- ===== src/Live/Merge.antt =====
-- Merging a live event into the window.
use sentinal.Base.{
  ℕ, zero, suc, ◌≡◌, refl, ap, ◌∙◌, arith, Bool, true, not, String, Option, none, some, List, [],
  ◌∷◌, take, filter, All, All-filter, All-take, filter_kept, All-filter_self, take-take, Bool-cases,
  inl, inr,
}
use text.Mathlib.TextPositions.{eq_refl}
use sentinal.Event.{AnalyticsEvent, event_key, key_eq}
use sentinal.Live.{Live, receive, without_key, merge}

-- No two events have the same key; two events without a key count as the same.
abbrev pub Distinct : List AnalyticsEvent → Type 0
Distinct [] = Unit {0}
Distinct (e ∷ es) = All (λ x. not (key_eq (event_key x) (event_key e)) ≡ true) es × Distinct es

Distinct-filter :
    (p : AnalyticsEvent → Bool) (es : List AnalyticsEvent) → Distinct es → Distinct (filter p es)
Distinct-filter p [] d = tt
Distinct-filter p (e ∷ es) d = elim (Bool-cases (p e)) [
  | inl kept ↦ rw kept (All-filter _ p es d.0, Distinct-filter p es d.1)
  | inr cut ↦ rw cut (Distinct-filter p es d.1)
]

Distinct-take : (n : ℕ) (es : List AnalyticsEvent) → Distinct es → Distinct (take n es)
Distinct-take zero es d = tt
Distinct-take (suc n) [] d = tt
Distinct-take (suc n) (e ∷ es) d = (All-take _ n es d.0, Distinct-take n es d.1)

key_eq_refl : (k : Option String) → key_eq k k ≡ true
key_eq_refl none = refl
key_eq_refl (some a) = eq_refl a

merge-Distinct :
    (e : AnalyticsEvent) (es : List AnalyticsEvent) → Distinct es → Distinct (merge e es)
unfolding merge
merge-Distinct e es d =
    Distinct-take 50 (e ∷ without_key (event_key e) es)
      (All-filter_self _ es, Distinct-filter _ es d)

-- A window without repeated keys stays so when live events arrive.
pub receive-Distinct :
    (e : AnalyticsEvent) (l : Live) → Distinct l.events → Distinct (receive e l).events
unfolding receive
receive-Distinct e l d = ground (arith, merge-Distinct e l.events d)

without_key-take :
    (k : Option String) (n : ℕ) (es : List AnalyticsEvent)
    → without_key k (take n (without_key k es)) ≡ take n (without_key k es)
unfolding without_key
without_key-take k n es = filter_kept _ _ (All-take _ n _ (All-filter_self _ es))

merge-merge : (e : AnalyticsEvent) (es : List AnalyticsEvent) → merge e (merge e es) ≡ merge e es
unfolding merge without_key
merge-merge e es = rw key_eq_refl (
    ap (λ r. e ∷ take 49 r) (without_key-take (event_key e) 49 es)
    ∙ ap (◌∷◌ e) (take-take 49 49 (without_key (event_key e) es) (omega arith)))

-- An event that is delivered twice in a row leaves the hook as one delivery does.
pub receive-receive : (e : AnalyticsEvent) (l : Live) → receive e (receive e l) ≡ receive e l
unfolding receive
receive-receive e l = ground (arith, merge-merge e l.events)
