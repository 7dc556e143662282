-- ===== src/Gateway/Limits.antt =====
-- What the limiter lets through.
use sentinal.Base.{
  ℕ, suc, ◌+◌, ◌-◌, ◌≡◌, ◌≤◌, refl, arith, ◌∙◌, sym, leb→le, Bool, false, not, ◌&&◌, some, List, [],
  ◌∷◌, leb, filter, count, length, length-filter, Bool-cases, inl, inr, if◌then◌else◌, All,
}
use sentinal.Gateway.Limiter.{Entry, no_entry, alive, is_old, allow, entry_after, is_allowed}

-- The newest first, at times that do not fall.
abbrev pub Falling : List ℕ → Type 0
Falling [] = Unit
Falling (t ∷ ts) = All (λ s. s ≤ t) ts × Falling ts

module _ (float64 : ℕ → ℕ) (window : ℕ) where
  -- A request at `t` is in the window of a later time.
  abbrev pub is_recent : ℕ → ℕ → Bool
  is_recent now t = not (is_old float64 window now (float64 t))

  abbrev still : ℕ → ℕ → Bool
  still now score = not (is_old float64 window now score)

  module _ (limit : ℕ) where
    -- The requests of a history that were allowed and lie in the window of the time `now`.
    unfoldable pub let_through : ℕ → List ℕ → ℕ
    let_through now [] = 0
    let_through now (t ∷ ts) =
        let rest = let_through now ts in
        if is_recent now t && is_allowed float64 window limit t ts then suc rest else rest

module _ (float64 : ℕ → ℕ) (window : ℕ) (monotone : (a b : ℕ) → a ≤ b → float64 a ≤ float64 b) where
  older :
      (t now score : ℕ)
      → t ≤ now
      → still float64 window t score ≡ false
      → still float64 window now score ≡ false
  older t now score h e = ground (arith, monotone (t - window) (now - window))

  count-filter :
      (t now : ℕ) (ss : List ℕ)
      → t ≤ now
      → count (still float64 window now) (filter (still float64 window t) ss)
        ≡ count (still float64 window now) ss
  count-filter t now [] h = refl
  count-filter t now (s ∷ ss) h = elim (Bool-cases (still float64 window t s)) [
    | inl kept ↦ let ih = count-filter t now ss h in rw kept (ground (arith, ih))
    | inr dropped ↦
        let gone = older t now s h dropped in
        let ih = count-filter t now ss h in rw (dropped, gone) ih
  ]

  -- The scores are no later than the last request, at which the time to live was set.
  record Held (last : ℕ) (e : Entry) : Type 0 where
    until : e.expires ≡ some (last + window)
    before : All (λ s. s ≤ float64 last) e.scores

  none_still :
      (last now : ℕ) (ss : List ℕ)
      → last + window ≤ now
      → All (λ s. s ≤ float64 last) ss
      → count (still float64 window now) ss ≡ 0
  none_still last now [] h a = refl
  none_still last now (s ∷ ss) h a =
      ground (arith, none_still last now ss h a.1, monotone last (now - window), a.0)

  All-filter_held :
      (now last : ℕ) (ss : List ℕ)
      → last ≤ now
      → All (λ s. s ≤ float64 last) ss
      → All (λ s. s ≤ float64 now) (filter (still float64 window now) ss)
  All-filter_held now last [] h a = tt
  All-filter_held now last (s ∷ ss) h a =
      let rest = All-filter_held now last ss h a.1 in
      elim (Bool-cases (still float64 window now s)) [
        | inl kept ↦ rw kept (omega (arith, monotone last now h, a.0), rest)
        | inr dropped ↦ rw dropped rest
      ]

  -- The key expires only when none of its scores is in the window any more.
  count-alive :
      (last t now : ℕ) (e : Entry)
      → t ≤ now
      → Held last e
      → count (still float64 window now) (alive t e) ≡ count (still float64 window now) e.scores
  count-alive last t now e le h = elim (Bool-cases (leb (last + window) t)) [
    | inl gone ↦
        let none_left = none_still last now e.scores (ground arith) h.before in
        simp (h.until, gone, none_left)
    | inr here ↦ simp (h.until, here)
  ]

  alive-Held : (last now : ℕ) (e : Entry) → Held last e → All (λ s. s ≤ float64 last) (alive now e)
  alive-Held last now e h = elim (Bool-cases (leb (last + window) now)) [
    | inl gone ↦ simp (h.until, gone) tt
    | inr here ↦ simp (h.until, here) h.before
  ]

  module _ (limit : ℕ) where
    entry_after-Held :
        (t : ℕ) (ts : List ℕ)
        → Falling (t ∷ ts)
        → Held t (entry_after float64 window limit (t ∷ ts))
    unfolding entry_after allow no_entry
    entry_after-Held t [] f = record { until = refl; before = (omega arith, tt) }
    entry_after-Held t (s ∷ ts) f =
        let h = entry_after-Held s ts f.1 in
        let e = entry_after float64 window limit (s ∷ ts) in
        record {
          until = refl;
          before = (omega arith, All-filter_held t s (alive t e) f.0.0 (alive-Held s t e h));
        }

    -- The entry counts every request of the window, also those that were refused.
    count-entry_after :
        (now t : ℕ) (ts : List ℕ)
        → Falling (t ∷ ts)
        → t ≤ now
        → count (still float64 window now) (entry_after float64 window limit (t ∷ ts)).scores
          ≡ count (is_recent float64 window now) (t ∷ ts)
    unfolding entry_after allow no_entry
    count-entry_after now t [] f le = refl
    count-entry_after now t (s ∷ ts) f le =
        let e = entry_after float64 window limit (s ∷ ts) in
        let kept = count-filter t now (alive t e) le in
        let found = count-alive s t now e le (entry_after-Held s ts f.1) in
        let rest = count-entry_after now s ts f.1 (omega (arith, f.0.0)) in
        let all_kept = kept ∙ found ∙ rest in ground (arith, all_kept)

    kept_of_window :
        (t : ℕ) (ts : List ℕ)
        → Falling (t ∷ ts)
        → length (filter (still float64 window t) (alive t (entry_after float64 window limit ts)))
          ≡ count (is_recent float64 window t) ts
    kept_of_window t [] f = unfold entry_after no_entry in refl
    kept_of_window t (s ∷ ts) f =
        let e = entry_after float64 window limit (s ∷ ts) in
        length-filter (still float64 window t) (alive t e)
        ∙ count-alive s t t e (omega arith) (entry_after-Held s ts f.1)
        ∙ count-entry_after t s ts f.1 f.0.0

    -- A request is allowed exactly if fewer than the limit were made in its window before it, those
    -- that were refused included. When the key expires plays no part.
    pub is_allowed_lem :
        (t : ℕ) (ts : List ℕ)
        → Falling (t ∷ ts)
        → is_allowed float64 window limit t ts
          ≡ leb (suc (count (is_recent float64 window t) ts)) limit
    unfolding is_allowed allow
    is_allowed_lem t ts f = rw (kept_of_window t ts f) refl

    let_through-le :
        (now : ℕ) (ts : List ℕ)
        → let_through float64 window limit now ts ≤ count (is_recent float64 window now) ts
    unfolding let_through
    let_through-le now [] = omega arith
    let_through-le now (t ∷ ts) = ground (arith, let_through-le now ts)

    -- A request that is recent later was recent before.
    count-later :
        (t now : ℕ) (ts : List ℕ)
        → t ≤ now
        → count (is_recent float64 window now) ts ≤ count (is_recent float64 window t) ts
    count-later t now [] le = omega arith
    count-later t now (s ∷ ts) le =
        ground (arith, count-later t now ts le, older t now (float64 s) le)

    -- In no window are more requests allowed than the limit.
    pub let_through-le-limit :
        (now t : ℕ) (ts : List ℕ)
        → Falling (t ∷ ts)
        → t ≤ now
        → let_through float64 window limit now (t ∷ ts) ≤ limit
    unfolding let_through
    let_through-le-limit now t [] f le = ground (arith, is_allowed_lem t [] f)
    let_through-le-limit now t (s ∷ ts) f le =
        let before = let_through-le-limit now s ts f.1 (omega (arith, f.0.0)) in
        let few = let_through-le now (s ∷ ts) in
        let fewer = count-later t now (s ∷ ts) le in
        elim (Bool-cases (is_allowed float64 window limit t (s ∷ ts))) [
          | inl through ↦
              let bound = leb→le _ _ (sym (is_allowed_lem t (s ∷ ts) f) ∙ through) in
              rw through (ground (arith, before, few, fewer, bound))
          | inr refused ↦ rw refused (ground (arith, before))
        ]
