-- ===== src/Gateway/Windows.antt =====
-- The limiter against the window of time itself. A score is rounded by at most `error`, as the conversion
-- to `float64` rounds.
use sentinal.Base.{
  ℕ, suc, ◌+◌, ◌-◌, ◌≡◌, ◌≤◌, arith, Bool, true, ◌&&◌, List, [], ◌∷◌, ltb, leb, count,
  if◌then◌else◌,
}
use sentinal.Gateway.Limiter.{is_allowed}
use sentinal.Gateway.Limits.{Falling, is_recent, let_through, is_allowed_lem, let_through-le-limit}

-- A request at `t` is less than the window before `now`, by more than `slack`.
abbrev pub is_inside : ℕ → ℕ → ℕ → ℕ → Bool
is_inside window slack now t = ltb (now + slack) (t + window)

module _ (float64 : ℕ → ℕ) (window error limit : ℕ) where
  -- The requests of a history that were allowed and lie in the window of the time `now`, by more than
  -- the rounding.
  unfoldable pub passed : ℕ → List ℕ → ℕ
  passed now [] = 0
  passed now (t ∷ ts) =
      let rest = passed now ts in
      if is_inside window (error + error) now t && is_allowed float64 window limit t ts
      then suc rest
      else rest

module _ (float64 : ℕ → ℕ) (window : ℕ) (monotone : (a b : ℕ) → a ≤ b → float64 a ≤ float64 b)
    (error : ℕ) (near : (t : ℕ) → (float64 t ≤ t + error) × (t ≤ float64 t + error)) where
  recent-inside :
      (now t : ℕ) → is_recent float64 window now t ≡ true → is_inside window 0 now t ≡ true
  recent-inside now t h = ground (arith, h, monotone t (now - window))

  inside-recent :
      (now t : ℕ)
      → is_inside window (error + error) now t ≡ true
      → is_recent float64 window now t ≡ true
  inside-recent now t h = ground (arith, h, near t, near (now - window))

  count-recent :
      (now : ℕ) (ts : List ℕ)
      → (count (is_inside window (error + error) now) ts ≤ count (is_recent float64 window now) ts)
        × (count (is_recent float64 window now) ts ≤ count (is_inside window 0 now) ts)
  count-recent now [] = (omega arith, omega arith)
  count-recent now (t ∷ ts) =
      let rest = count-recent now ts in
      (ground (arith, rest, inside-recent now t), ground (arith, rest, recent-inside now t))

  module _ (limit : ℕ) where
    -- A request is allowed exactly if fewer than the limit were made before it in its window, those that
    -- were refused included. A request in the window by more than twice the rounding is among them, and
    -- none that a whole window has passed since. When the key expires plays no part.
    pub is_allowed-inside :
        (t : ℕ) (ts : List ℕ)
        → Falling (t ∷ ts)
        → (n : ℕ) × (count (is_inside window (error + error) t) ts ≤ n)
          × (n ≤ count (is_inside window 0 t) ts)
          × (is_allowed float64 window limit t ts ≡ leb (suc n) limit)
    is_allowed-inside t ts f =
        let (low, high) = count-recent t ts in
        (
          count (is_recent float64 window t) ts,
          low,
          high,
          is_allowed_lem float64 window monotone limit t ts f,
        )

    passed-le-let_through :
        (now : ℕ) (ts : List ℕ)
        → passed float64 window error limit now ts ≤ let_through float64 window limit now ts
    unfolding passed let_through
    passed-le-let_through now [] = omega arith
    passed-le-let_through now (t ∷ ts) =
        ground (arith, passed-le-let_through now ts, inside-recent now t)

    -- In no window of time are more requests allowed than the limit, but for those at its edge by no
    -- more than twice the rounding.
    pub passed-le-limit :
        (now t : ℕ) (ts : List ℕ)
        → Falling (t ∷ ts)
        → t ≤ now
        → passed float64 window error limit now (t ∷ ts) ≤ limit
    passed-le-limit now t ts f le = omega (
      arith,
      passed-le-let_through now (t ∷ ts),
      let_through-le-limit float64 window monotone limit now t ts f le,
    )
