-- ===== src/Gateway/Limiter.antt =====
-- The sliding-window limiter of gateway/internal/ratelimit/sliding_window.go, for one key. Times are
-- nanoseconds of one clock; `float64` is the conversion that a score goes through. The members of the
-- sorted set are distinct, since each carries a new UUID.
use sentinal.Base.{
  ℕ, ◌+◌, ◌-◌, Bool, not, ◌&&◌, Option, none, some, List, [], ◌∷◌, leb, filter, length,
  if◌then◌else◌,
}

-- The sorted set as its scores, the newest first, and when the key expires.
pub record Entry : Type 0 where
  pub scores : List ℕ
  pub expires : Option ℕ

unfoldable pub no_entry : Entry
no_entry = record { scores = []; expires = none }

-- What Redis finds under the key.
abbrev pub unexpired : ℕ → List ℕ → Option ℕ → List ℕ
unexpired now scores none = scores
unexpired now scores (some t) = if leb t now then [] else scores

abbrev pub alive : ℕ → Entry → List ℕ
alive now e = unexpired now e.scores e.expires

module _ (float64 : ℕ → ℕ) (window : ℕ) where
  -- A score from 0 to `windowStart`; before a whole window has passed that range is empty.
  abbrev pub is_old : ℕ → ℕ → Bool
  is_old now score = leb window now && leb score (float64 (now - window))

  -- `Allow`, where the pipeline runs.
  unfoldable pub allow : ℕ → ℕ → Entry → Entry × Bool
  allow limit now e =
      let kept = filter (λ score. not (is_old now score)) (alive now e) in
      let scores = float64 now ∷ kept in
      (record { scores = scores; expires = some (now + window) }, leb (length scores) limit)

  -- A request with its time and the answer, and the entry after a history of requests, the newest
  -- first.
  unfoldable pub entry_after : ℕ → List ℕ → Entry
  unfolding allow no_entry
  entry_after limit [] = no_entry
  entry_after limit (t ∷ ts) = (allow limit t (entry_after limit ts)).0

  unfoldable pub is_allowed : ℕ → ℕ → List ℕ → Bool
  unfolding allow entry_after
  is_allowed limit t ts = (allow limit t (entry_after limit ts)).1
