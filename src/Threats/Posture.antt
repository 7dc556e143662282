-- ===== src/Threats/Posture.antt =====
-- The gauges of dashboard/src/app/threats/page.tsx: shares of blocked and challenged events, and the
-- highest score.
use sentinal.Base.{
  ℕ, ◌+◌, ◌≤◌, ◌≡◌, refl, arith, String, Option, List, [], ◌∷◌, Bool, true, false, ◌⊎◌, inl,
  if◌then◌else◌, ltb, is_text, is_text-eq, max, count, length, All, count-le, any, ◌==◌,
}
use sentinal.Event.{AnalyticsEvent, score, is_blocked, is_flagged}
use sentinal.Live.{Percent, zero_percent}

unfoldable pub is_challenged : AnalyticsEvent → Bool
is_challenged e = is_text e.action "CHALLENGE"

pub record ThreatPosture : Type 0 where
  pub blocked_ratio : Percent
  pub challenge_ratio : Percent
  pub peak_score : ℕ

abbrev share : ℕ → ℕ → Percent
share part whole = if ltb 0 whole then record { part = part; whole = whole } else zero_percent

-- `events.reduce((m, e) => Math.max(m, e.risk_score ?? 0), 0)`
unfoldable pub peak : ℕ → List AnalyticsEvent → ℕ
peak m [] = m
peak m (e ∷ es) = peak (max m (score e)) es

unfoldable pub posture : List AnalyticsEvent → ThreatPosture
unfolding peak
posture es = record {
  blocked_ratio = share (count is_blocked es) (length es);
  challenge_ratio = share (count is_challenged es) (length es);
  peak_score = peak 0 es;
}

action_apart : (a : Option String) → is_text a "BLOCK" ≡ true → is_text a "CHALLENGE" ≡ false
action_apart a h = rw (is_text-eq a "BLOCK" h) refl

counts-add :
    (es : List AnalyticsEvent) → count is_blocked es + count is_challenged es ≡ count is_flagged es
unfolding is_blocked is_challenged is_flagged
counts-add [] = omega arith
counts-add (e ∷ es) = ground (arith, counts-add es, action_apart e.action)

peak-le : (m : ℕ) (es : List AnalyticsEvent) → (m ≤ peak m es) × All (λ e. score e ≤ peak m es) es
unfolding peak
peak-le m [] = (omega arith, tt)
peak-le m (e ∷ es) =
    let (up, rest) = peak-le (max m (score e)) es in (omega arith, (omega arith, rest))

abbrev Attained : ℕ → List AnalyticsEvent → ℕ → Type 0
Attained m es top = (top ≡ m) ⊎ (any (λ e. score e == top) es ≡ true)

peak-Attained : (m : ℕ) (es : List AnalyticsEvent) → Attained m es (peak m es)
unfolding peak
peak-Attained m [] = inl refl
peak-Attained m (e ∷ es) = ground (arith, peak-Attained (max m (score e)) es)

-- The peak is at least every score, and is 0 or the score of an event; the blocked and the challenged
-- share together are the share of flagged events, so that they add up to at most 100 percent.
pub posture_lem :
    (es : List AnalyticsEvent)
    → let p = posture es in
      All (λ e. score e ≤ p.peak_score) es
      × ((p.peak_score ≡ 0) ⊎ (any (λ e. score e == p.peak_score) es ≡ true))
      × (p.blocked_ratio.whole ≡ p.challenge_ratio.whole)
      × (p.blocked_ratio.part + p.challenge_ratio.part ≡ count is_flagged es)
      × (p.blocked_ratio.part + p.challenge_ratio.part ≤ p.blocked_ratio.whole)
unfolding posture
posture_lem es = (
  (peak-le 0 es).1,
  peak-Attained 0 es,
  ground arith,
  ground (
    arith,
    counts-add es,
    count-le is_flagged es,
    count-le is_blocked es,
    count-le is_challenged es,
  ),
  ground (
    arith,
    counts-add es,
    count-le is_flagged es,
    count-le is_blocked es,
    count-le is_challenged es,
  ),
)
