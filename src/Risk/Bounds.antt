-- ===== src/Risk/Bounds.antt =====
-- Bounds and monotonicity of the scores.
use sentinal.Base.{
  ℕ, ◌+◌, ◌*◌, ◌≤◌, ◌≡◌, arith, String, Option, none, some, min, ◌==◌, ◌<◌, Bool-cases, inl, inr,
}
use sentinal.Risk.Scores.{
  Velocity, velocity_score, IpData, compute_score, Settings, default_settings, Scores, rank, review,
  sum_of, weighted, action_of, IsNearest, final_score, aggregate,
}
use sentinal.Base.Int.{pos_part, neg_part}

pub velocity_score-le : (v : Velocity) → velocity_score v ≤ 100
unfolding velocity_score
velocity_score-le v = omega arith

pub compute_score-le : (lower : String → String) (d : Option IpData) → compute_score lower d ≤ 100
unfolding compute_score
compute_score-le lower none = omega arith
compute_score-le lower (some d) = omega arith

-- No component of the first is greater.
pub record Below (x y : Scores) : Type 0 where
  pub rules : x.rules ≤ y.rules
  pub ml : x.ml ≤ y.ml
  pub ip : x.ip ≤ y.ip
  pub velocity : x.velocity ≤ y.velocity

mul_mono : (a b c : ℕ) → a ≤ b → a * c ≤ b * c
mul_mono a b c h = grind arith

-- No weight is negative.
pub record IsNonNegative (s : Settings) : Type 0 where
  pub rules : neg_part s.weight_rules ≡ 0
  pub ml : neg_part s.weight_ml ≡ 0
  pub ip : neg_part s.weight_ip ≡ 0
  pub velocity : neg_part s.weight_velocity ≡ 0

no_negative : (s : Settings) (x : Scores) → IsNonNegative s → weighted s x ≡ sum_of pos_part s x
unfolding weighted
no_negative s x n = rw (n.rules, n.ml, n.ip, n.velocity) (omega arith)

weighted_mono :
    (s : Settings) (x y : Scores) → IsNonNegative s → Below x y → weighted s x ≤ weighted s y
weighted_mono s x y n b =
    let r = mul_mono x.rules y.rules (pos_part s.weight_rules) b.rules in
    let m = mul_mono x.ml y.ml (pos_part s.weight_ml) b.ml in
    let i = mul_mono x.ip y.ip (pos_part s.weight_ip) b.ip in
    let v = mul_mono x.velocity y.velocity (pos_part s.weight_velocity) b.velocity in
    omega (arith, r, m, i, v, no_negative s x n, no_negative s y n)

nearest_mono : (round2 : ℕ → ℕ) (a b : ℕ) → IsNearest round2 → a ≤ b → round2 a ≤ round2 b
nearest_mono round2 a b near h = elim (Bool-cases (a == b)) [
  | inl same ↦ let e : a ≡ b = ground (arith, same) in rw e (omega arith)
  | inr other ↦ let lt : a < b = ground (arith, other) in omega (arith, near a, near b)
]

action_of_mono : (s : Settings) (a b : ℕ) → a ≤ b → rank (action_of s a) ≤ rank (action_of s b)
unfolding action_of
action_of_mono s a b h = ground arith

-- For weights that are not negative, and any thresholds, no score of a component lowers the outcome:
-- where no component is greater, neither the final score nor the action is. Weights and thresholds
-- have two digits.
pub aggregate_mono :
    (round2 : ℕ → ℕ) (s : Settings) (x y : Scores)
    → IsNearest round2
    → IsNonNegative s
    → Below x y
    → ((aggregate round2 s x).0 ≤ (aggregate round2 s y).0)
      × (rank (aggregate round2 s x).1 ≤ rank (aggregate round2 s y).1)
unfolding aggregate final_score
aggregate_mono round2 s x y near n b =
    let w = weighted_mono s x y n b in
    let f =
      nearest_mono round2 (min (weighted s x) 1000000) (min (weighted s y) 1000000) near
        (omega (arith, w)) in
    (f, action_of_mono s _ _ f)

-- Each component is at most 100 points.
pub record InRange (x : Scores) : Type 0 where
  pub rules : x.rules ≤ 10000
  pub ml : x.ml ≤ 10000
  pub ip : x.ip ≤ 10000
  pub velocity : x.velocity ≤ 10000

no_model-final :
    (round2 : ℕ → ℕ) (x : Scores)
    → IsNearest round2
    → InRange x
    → x.ml ≡ 0
    → final_score round2 default_settings x ≤ 5500
unfolding final_score weighted default_settings
no_model-final round2 x near r no_ml =
    let sum = x.rules * 30 + x.ml * 45 + x.ip * 15 + x.velocity * 10 in
    let small : sum ≤ 550000 = omega arith in omega (arith, near (min sum 1000000))

pub low-review : (f : ℕ) → f ≤ 5500 → rank (action_of default_settings f) ≤ rank review
unfolding action_of default_settings
low-review f h = ground arith

-- Without a model, which counts as a score of 0, no request is challenged or blocked under the default
-- settings, whatever the other three scores are.
pub aggregate-no_model :
    (round2 : ℕ → ℕ) (x : Scores)
    → IsNearest round2
    → InRange x
    → x.ml ≡ 0
    → ((aggregate round2 default_settings x).0 ≤ 5500)
      × (rank (aggregate round2 default_settings x).1 ≤ rank review)
unfolding aggregate
aggregate-no_model round2 x near r no_ml =
    let f = no_model-final round2 x near r no_ml in (f, low-review _ f)
