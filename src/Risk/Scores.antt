-- ===== src/Risk/Scores.antt =====
-- The scores of risk-engine/app/domain: velocity (features.py), address (ip_intelligence.py), and their
-- weighted sum (risk_aggregator.py) under the settings of risk-engine/app/core/config.py. A score is
-- in hundredths of a point, a weight in hundredths, so that their sum is in ten thousandths. `round2`
-- is Python's `round(x, 2)` of such a sum, in hundredths.
use sentinal.Base.{
  ℕ, ◌+◌, ◌-◌, ◌*◌, ◌≤◌, Bool, true, String, Option, none, some, ◌or◌, ltb, leb, min, includes,
  if◌then◌else◌,
}
use sentinal.Base.Int.{ℤ, pos, pos_part, neg_part}

-- The features that count for velocity: whole numbers, as Redis counts them.
pub record Velocity : Type 0 where
  pub failures_1m : ℕ
  pub attempts_5m : ℕ
  pub unique_ips_1h : ℕ
  pub unique_devices_24h : ℕ

-- In points.
unfoldable pub velocity_score : Velocity → ℕ
velocity_score v =
    let failures = if ltb 5 v.failures_1m then 40 else if ltb 2 v.failures_1m then 20 else 0 in
    let attempts = if ltb 10 v.attempts_5m then 30 else if ltb 5 v.attempts_5m then 15 else 0 in
    let ips = if ltb 5 v.unique_ips_1h then 20 else 0 in
    let devices = if ltb 3 v.unique_devices_24h then 10 else 0 in
    min (failures + attempts + ips + devices) 100

-- What ip-api.com says of an address. `none` for a missing provider.
pub record IpData : Type 0 where
  pub proxy : Bool
  pub hosting : Bool
  pub isp : Option String

-- In points, and `none` for the empty answer of a lookup that failed.
unfoldable pub compute_score : (String → String) → Option IpData → ℕ
compute_score lower none = 30
compute_score lower (some d) =
    let proxy = if d.proxy then 35 else 0 in
    let hosting = if d.hosting then 30 else 0 in
    let tor = if includes "tor" (lower (d.isp or "")) then 40 else 0 in
    min (proxy + hosting + tor) 100

-- Weights and thresholds may be negative; they have two digits, as the defaults do.
pub record Settings : Type 0 where
  pub weight_rules : ℤ
  pub weight_ml : ℤ
  pub weight_ip : ℤ
  pub weight_velocity : ℤ
  pub block_threshold : ℤ
  pub challenge_threshold : ℤ
  pub review_threshold : ℤ
  pub fail_open : Bool

unfoldable pub default_settings : Settings
default_settings = record {
  weight_rules = pos 30;
  weight_ml = pos 45;
  weight_ip = pos 15;
  weight_velocity = pos 10;
  block_threshold = pos 8000;
  challenge_threshold = pos 6000;
  review_threshold = pos 4000;
  fail_open = true;
}

pub record Scores : Type 0 where
  pub rules : ℕ
  pub ml : ℕ
  pub ip : ℕ
  pub velocity : ℕ

pub data Action : Type 0 where
  allow review challenge block : Action

abbrev pub rank : Action → ℕ
rank allow = 0
rank review = 1
rank challenge = 2
rank block = 3

-- The sum over the positive parts of the weights, or over the negative ones.
abbrev pub sum_of : (ℤ → ℕ) → Settings → Scores → ℕ
sum_of part s x =
    x.rules * part s.weight_rules
    + x.ml * part s.weight_ml
    + x.ip * part s.weight_ip
    + x.velocity * part s.weight_velocity

-- `max(final, 0.0)` of the weighted sum: the subtraction stops at 0.
unfoldable pub weighted : Settings → Scores → ℕ
weighted s x = sum_of pos_part s x - sum_of neg_part s x

-- A final score is not negative.
abbrev pub reaches : ℤ → ℕ → Bool
reaches threshold final = leb (pos_part threshold) final

unfoldable pub action_of : Settings → ℕ → Action
action_of s final =
    if reaches s.block_threshold final
    then block
    else if reaches s.challenge_threshold final
    then challenge
    else if reaches s.review_threshold final
    then review
    else allow

-- A rounding to the nearest hundredth, whatever it does with a tie.
abbrev pub IsNearest : (ℕ → ℕ) → Type 0
IsNearest round2 = (v : ℕ) → (v ≤ round2 v * 100 + 50) × (round2 v * 100 ≤ v + 50)

module _ (round2 : ℕ → ℕ) where
  unfoldable pub final_score : Settings → Scores → ℕ
  unfolding weighted
  final_score s x = round2 (min (weighted s x) 1000000)

  unfoldable pub aggregate : Settings → Scores → ℕ × Action
  unfolding final_score action_of
  aggregate s x = (final_score s x, action_of s (final_score s x))
