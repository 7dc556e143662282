-- ===== src/Demo/Rollups.antt =====
-- `demoGeo`, `demoFraudRate` and `demoTopThreats` of dashboard/src/lib/demo.ts. A draw k stands for
-- k / 2 ^ 32; the products are exact fractions here, which the source computes with doubles, and
-- `Math.round` of a / b is the floor of (2 a + b) / (2 b).
use sentinal.Base.{
  ℕ, zero, suc, sym, ◌<◌, ◌+◌, ◌-◌, ◌*◌, ◌/◌, ◌≡◌, refl, ◌≤◌, String, List, [], ◌∷◌, ◌&&◌, ◌||◌,
  map, max, arith, ap, Bool, ◌=?◌, leb, ◌==◌, if◌then◌else◌, Bool-cases, inl, inr, get_or,
  code_units, All, sort, descending, InOrder, descending-InOrder, sort-Perm, sort-All,
}
use mathlib.Core.List.{Perm}
use mathlib.Core.List.Perm
use native.Mathlib.Nat.{mul-le-mul_left}
use sentinal.Demo.Random.{word, next_seed, output, output-lt}
use sentinal.Demo.Tables.{Country, country_pool}

-- `Math.round(a / b)`
unfoldable pub round : ℕ → ℕ → ℕ
round a b = (a * 2 + b) / (b * 2)

-- A label with its count: `{ country, count }` and `{ threat_source, attempt_count }`.
pub record Count : Type 0 where
  pub label : String
  pub count : ℕ

-- `totals.set(key, n)`: a key keeps its place.
unfoldable set : String → ℕ → List Count → List Count
set key n [] = record { label = key; count = n } ∷ []
set key n (c ∷ cs) =
    let rest = set key n cs in
    if c.label =? key then record { label = key; count = n } ∷ cs else c ∷ rest

-- `c.code.charCodeAt(0) + c.code.charCodeAt(1)`
abbrev code_seed : String → ℕ
code_seed code = get_or (code_units code) 0 0 + get_or (code_units code) 1 0

unfoldable volume : Country → ℕ
unfolding round output next_seed
volume c =
    round (c.weight * 37 * (8 * word + 4 * output (next_seed (code_seed c.code)))) (10 * word)

unfoldable totals : List Country → List Count → List Count
unfolding set volume
totals [] counts = counts
totals (c ∷ cs) counts = totals cs (set c.code (volume c) counts)

unfoldable pub demo_geo : List Count
unfolding totals
demo_geo = sort (descending (λ (c : Count). c.count)) (totals country_pool [])

unfoldable pub top_ips : List String
top_ips =
    "185.220.101.34" ∷ "45.132.8.91" ∷ "91.219.237.14" ∷ "194.26.29.156" ∷ "62.171.177.80"
    ∷ "159.223.44.19" ∷ "51.15.203.201" ∷ "103.4.217.7" ∷ []

-- The `map`, with the generator's state before it.
unfoldable attempts : ℕ → List String → List Count
unfolding round
attempts seed [] = []
attempts seed (ip ∷ ips) =
    let seed_1 = next_seed seed in
    record { label = ip; count = round (40 * word + output seed_1 * 460) word }
    ∷ attempts seed_1 ips

unfoldable pub demo_top_threats : List Count
unfolding attempts top_ips
demo_top_threats = sort (descending (λ (c : Count). c.count)) (attempts 777 top_ips)

pub record Bucket : Type 0 where
  pub time_bucket : String
  pub total : ℕ
  pub fraud : ℕ

-- The daily curve, in hundredths.
unfoldable pub diurnal : ℕ → ℕ
diurnal hour =
    if leb 2 hour && leb hour 6
    then 45
    else if leb 10 hour && leb hour 13
    then 135
    else if leb 19 hour && leb hour 22
    then 150
    else 100

-- The bursts, in tenths.
unfoldable pub attack_burst : ℕ → ℕ
attack_burst i = if (i == 17) || (i == 6) then 31 else 10

-- `toISOString` and `getHours` are the platform's; times are milliseconds of the epoch.
module _ (to_iso_string : ℕ → String) (get_hours : ℕ → ℕ) (now : ℕ) where
  unfoldable pub bucket_total : ℕ → ℕ → ℕ
  unfolding round diurnal
  bucket_total i k =
      round ((380 * word + k * 240) * diurnal (get_hours (now - i * 3600000))) (100 * word)

  unfoldable pub bucket_fraud : ℕ → ℕ → ℕ → ℕ
  unfolding round attack_burst
  bucket_fraud i t k = max 1 (round (t * (11 * word + 12 * k) * attack_burst i) (10000 * word))

  -- The loop with `i` from `n - 1` down to 0.
  unfoldable pub buckets : ℕ → ℕ → List Bucket
  unfolding bucket_total bucket_fraud
  buckets seed zero = []
  buckets seed (suc i) =
      let seed_1 = next_seed seed in
      let seed_2 = next_seed seed_1 in
      let t = bucket_total i (output seed_1) in
      record {
        time_bucket = to_iso_string (now - i * 3600000);
        total = t;
        fraud = bucket_fraud i t (output seed_2);
      }
      ∷ buckets seed_2 i

  unfoldable pub demo_fraud_rate : List Bucket
  unfolding buckets
  demo_fraud_rate = buckets 2024 24

pub record Within (low high : ℕ) (c : Count) : Type 0 where
  pub above : low ≤ c.count
  pub below : c.count ≤ high

attempts-Within : (seed : ℕ) (ips : List String) → All (Within 40 500) (attempts seed ips)
unfolding attempts round
attempts-Within seed [] = tt
attempts-Within seed (ip ∷ ips) =
    let lt = output-lt (next_seed seed) in
    (
      record { above = omega arith; below = omega (arith, lt) },
      attempts-Within (next_seed seed) ips,
    )

attempts-label :
    (seed : ℕ) (ips : List String) → map (λ (c : Count). c.label) (attempts seed ips) ≡ ips
unfolding attempts
attempts-label seed [] = refl
attempts-label seed (ip ∷ ips) = ap (◌∷◌ ip) (attempts-label (next_seed seed) ips)

abbrev by_count : Count → Count → Bool
by_count = descending (λ (c : Count). c.count)

-- The demo's threat sources are the eight addresses of the table, each once, with 40 to 500 attempts
-- each, and no source stands behind one with fewer attempts.
pub demo_top_threats-InOrder :
    InOrder (descending (λ (c : Count). c.count)) demo_top_threats
    × Perm (map (λ (c : Count). c.label) demo_top_threats) top_ips
    × All (Within 40 500) demo_top_threats
unfolding demo_top_threats
demo_top_threats-InOrder = (
  descending-InOrder (λ c. c.count) (attempts 777 top_ips),
  rw (sym (attempts-label 777 top_ips))
      (Perm.map (λ (c : Count). c.label) (sort-Perm by_count (attempts 777 top_ips))),
  sort-All by_count (Within 40 500) _ (attempts-Within 777 top_ips),
)

share-Within :
    (w k : ℕ)
    → k < word
    → 1 ≤ w
    → w ≤ 24
    → (29 ≤ round (w * 37 * (8 * word + 4 * k)) (10 * word))
      × (round (w * 37 * (8 * word + 4 * k)) (10 * word) ≤ 1080)
unfolding round
share-Within w k h a b =
    let low : w * (37 * (8 * word)) ≤ w * (37 * (8 * word + 4 * k)) =
      mul-le-mul_left w (omega arith) in
    let high : w * (37 * (8 * word + 4 * k)) ≤ w * (37 * (12 * word)) =
      mul-le-mul_left w (omega (arith, h)) in
    (omega (arith, low, a), omega (arith, high, b))

volume-Within :
    (c : Country)
    → 1 ≤ c.weight
    → c.weight ≤ 24
    → Within 29 1080 (record { label = c.code; count = volume c })
unfolding volume
volume-Within c a b =
    let both = share-Within c.weight (output (next_seed (code_seed c.code))) (output-lt _) a b in
    record { above = both.0; below = both.1 }

set-Within :
    (key : String) (n : ℕ) (cs : List Count)
    → Within 29 1080 (record { label = key; count = n })
    → All (Within 29 1080) cs
    → All (Within 29 1080) (set key n cs)
unfolding set
set-Within key n [] w h = (w, tt)
set-Within key n (c ∷ cs) w h = elim (Bool-cases (c.label =? key)) [
  | inl e ↦ rw e (w, h.1)
  | inr e ↦ rw e (h.0, set-Within key n cs w h.1)
]

totals-Within :
    (cs : List Country) (counts : List Count)
    → All (λ (c : Country). (1 ≤ c.weight) × (c.weight ≤ 24)) cs
    → All (Within 29 1080) counts
    → All (Within 29 1080) (totals cs counts)
unfolding totals
totals-Within [] counts h k = k
totals-Within (c ∷ cs) counts h k =
    totals-Within cs (set c.code (volume c) counts) h.1
      (set-Within c.code (volume c) counts (volume-Within c h.0.0 h.0.1) k)

-- The demo's rollup by country has one entry for each country of the pool, with 29 to 1080 events,
-- and no country stands behind one with fewer events.
pub demo_geo-InOrder :
    InOrder (descending (λ (c : Count). c.count)) demo_geo
    × Perm (map (λ (c : Count). c.label) demo_geo) (map (λ (c : Country). c.code) country_pool)
    × All (Within 29 1080) demo_geo
unfolding demo_geo totals set country_pool
demo_geo-InOrder = (
  descending-InOrder (λ c. c.count) (totals country_pool []),
  Perm.map (λ (c : Count). c.label) (sort-Perm by_count (totals country_pool [])),
  sort-All by_count (Within 29 1080) _ (totals-Within country_pool [] (ground arith) tt),
)
