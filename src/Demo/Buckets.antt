-- ===== src/Demo/Buckets.antt =====
-- The buckets of `demoFraudRate`.
use sentinal.Base.{
  ℕ, zero, suc, ◌<◌, ◌+◌, ◌-◌, ◌*◌, ◌≡◌, refl, ◌≤◌, String, List, [], ◌∷◌, ◌||◌, map, arith, ap,
  ◌==◌, Bool-cases, inl, inr, All,
}
use native.Mathlib.Nat.{mul-le-mul_left, mul-le-mul}
use sentinal.Demo.Random.{word, next_seed, output-lt}
use sentinal.Demo.Rollups.{
  round, diurnal, attack_burst, bucket_total, bucket_fraud, buckets, demo_fraud_rate, Bucket,
}

pub record PlausibleBucket (b : Bucket) : Type 0 where
  pub some_fraud : 1 ≤ b.fraud
  pub within_total : b.fraud ≤ b.total

abbrev pub hours_back : ℕ → List ℕ
hours_back zero = []
hours_back (suc i) = i ∷ hours_back i

module _ (to_iso_string : ℕ → String) (get_hours : ℕ → ℕ) (now : ℕ) where
  total_big : (i k : ℕ) → k < word → 171 ≤ bucket_total to_iso_string get_hours now i k
  unfolding bucket_total round diurnal
  total_big i k h = ground arith

  burst_small : (i : ℕ) → attack_burst i ≤ 31
  unfolding attack_burst
  burst_small i = elim (Bool-cases ((i == 17) || (i == 6))) [
    | inl h ↦ rw h (omega arith)
    | inr h ↦ rw h (omega arith)
  ]

  some_drawn : (i t k : ℕ) → 1 ≤ bucket_fraud to_iso_string get_hours now i t k
  unfolding bucket_fraud
  some_drawn i t k = omega arith

  fraud_share :
      (i t k : ℕ) → k < word → 171 ≤ t → bucket_fraud to_iso_string get_hours now i t k ≤ t
  unfolding bucket_fraud round
  fraud_share i t k h big =
      let share : t * (11 * word + 12 * k) ≤ t * (23 * word) =
        mul-le-mul_left t (omega (arith, h)) in
      let burst = mul-le-mul share (burst_small i) in omega (arith, burst, big)

  buckets-PlausibleBucket :
      (seed n : ℕ) → All PlausibleBucket (buckets to_iso_string get_hours now seed n)
  unfolding buckets
  buckets-PlausibleBucket seed zero = tt
  buckets-PlausibleBucket seed (suc i) =
      let big = total_big i _ (output-lt (next_seed seed)) in
      (
        record {
          some_fraud = some_drawn i _ _;
          within_total = fraud_share i _ _ (output-lt (next_seed (next_seed seed))) big;
        },
        buckets-PlausibleBucket (next_seed (next_seed seed)) i,
      )

  buckets-time :
      (seed n : ℕ)
      → map (λ (b : Bucket). b.time_bucket) (buckets to_iso_string get_hours now seed n)
        ≡ map (λ i. to_iso_string (now - i * 3600000)) (hours_back n)
  unfolding buckets
  buckets-time seed zero = refl
  buckets-time seed (suc i) =
      ap (◌∷◌ (to_iso_string (now - i * 3600000))) (buckets-time (next_seed (next_seed seed)) i)

  -- The demo's rollup has one bucket for each of the last 24 hours, the oldest first; each counts
  -- at least one fraudulent event and no more of them than events, whatever the clock's hours are.
  pub demo_fraud_rate-PlausibleBucket :
      All PlausibleBucket (demo_fraud_rate to_iso_string get_hours now)
      × (map (λ (b : Bucket). b.time_bucket) (demo_fraud_rate to_iso_string get_hours now)
          ≡ map (λ i. to_iso_string (now - i * 3600000)) (hours_back 24))
  unfolding demo_fraud_rate
  demo_fraud_rate-PlausibleBucket = (buckets-PlausibleBucket 2024 24, buckets-time 2024 24)
