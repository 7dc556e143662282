-- ===== src/Analytics/Counts.antt =====
-- The counts of the analytics page against the window of events.
use sentinal.Base.{
  ℕ, zero, suc, ◌+◌, ◌*◌, ◌<◌, ◌≡◌, refl, arith, Bool, true, false, ◌&&◌, ◌||◌, String, Option,
  none, some, List, [], ◌∷◌, ◌=?◌, ◌==◌, ltb, leb, truthy, is_text, count, length, filter, get_or,
  if◌then◌else◌, Bool-cases, inl, inr, sym, ap, ◌∙◌,
}
use mathlib.Core.Bool.{false≢true}
use text.Mathlib.TextEquality.{eq_iff}
use sentinal.Event.{AnalyticsEvent, score}
use sentinal.Analytics.{
  Counts, increment, count_of, bucket_of, bump_at, score_buckets_from, score_buckets, count_action,
  action_counts, ActionShare, share_of, action_breakdown, sum_values, total_scored,
}

abbrev pub sum : List ℕ → ℕ
sum [] = 0
sum (n ∷ ns) = n + sum ns

get-bump_at :
    (i j : ℕ) (ns : List ℕ)
    → i < length ns
    → get_or (bump_at i ns) j 0 ≡ get_or ns j 0 + (if i == j then 1 else 0)
get-bump_at i j [] h = absurd (omega arith)
get-bump_at zero zero (n ∷ ns) h = refl
get-bump_at zero (suc j) (n ∷ ns) h = ground arith
get-bump_at (suc i) zero (n ∷ ns) h = ground arith
get-bump_at (suc i) (suc j) (n ∷ ns) h = ground (arith, get-bump_at i j ns)

length-bump_at : (i : ℕ) (ns : List ℕ) → length (bump_at i ns) ≡ length ns
length-bump_at i [] = refl
length-bump_at zero (n ∷ ns) = refl
length-bump_at (suc i) (n ∷ ns) = ground (arith, length-bump_at i ns)

buckets-count :
    (j : ℕ) (ns : List ℕ) (es : List AnalyticsEvent)
    → length ns ≡ 5
    → get_or (score_buckets_from ns es) j 0 ≡ get_or ns j 0 + count (λ e. bucket_of e == j) es
unfolding score_buckets_from
buckets-count j ns [] h = omega arith
buckets-count j ns (e ∷ es) h =
    let small : bucket_of e < 5 = unfold bucket_of in omega arith in
    ground (
      arith,
      get-bump_at (bucket_of e) j ns,
      length-bump_at (bucket_of e) ns,
      buckets-count j (bump_at (bucket_of e) ns) es,
    )

-- The score lies in the twenty points of the bucket, or in the last bucket at or above 80.
abbrev pub in_bucket : ℕ → AnalyticsEvent → Bool
in_bucket j e = leb (j * 2000) (score e) && (ltb (score e) (j * 2000 + 2000) || j == 4)

count-ext :
    (p q : AnalyticsEvent → Bool) (es : List AnalyticsEvent)
    → ((e : AnalyticsEvent) → p e ≡ q e)
    → count p es ≡ count q es
count-ext p q [] h = refl
count-ext p q (e ∷ es) h = rw (h e, count-ext p q es h) refl

bucket_of-in_bucket : (j : ℕ) (e : AnalyticsEvent) → j < 5 → (bucket_of e == j) ≡ in_bucket j e
unfolding bucket_of
bucket_of-in_bucket j e h = ground arith

abbrev no_counts : List ℕ
no_counts = 0 ∷ 0 ∷ 0 ∷ 0 ∷ 0 ∷ []

zeros : (j : ℕ) → get_or no_counts j 0 ≡ 0
zeros zero = refl
zeros (suc zero) = refl
zeros (suc (suc zero)) = refl
zeros (suc (suc (suc zero))) = refl
zeros (suc (suc (suc (suc zero)))) = refl
zeros (suc (suc (suc (suc (suc j))))) = refl

-- Each of the five bars of the score histogram is the number of events whose score lies in its twenty
-- points; the last one also holds those of 100 and more.
pub score_buckets-count :
    (j : ℕ) (es : List AnalyticsEvent)
    → j < 5
    → get_or (score_buckets es) j 0 ≡ count (in_bucket j) es
unfolding score_buckets
score_buckets-count j es h = omega (
  arith,
  buckets-count j no_counts es refl,
  zeros j,
  count-ext (λ e. bucket_of e == j) (in_bucket j) es (λ e. bucket_of-in_bucket j e h),
)

apart : (i j k : String) → (i =? k) ≡ true → (i =? j) ≡ false → (j =? k) ≡ false
apart i j k h n = ground (arith, eq_iff i k, eq_iff i j, eq_iff j k)

count_of-increment :
    (k j : String) (counts : Counts)
    → count_of k (increment j counts) ≡ count_of k counts + (if j =? k then 1 else 0)
unfolding count_of increment
count_of-increment k j [] = ground arith
count_of-increment k j ((i, n) ∷ rest) = elim (Bool-cases (i =? j)) [
  | inl same ↦
      rw (same, (eq_iff i j).0 same)
        (elim (Bool-cases (j =? k)) [
          | inl hit ↦ rw hit (omega arith)
          | inr miss ↦ rw miss (omega arith)
        ])
  | inr other ↦ elim (Bool-cases (i =? k)) [
    | inl hit ↦ rw (other, hit, apart i j k hit other) (omega arith)
    | inr miss ↦ rw (other, miss) (count_of-increment k j rest)
  ]
]

blank-apart : (a k : String) → truthy (some a) ≡ false → truthy (some k) ≡ true → (a =? k) ≡ false
blank-apart a k bare full = elim (Bool-cases (a =? k)) [
  | inl same ↦
      absurd (false≢true (sym bare ∙ (ap (λ t. truthy (some t)) ((eq_iff a k).0 same) ∙ full)))
  | inr other ↦ other
]

count_of-count_action :
    (k : String) (a : Option String) (counts : Counts)
    → truthy (some k) ≡ true
    → count_of k (count_action a counts) ≡ count_of k counts + (if is_text a k then 1 else 0)
count_of-count_action k none counts h = omega arith
count_of-count_action k (some a) counts h = elim (Bool-cases (truthy (some a))) [
  | inl full ↦ rw full (count_of-increment k a counts)
  | inr bare ↦ rw (bare, blank-apart a k bare h) (omega arith)
]

action_counts-count :
    (k : String) (counts : Counts) (es : List AnalyticsEvent)
    → truthy (some k) ≡ true
    → count_of k (action_counts counts es) ≡ count_of k counts + count (λ e. is_text e.action k) es
unfolding action_counts
action_counts-count k counts [] h = omega arith
action_counts-count k counts (e ∷ es) h = ground (
  arith,
  count_of-count_action k e.action counts h,
  action_counts-count k (count_action e.action counts) es h,
)

sum_values-filter :
    (ds : List ActionShare)
    → sum_values (filter (λ (d : ActionShare). ltb 0 d.value) ds) ≡ sum_values ds
sum_values-filter [] = refl
sum_values-filter (d ∷ ds) = ground (arith, sum_values-filter ds)

-- The total under the breakdown is the number of events that were allowed, reviewed, challenged or
-- blocked.
pub total_scored-count :
    (es : List AnalyticsEvent)
    → total_scored es
      ≡ count (λ e. is_text e.action "ALLOW") es
        + count (λ e. is_text e.action "REVIEW") es
        + count (λ e. is_text e.action "CHALLENGE") es
        + count (λ e. is_text e.action "BLOCK") es
unfolding total_scored action_breakdown
total_scored-count es =
    let at = λ (k : String) (h : truthy (some k) ≡ true). action_counts-count k [] es h in
    omega (
      arith,
      sum_values-filter (
          share_of (action_counts [] es) "ALLOW" "#10b981"
          ∷ share_of (action_counts [] es) "REVIEW" "#eab308"
          ∷ share_of (action_counts [] es) "CHALLENGE" "#f97316"
          ∷ share_of (action_counts [] es) "BLOCK" "#f43f5e"
          ∷ []),
      at "ALLOW" refl,
      at "REVIEW" refl,
      at "CHALLENGE" refl,
      at "BLOCK" refl,
    )
