-- ===== src/Alerts/Gate.antt =====
-- `AllowAlert` of alert-service/redis.go, with its script. Times are seconds of the clock of Redis; a
-- key is there before the time at which it expires.
use sentinal.Base.{
  ℕ, suc, ◌+◌, ◌≡◌, ◌≤◌, ◌<◌, refl, sym, ap, ◌∙◌, arith, Bool, true, false, ◌||◌, ◌&&◌, String,
  Option, none, some, List, [], ◌∷◌, ltb, leb, ◌==◌, ◌=?◌, if◌then◌else◌, Bool-cases, inl, inr, All,
}
use mathlib.Core.Bool.{false≢true}
use text.Mathlib.TextEquality.{eq_iff}

-- The count of a user and when it expires.
pub record Counter : Type 0 where
  pub amount : ℕ
  pub expires : ℕ

-- The keys `dedup:alert:…` with their times, and the keys `ratelimit:user:…`.
pub record Keys : Type 0 where
  pub dedup : String → Option ℕ
  pub rates : String → Option Counter

unfoldable pub no_keys : Keys
no_keys = record { dedup = λ a. none; rates = λ u. none }

abbrev pub update : {A : Type 0} → (String → Option A) → String → A → String → Option A
update m k v j = if j =? k then some v else m j

abbrev pub is_alive : ℕ → Option ℕ → Bool
is_alive now none = false
is_alive now (some t) = ltb now t

-- `GET`, with 0 for a key that is not there.
abbrev pub current : ℕ → Option Counter → ℕ
current now none = 0
current now (some c) = if ltb now c.expires then c.amount else 0

-- `INCR`, and `EXPIRE` where the count is 1.
abbrev pub incremented : ℕ → ℕ → Option Counter → Counter
incremented ttl now none = record { amount = 1; expires = now + ttl }
incremented ttl now (some c) =
    if ltb now c.expires
    then record { amount = suc c.amount; expires = if c.amount == 0 then now + ttl else c.expires }
    else record { amount = 1; expires = now + ttl }

unfoldable pub run_script : ℕ → ℕ → ℕ → ℕ → String → String → Keys → Bool × Keys
run_script dedup_ttl rate_limit rate_ttl now alert user k =
    if is_alive now (k.dedup alert) || leb rate_limit (current now (k.rates user))
    then (false, k)
    else (
      true,
      record {
        dedup = update k.dedup alert (now + dedup_ttl);
        rates = update k.rates user (incremented rate_ttl now (k.rates user));
      },
    )

-- Ten minutes, five alerts, one minute.
unfoldable pub allow_alert : ℕ → String → String → Keys → Bool × Keys
unfolding run_script
allow_alert now alert user k = run_script 600 5 60 now alert user k

-- A call with its time.
pub record Ask : Type 0 where
  pub now : ℕ
  pub alert : String
  pub user : String

unfoldable pub asks : List Ask → Keys → Keys
unfolding allow_alert
asks [] k = k
asks (a ∷ later) k = asks later (allow_alert a.now a.alert a.user k).1

-- The alert is marked until `t` at least.
abbrev Marked : ℕ → String → Keys → Type 0
Marked t alert k = (u : ℕ) × (k.dedup alert ≡ some u) × (t ≤ u)

allow_alert-Marked :
    (now : ℕ) (alert user : String) (k : Keys)
    → (allow_alert now alert user k).0 ≡ true
    → Marked (now + 600) alert (allow_alert now alert user k).1
unfolding allow_alert
allow_alert-Marked now alert user k h =
    elim (Bool-cases (is_alive now (k.dedup alert) || leb 5 (current now (k.rates user)))) [
      | inl refused ↦ absurd (false≢true (sym (rw refused refl) ∙ h))
      | inr free ↦ simp free (now + 600, rw ((eq_iff alert alert).1 refl) refl, omega arith)
    ]

allow_alert-Marked_stays :
    (t : ℕ) (alert : String) (k : Keys) (a : Ask)
    → a.now < t
    → Marked t alert k
    → Marked t alert (allow_alert a.now a.alert a.user k).1
unfolding allow_alert
allow_alert-Marked_stays t alert k a lt (u, e, le) =
    elim (Bool-cases (is_alive a.now (k.dedup a.alert) || leb 5 (current a.now (k.rates a.user)))) [
      | inl refused ↦ simp refused (u, e, le)
      | inr free ↦ elim (Bool-cases (alert =? a.alert)) [
        | inl same ↦
            let marked = ap k.dedup (sym ((eq_iff alert a.alert).0 same)) ∙ e in
            let alive : is_alive a.now (k.dedup a.alert) ≡ true = rw marked (ground arith) in
            absurd (false≢true (sym free ∙ rw alive refl))
        | inr other ↦ simp (free, other) (u, e, le)
      ]
    ]

asks-Marked :
    (t : ℕ) (alert : String) (later : List Ask) (k : Keys)
    → All (λ (a : Ask). a.now < t) later
    → Marked t alert k
    → Marked t alert (asks later k)
unfolding asks
asks-Marked t alert [] k h m = m
asks-Marked t alert (a ∷ later) k h m =
    asks-Marked t alert later (allow_alert a.now a.alert a.user k).1 h.1
      (allow_alert-Marked_stays t alert k a h.0 m)

refused_while :
    (t now : ℕ) (alert user : String) (k : Keys)
    → now < t
    → Marked t alert k
    → allow_alert now alert user k ≡ (false, k)
unfolding allow_alert
refused_while t now alert user k lt (u, e, le) =
    let alive : is_alive now (k.dedup alert) ≡ true = rw e (ground arith) in rw alive refl

-- An alert that was let through is refused for ten minutes, for every user and whatever else is asked
-- in between, and such a refusal changes no key.
pub allow_alert_once :
    (now next : ℕ) (alert user again : String) (later : List Ask) (k : Keys)
    → (allow_alert now alert user k).0 ≡ true
    → All (λ (a : Ask). a.now < now + 600) later
    → next < now + 600
    → let k' = asks later (allow_alert now alert user k).1 in
      allow_alert next alert again k' ≡ (false, k')
allow_alert_once now next alert user again later k h all_before lt =
    refused_while (now + 600) next alert again (asks later (allow_alert now alert user k).1) lt (
      asks-Marked (now + 600) alert later (allow_alert now alert user k).1 all_before
        (allow_alert-Marked now alert user k h))

-- How many of the calls for a user are let through.
unfoldable pub passes : String → List Ask → Keys → ℕ
passes user [] k = 0
passes user (a ∷ later) k =
    let (through, k') = allow_alert a.now a.alert a.user k in
    let rest = passes user later k' in if through && a.user =? user then suc rest else rest
