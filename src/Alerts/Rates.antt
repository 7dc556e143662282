-- ===== src/Alerts/Rates.antt =====
-- The rate of a user's alerts.
use mathlib.Core.Bool.{false≢true}
use text.Mathlib.TextEquality.{eq_iff}
use sentinal.Base.{
  ℕ, suc, ◌+◌, ◌≡◌, ◌≤◌, ◌<◌, refl, sym, ap, ◌∙◌, arith, Bool, true, false, ◌||◌, ◌&&◌, String,
  Option, none, some, List, [], ◌∷◌, leb, ◌=?◌, Bool-cases, inl, inr, All,
}
use sentinal.Alerts.Gate.{Counter, Keys, Ask, is_alive, current, incremented, allow_alert, passes}

-- The count of the user, which lives until `e`.
record Counted (user : String) (n e : ℕ) (k : Keys) : Type 0 where
  kept : k.rates user ≡ some (record { amount = n; expires = e })
  some_passed : 1 ≤ n
  few : n ≤ 5

bump : Bool → ℕ → ℕ
bump true n = suc n
bump false n = n

counts_on :
    (now n e : ℕ)
    → now < e
    → 1 ≤ n
    → incremented 60 now (some (record { amount = n; expires = e }))
      ≡ record { amount = suc n; expires = e }
counts_on now n e lt pos = ground arith

allow_alert-Counted :
    (user : String) (n e : ℕ) (k : Keys) (a : Ask)
    → a.now < e
    → Counted user n e k
    → let (through, k') = allow_alert a.now a.alert a.user k in
      Counted user (bump (through && a.user =? user) n) e k'
unfolding allow_alert bump
allow_alert-Counted user n e k a lt c =
    elim (Bool-cases (is_alive a.now (k.dedup a.alert) || leb 5 (current a.now (k.rates a.user)))) [
      | inl refused ↦ simp refused c
      | inr free ↦ elim (Bool-cases (a.user =? user)) [
        | inr other ↦
            let back : (user =? a.user) ≡ false =
              ground (arith, eq_iff user a.user, eq_iff a.user user) in
            simp (free, other)
              (record { kept = simp (back) c.kept; some_passed = c.some_passed; few = c.few })
        | inl same ↦
            let eq = (eq_iff a.user user).0 same in
            let own : k.rates a.user ≡ some (record { amount = n; expires = e }) =
              ap k.rates eq ∙ c.kept in
            let back : (user =? a.user) ≡ true = (eq_iff user a.user).1 (sym eq) in
            let below : n < 5 =
              room a.now n e (is_alive a.now (k.dedup a.alert)) lt (rw own at free) in
            simp (free, same)
              (record {
                kept = simp (back, own, counts_on a.now n e lt c.some_passed) refl;
                some_passed = omega arith;
                few = omega arith;
              })
      ]
    ]
  where
    room :
        (now n e : ℕ) (b : Bool)
        → now < e
        → (b || leb 5 (current now (some (record { amount = n; expires = e })))) ≡ false
        → n < 5
    room now n e b lt h = ground arith

passes-le :
    (user : String) (n e : ℕ) (later : List Ask) (k : Keys)
    → All (λ (a : Ask). a.now < e) later
    → Counted user n e k
    → n + passes user later k ≤ 5
unfolding passes bump
passes-le user n e [] k h c = omega (arith, c.few)
passes-le user n e (a ∷ later) k h c =
    let (through, k') = allow_alert a.now a.alert a.user k in
    let b = through && a.user =? user in
    let rest = passes-le user (bump b n) e later k' h.1 (allow_alert-Counted user n e k a h.0 c) in
    ground (arith, rest)

-- The user's count is not there, or has expired.
abbrev pub IsFresh : ℕ → Option Counter → Type 0
IsFresh now none = Unit
IsFresh now (some c) = c.expires ≤ now

fresh_count :
    (now : ℕ) (o : Option Counter)
    → IsFresh now o
    → incremented 60 now o ≡ record { amount = 1; expires = now + 60 }
fresh_count now none h = refl
fresh_count now (some c) h = ground (arith, h)

first-Counted :
    (now : ℕ) (alert user : String) (k : Keys)
    → IsFresh now (k.rates user)
    → (allow_alert now alert user k).0 ≡ true
    → Counted user 1 (now + 60) (allow_alert now alert user k).1
unfolding allow_alert
first-Counted now alert user k f h =
    elim (Bool-cases (is_alive now (k.dedup alert) || leb 5 (current now (k.rates user)))) [
      | inl refused ↦ absurd (false≢true (sym (rw refused refl) ∙ h))
      | inr free ↦
          let own : (user =? user) ≡ true = (eq_iff user user).1 refl in
          simp free (record {
            kept = simp (own, fresh_count now (k.rates user) f) refl;
            some_passed = omega arith;
            few = omega arith;
          })
    ]

-- Of a user's alerts at most five are let through in the minute that begins with one that finds no
-- count of the user, that one included, whatever is asked for other users in between. A minute that
-- begins later may see more.
pub passes_per_minute :
    (now : ℕ) (alert user : String) (later : List Ask) (k : Keys)
    → IsFresh now (k.rates user)
    → (allow_alert now alert user k).0 ≡ true
    → All (λ (a : Ask). a.now < now + 60) later
    → suc (passes user later (allow_alert now alert user k).1) ≤ 5
passes_per_minute now alert user later k f h before =
    let c = first-Counted now alert user k f h in
    omega (arith, passes-le user 1 (now + 60) later (allow_alert now alert user k).1 before c)
