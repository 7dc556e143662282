-- ===== src/Alerts/Delivery.antt =====
-- How a dispatch ends.
use sentinal.Base.{
  ℕ, zero, suc, ◌*◌, ◌≡◌, ◌≤◌, refl, ap, ◌⊎◌, inl, inr, arith, Bool, true, false, String, Option,
  none, some, List, [], ◌∷◌, Bool-cases,
}
use sentinal.Alerts.Dispatch.{
  WebhookUrl, Address, Dispatcher, validate_webhook, Dispatched, is_success, attempt, after_check,
  dispatch,
}

-- So many waits, each twice the one before.
abbrev pub doubles : ℕ → ℕ → List ℕ
doubles zero seconds = []
doubles (suc k) seconds = seconds ∷ doubles k (seconds * 2)

module _ (replies : ℕ → Option ℕ) where
  -- The requests from `i` on fail, so many of them.
  abbrev pub Fails : ℕ → ℕ → Type 0
  Fails i zero = Unit
  Fails i (suc k) = (is_success (replies i) ≡ false) × Fails (suc i) k

  -- The first request from `i` on that succeeds is the one after `k` others.
  abbrev pub Succeeds : ℕ → ℕ → Type 0
  Succeeds i zero = is_success (replies i) ≡ true
  Succeeds i (suc k) = (is_success (replies i) ≡ false) × Succeeds (suc i) k

  abbrev pub Delivered : ℕ → ℕ → ℕ → Dispatched → Type 0
  Delivered left i seconds d =
      (k : ℕ) × (k ≤ left)
      × Succeeds i k
      × (d.failure ≡ none)
      × (d.dead_letter ≡ none)
      × (d.posts ≡ suc k)
      × (d.waits ≡ doubles k seconds)

  abbrev pub GivenUp : ℕ → ℕ → ℕ → Dispatched → Type 0
  GivenUp left i seconds d =
      Fails i (suc left)
      × (d.failure ≡ some "webhook delivery failed after retries")
      × (d.dead_letter ≡ some "max_retries_exceeded")
      × (d.posts ≡ suc left)
      × (d.waits ≡ doubles left seconds)

  attempt-ends :
      (stops : ℕ → Bool) (left i seconds : ℕ)
      → ((j : ℕ) → stops j ≡ false)
      → let d = attempt replies stops left i seconds in
        Delivered left i seconds d ⊎ GivenUp left i seconds d
  unfolding attempt
  attempt-ends stops zero i seconds free = elim (Bool-cases (is_success (replies i))) [
    | inl good ↦ simp good (inl (0, omega arith, good, refl, refl, refl, refl))
    | inr bad ↦ simp bad (inr ((refl, tt), refl, refl, refl, refl))
  ]
  attempt-ends stops (suc left) i seconds free =
      let rest = attempt-ends stops left (suc i) (seconds * 2) free in
      elim (Bool-cases (is_success (replies i))) [
        | inl good ↦ simp good (inl (0, omega arith, good, refl, refl, refl, refl))
        | inr bad ↦
            simp (bad, free i)
              (elim rest [
                | inl (k, le, ok, f, l, p, w) ↦
                    inl (suc k, omega (arith, le), (bad, ok), f, l, ap suc p, ap (◌∷◌ seconds) w)
                | inr (fails, f, l, p, w) ↦ inr ((refl, fails), f, l, ap suc p, ap (◌∷◌ seconds) w)
              ])
      ]

-- A dispatch that is not interrupted ends in one of three ways. A URL that is refused is sent nothing and
-- its alert is put in the queue of dead letters. Otherwise the alert is delivered by the first of at
-- most five requests that succeeds, after waits of 1, 2, 4 and 8 seconds, or all five fail and it is
-- put in that queue.
pub dispatch-ends :
    (lookup : String → Option (List Address)) (d : Dispatcher) (replies : ℕ → Option ℕ)
    (stops : ℕ → Bool) (url : Option WebhookUrl)
    → ((j : ℕ) → stops j ≡ false)
    → let r = dispatch lookup d replies stops url in
      ((e : String) × (validate_webhook lookup d url ≡ some e)
        × (r.failure ≡ some e)
        × (r.posts ≡ 0)
        × (r.dead_letter ≡ some "invalid_webhook"))
      ⊎ ((validate_webhook lookup d url ≡ none)
          × (Delivered replies 4 0 1 r ⊎ GivenUp replies 4 0 1 r))
unfolding dispatch
dispatch-ends lookup d replies stops url free = after_check-ends (validate_webhook lookup d url)
  where
    after_check-ends :
        (o : Option String)
        → let r = after_check replies stops o in
          ((e : String) × (o ≡ some e)
            × (r.failure ≡ some e)
            × (r.posts ≡ 0)
            × (r.dead_letter ≡ some "invalid_webhook"))
          ⊎ ((o ≡ none) × (Delivered replies 4 0 1 r ⊎ GivenUp replies 4 0 1 r))
    after_check-ends none = inr (refl, attempt-ends replies stops 4 0 1 free)
    after_check-ends (some e) = inl (e, refl, refl, refl, refl)
