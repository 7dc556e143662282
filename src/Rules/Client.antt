-- ===== src/Rules/Client.antt =====
-- When a call of the rules client returns.
use sentinal.Base.{◌≡◌, ◌↔◌, inl, inr, refl, arith, true, false, String, Option, ◌==◌, Bool-cases}
use sentinal.Session.{Response, is_ok}
use sentinal.Promise.{Result, throws, returns}
use sentinal.Rules.{list_rules, create_rule, update_rule, delete_rule, rejected, saved}

-- The request ended in a success whose body could be read.
abbrev pub Good : {J : Type 0} → Result (Response (Result J)) → J → Type 0
Good (throws m) j = ⊥
Good (returns r) j = (is_ok r ≡ true) × (r.payload ≡ returns j)

-- The request ended in a success.
abbrev pub Success : {J : Type 0} → Result (Response (Result J)) → Type 0
Success (throws m) = ⊥
Success (returns r) = is_ok r ≡ true

throws≢returns : {A : Type 0} {m : String} {a : A} → throws m ≡ returns a → ⊥
throws≢returns e = cc

module _ {J : Type 0} where
  rejected-throws :
      (detail : J → Option String) (p : Result J) (j : J) → rejected detail p ≡ returns j → ⊥
  unfolding rejected
  rejected-throws detail (throws m) j e = throws≢returns e
  rejected-throws detail (returns k) j e = throws≢returns e

  ok_apart :
      (r : Response (Result J))
      → is_ok r ≡ true
      → ((r.status == 403) ≡ false) × ((r.status == 422) ≡ false)
  unfolding is_ok
  ok_apart r h = ground arith

  saved-Good :
      (detail : J → Option String) (m n : String) (r : Response (Result J)) (j : J)
      → is_ok r ≡ true
      → r.payload ≡ returns j
      → saved detail m n r ≡ returns j
  saved-Good detail m n r j h p = let (c, d) = ok_apart r h in rw (c, d, h) p

  Good-saved :
      (detail : J → Option String) (m n : String) (r : Response (Result J)) (j : J)
      → saved detail m n r ≡ returns j
      → (is_ok r ≡ true) × (r.payload ≡ returns j)
  Good-saved detail m n r j e = elim (Bool-cases (r.status == 403)) [
    | inl forbidden ↦ absurd (throws≢returns (rw forbidden at e))
    | inr c ↦ elim (Bool-cases (r.status == 422)) [
      | inl invalid ↦ absurd (rejected-throws detail r.payload j (rw (c, invalid) at e))
      | inr d ↦ elim (Bool-cases (is_ok r)) [
        | inl good ↦ (good, rw (c, d, good) at e)
        | inr bad ↦ absurd (throws≢returns (rw (c, d, bad) at e))
      ]
    ]
  ]

  create_rule-Good :
      (detail : J → Option String) (out : Result (Response (Result J))) (j : J)
      → (create_rule detail out ≡ returns j) ↔ Good out j
  unfolding create_rule
  create_rule-Good detail (throws m) j = (λ e. throws≢returns e, λ g. absurd g)
  create_rule-Good detail (returns r) j =
      (Good-saved detail _ _ r j, λ g. saved-Good detail _ _ r j g.0 g.1)

  update_rule-Good :
      (detail : J → Option String) (out : Result (Response (Result J))) (j : J)
      → (update_rule detail out ≡ returns j) ↔ Good out j
  unfolding update_rule
  update_rule-Good detail (throws m) j = (λ e. throws≢returns e, λ g. absurd g)
  update_rule-Good detail (returns r) j =
      (Good-saved detail _ _ r j, λ g. saved-Good detail _ _ r j g.0 g.1)

  list_rules-Good :
      (out : Result (Response (Result J))) (j : J) → (list_rules out ≡ returns j) ↔ Good out j
  unfolding list_rules
  list_rules-Good (throws m) j = (λ e. throws≢returns e, λ g. absurd g)
  list_rules-Good (returns r) j = elim (Bool-cases (is_ok r)) [
    | inl good ↦ rw good (λ e. (refl, e), λ g. g.1)
    | inr bad ↦ rw bad (λ e. absurd (throws≢returns e), λ g. absurd (ground (arith, g.0)))
  ]

  delete_rule-Success :
      (out : Result (Response (Result J))) → (delete_rule out ≡ returns true) ↔ Success out
  unfolding delete_rule is_ok
  delete_rule-Success (throws m) = (λ e. throws≢returns e, λ g. absurd g)
  delete_rule-Success (returns r) = ground arith

  -- A list, a new or a changed rule is returned exactly if the request ended in a success whose body
  -- could be read, and a deletion returns exactly if it ended in a success. Every other end of the
  -- request throws.
  pub rule_calls-Good :
      (detail : J → Option String) (out : Result (Response (Result J))) (j : J)
      → ((list_rules out ≡ returns j) ↔ Good out j)
        × ((create_rule detail out ≡ returns j) ↔ Good out j)
        × ((update_rule detail out ≡ returns j) ↔ Good out j)
        × ((delete_rule out ≡ returns true) ↔ Success out)
  rule_calls-Good detail out j = (
    list_rules-Good out j,
    create_rule-Good detail out j,
    update_rule-Good detail out j,
    delete_rule-Success out,
  )
