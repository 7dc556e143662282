-- ===== src/Risk/Firing.antt =====
-- What an evaluation over the cache finds, said of the table.
use sentinal.Base.{
  ℕ, max, ◌≡◌, ◌≤◌, refl, ap, ◌∙◌, ◌⊎◌, inl, inr, arith, Bool, true, false, ◌&&◌, String, Option,
  none, some, List, [], ◌∷◌, ◌++◌, map, filter, All, leb, Bool-cases, Option-cases, sort, InOrder,
  descending, filter-sort-Perm, All-filter, descending-InOrder, sym,
}
use mathlib.Core.List.{append_assoc, append-nil, Perm}
use sentinal.Risk.Repo.{StoredRule, Table, get_all_enabled}
use sentinal.Risk.Engine.{
  Evaluation, nothing_found, cached, compile_all, load_rules, is_true, evaluate_rule, evaluate_all,
}

-- The greatest contribution, from `m` on.
abbrev pub greatest : ℕ → List StoredRule → ℕ
greatest m [] = m
greatest m (r ∷ rs) = greatest (max m r.score_contribution) rs

-- Some rule of the list contributes `m`.
abbrev pub Contributes : ℕ → List StoredRule → Type 0
Contributes m [] = ⊥
Contributes m (r ∷ rs) = (r.score_contribution ≡ m) ⊎ Contributes m rs

module _ {Compiled Vector : Type 0} (parse : String → Option Compiled)
    (eval : Compiled → Vector → Option Bool) (v : Vector) where
  abbrev pub matches : Option Compiled → Bool
  matches none = false
  matches (some c) = is_true (eval c v)

  -- The rule is enabled, compiles, and its expression is true of the features.
  abbrev pub fires : StoredRule → Bool
  fires r = r.is_enabled && matches (parse r.expression)

  -- The specification: the rules that fire, in their order, and the greatest of their contributions.
  abbrev pub found : Evaluation → List StoredRule → Evaluation
  found e rs = record {
    max_score = greatest e.max_score rs;
    triggered_ids = e.triggered_ids ++ map (λ (r : StoredRule). r.rule_id) rs;
    triggered_db_ids = e.triggered_db_ids ++ map (λ (r : StoredRule). r.id) rs;
  }

  found_more :
      (e : Evaluation) (r : StoredRule) (c : Compiled) (rs : List StoredRule)
      → is_true (eval c v) ≡ true
      → found (evaluate_rule eval v e (cached parse r c)) rs ≡ found e (r ∷ rs)
  unfolding evaluate_rule
  found_more e r c rs h = simp (h, append_assoc)

  found_none :
      (e : Evaluation) (r : StoredRule) (c : Compiled)
      → is_true (eval c v) ≡ false
      → evaluate_rule eval v e (cached parse r c) ≡ e
  unfolding evaluate_rule
  found_none e r c h = simp h

  pub evaluate_all-found :
      (rs : List StoredRule) (e : Evaluation)
      → evaluate_all eval v e (compile_all parse rs) ≡ found e (filter fires rs)
  unfolding evaluate_all compile_all
  evaluate_all-found [] e = simp append-nil
  evaluate_all-found (r ∷ rs) e = elim (Bool-cases r.is_enabled) [
    | inr off ↦ simp off (evaluate_all-found rs e)
    | inl on ↦ elim (Option-cases (parse r.expression)) [
      | inl broken ↦ simp (on, broken) (evaluate_all-found rs e)
      | inr (c, compiles) ↦ elim (Bool-cases (is_true (eval c v))) [
        | inl match ↦
            simp (on, compiles, match)
              (evaluate_all-found rs (evaluate_rule eval v e (cached parse r c))
                ∙ found_more e r c (filter fires rs) match)
        | inr other ↦
            simp (on, compiles, other)
              (ap (λ (x : Evaluation). evaluate_all eval v x (compile_all parse rs))
                  (found_none e r c other)
                ∙ evaluate_all-found rs e)
      ]
    ]
  ]

  greatest-start : (m : ℕ) (rs : List StoredRule) → m ≤ greatest m rs
  greatest-start m [] = omega arith
  greatest-start m (r ∷ rs) = omega (arith, greatest-start (max m r.score_contribution) rs)

  greatest-All :
      (m : ℕ) (rs : List StoredRule)
      → All (λ (r : StoredRule). r.score_contribution ≤ greatest m rs) rs
  greatest-All m [] = tt
  greatest-All m (r ∷ rs) = (
    omega (arith, greatest-start (max m r.score_contribution) rs),
    greatest-All (max m r.score_contribution) rs,
  )

  greatest-Contributes :
      (m : ℕ) (rs : List StoredRule) → (greatest m rs ≡ m) ⊎ Contributes (greatest m rs) rs
  greatest-Contributes m [] = inl refl
  greatest-Contributes m (r ∷ rs) = elim (greatest-Contributes (max m r.score_contribution) rs) [
    | inr later ↦ inr (inr later)
    | inl same ↦ elim (Bool-cases (leb r.score_contribution m)) [
      | inl small ↦ inl (ground (arith, same, small))
      | inr large ↦ inr (inl (ground (arith, same, large)))
    ]
  ]

  filter-fires :
      (db : Table) → filter fires (filter (λ (r : StoredRule). r.is_enabled) db) ≡ filter fires db
  filter-fires [] = refl
  filter-fires (r ∷ rs) = elim (Bool-cases r.is_enabled) [
    | inl on ↦ elim (Bool-cases (matches (parse r.expression))) [
      | inl m ↦ simp (on, m) (ap (λ (xs : List StoredRule). r ∷ xs) (filter-fires rs))
      | inr m ↦ simp (on, m) (filter-fires rs)
    ]
    | inr off ↦ simp off (filter-fires rs)
  ]

  filter-InOrder :
      (before : StoredRule → StoredRule → Bool) (rs : List StoredRule)
      → InOrder before rs
      → InOrder before (filter fires rs)
  filter-InOrder before [] h = tt
  filter-InOrder before (r ∷ rs) h = elim (Bool-cases (fires r)) [
    | inl on ↦
        rw on (All-filter (λ y. before r y ≡ true) fires rs h.0, filter-InOrder before rs h.1)
    | inr off ↦ rw off (filter-InOrder before rs h.1)
  ]

  -- The rules of the table that fire, in the order in which they are evaluated: each of them as often
  -- as the table has it, the greatest priority first.
  abbrev pub Firing : Table → List StoredRule → Type 0
  Firing db firing =
      Perm firing (filter fires db) × InOrder (descending (λ (r : StoredRule). r.priority)) firing

  get_all_enabled-Firing : (db : Table) → Firing db (filter fires (get_all_enabled db))
  unfolding get_all_enabled
  get_all_enabled-Firing db =
      let enabled = filter (λ (r : StoredRule). r.is_enabled) db in
      let before = descending (λ (r : StoredRule). r.priority) in
      (
        rw (sym (filter-fires db)) (filter-sort-Perm before fires enabled),
        filter-InOrder before (sort before enabled)
            (descending-InOrder (λ (r : StoredRule). r.priority) enabled),
      )

  -- The rules that an evaluation triggers, over the cache as it was loaded, are the rows of the table
  -- that are enabled, that compile and whose expression is true, each once, in the order of falling
  -- priority. The score is at least the contribution of each of them, and it is the contribution of
  -- one of them or zero. A rule that does not compile or raises is passed over.
  pub load_rules-evaluate_all :
      (db : Table)
      → let e = evaluate_all eval v nothing_found (load_rules parse db) in
        (firing : List StoredRule) × Firing db firing
        × (e.triggered_ids ≡ map (λ (r : StoredRule). r.rule_id) firing)
        × (e.triggered_db_ids ≡ map (λ (r : StoredRule). r.id) firing)
        × All (λ (r : StoredRule). r.score_contribution ≤ e.max_score) firing
        × ((e.max_score ≡ 0) ⊎ Contributes e.max_score firing)
  unfolding load_rules nothing_found
  load_rules-evaluate_all db =
      let rs = get_all_enabled db in
      let e = evaluate_all-found rs nothing_found in
      (
        filter fires rs,
        get_all_enabled-Firing db,
        rw e refl,
        rw e refl,
        rw e (greatest-All 0 (filter fires rs)),
        rw e (greatest-Contributes 0 (filter fires rs)),
      )
