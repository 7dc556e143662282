-- ===== src/Demo/Pick.antt =====
-- `weightedPick` of dashboard/src/lib/demo.ts: the draw `k` stands for k / 2 ^ 32, and `acc` for
-- acc / 2 ^ 32. The subtraction of the source goes below zero only where it returns.
use sentinal.Base.{
  ℕ, ◌+◌, ◌*◌, ◌-◌, ◌≤◌, ◌<◌, ◌≡◌, refl, ap, ◌⊎◌, inl, inr, Option, none, some, List, [], ◌∷◌, ◌++◌,
  arith, ◌≢◌, ltb, leb, leb→le, le→leb, if◌then◌else◌, Bool-cases,
}
use sentinal.Demo.Random.{word}

module _ {A : Type 0} (weight : A → ℕ) where
  -- `items.reduce((s, i) => s + wt(i), 0)`
  abbrev pub total : List A → ℕ
  total [] = 0
  total (x ∷ xs) = weight x + total xs

  abbrev last_or : A → List A → A
  last_or x [] = x
  last_or x (y ∷ ys) = last_or y ys

  -- The loop; `none` where it ends without a return.
  unfoldable pub pick_loop : ℕ → List A → Option A
  pick_loop acc [] = none
  pick_loop acc (x ∷ xs) =
      let rest = pick_loop (acc - weight x * word) xs in
      if leb acc (weight x * word) then some x else rest

  abbrev pub or_last : Option A → List A → Option A
  or_last (some x) xs = some x
  or_last none [] = none
  or_last none (x ∷ xs) = some (last_or x xs)

  unfoldable pub weighted_pick : List A → ℕ → Option A
  unfolding pick_loop
  weighted_pick items k = or_last (pick_loop (k * total items) items) items

  -- The item whose share of the cumulated weights holds `acc`.
  pub record Chosen (acc : ℕ) (items : List A) (found : Option A) : Type 0 where
    pub before : List A
    pub item : A
    pub after : List A
    pub split : items ≡ before ++ item ∷ after
    pub hit : found ≡ some item
    pub at_most : acc ≤ (total before + weight item) * word
    pub beyond : (before ≡ []) ⊎ (total before * word < acc)

  Chosen-later :
      (acc : ℕ) (x : A) (xs : List A) (found : Option A)
      → weight x * word < acc
      → Chosen (acc - weight x * word) xs found
      → Chosen acc (x ∷ xs) found
  Chosen-later acc x xs found h c = record {
    before = x ∷ c.before;
    item = c.item;
    after = c.after;
    split = ap (◌∷◌ x) c.split;
    hit = c.hit;
    at_most = omega (arith, c.at_most);
    beyond = inr (elim c.beyond [ inl e ↦ rw e (omega arith) | inr lt ↦ omega (arith, lt) ]);
  }

  pick_loop-Chosen :
      (acc : ℕ) (items : List A)
      → acc ≤ total items * word
      → 0 < acc
      → Chosen acc items (pick_loop acc items)
  unfolding pick_loop
  pick_loop-Chosen acc [] h pos = absurd (omega arith)
  pick_loop-Chosen acc (x ∷ xs) h pos = elim (Bool-cases (leb acc (weight x * word))) [
    | inl within ↦ rw within (record {
      before = [];
      item = x;
      after = xs;
      split = refl;
      hit = refl;
      at_most = omega (arith, leb→le _ _ within);
      beyond = inl refl;
    })
    | inr past ↦
        let more : weight x * word < acc = ground arith in
        rw past (
          Chosen-later acc x xs _ more
            (pick_loop-Chosen (acc - weight x * word) xs (omega arith) (omega arith)))
  ]

  pick_loop-zero :
      (acc : ℕ) (x : A) (xs : List A) → acc ≡ 0 → Chosen acc (x ∷ xs) (pick_loop acc (x ∷ xs))
  unfolding pick_loop
  pick_loop-zero acc x xs e = rw (le→leb acc (weight x * word) (omega arith)) (record {
    before = [];
    item = x;
    after = xs;
    split = refl;
    hit = refl;
    at_most = omega arith;
    beyond = inl refl;
  })

  loop-Chosen :
      (k : ℕ) (x : A) (xs : List A)
      → k < word
      → Chosen (k * total (x ∷ xs)) (x ∷ xs) (pick_loop (k * total (x ∷ xs)) (x ∷ xs))
  loop-Chosen k x xs h = elim (Bool-cases (ltb 0 (k * total (x ∷ xs)))) [
    | inl pos ↦ pick_loop-Chosen _ (x ∷ xs) (grind arith) (ground arith)
    | inr none_left ↦ pick_loop-zero _ x xs (ground arith)
  ]

  -- A draw k / 2 ^ 32 below 1 picks the item in whose share of the cumulated weights the k-th part
  -- lies, so each item has draws in proportion to its weight; the fallback after the loop is never
  -- reached.
  pub weighted_pick-Chosen :
      (items : List A) (k : ℕ)
      → items ≢ []
      → k < word
      → Chosen (k * total items) items (weighted_pick items k)
  unfolding weighted_pick
  weighted_pick-Chosen [] k ne h = absurd (ne refl)
  weighted_pick-Chosen (x ∷ xs) k ne h =
      let c = loop-Chosen k x xs h in
      record {
        before = c.before;
        item = c.item;
        after = c.after;
        split = c.split;
        hit = rw c.hit refl;
        at_most = c.at_most;
        beyond = c.beyond;
      }
