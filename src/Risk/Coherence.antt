-- ===== src/Risk/Coherence.antt =====
-- The cache of the rules engine against the table, for calls that do not overlap.
use sentinal.Base.{
  ℕ, ◌≡◌, refl, sym, ap, ◌∙◌, inl, inr, arith, Bool, true, String, Option, none, some, List, [],
  ◌∷◌, ◌=?◌, any, filter, map, All, sort, descending, map-sort, Bool-cases, Option-cases,
}
use sentinal.Risk.Admin.{service, admin, denied}
use sentinal.Risk.Repo.{
  StoredRule, RuleFields, Table, Inserted, inserts, duplicate, refused, create, update_by_rule_id,
  increment_hit_counts, get_all_enabled, hit_once,
}
use sentinal.Risk.Engine.{load_rules, compile_all}
use sentinal.Risk.Refusals.{deletes_nothing, update-kept}
use sentinal.Risk.Api.{
  Service, Postgres, Call, creates, updates, deletes, reloads, Status, Event, calls, counts,
  is_valid, reload, stored, replaced, perform, handle, step, run,
}

filter-hit :
    (hit : ℕ → Bool) (db : Table)
    → filter (λ (r : StoredRule). r.is_enabled) (map (hit_once hit) db)
      ≡ map (hit_once hit) (filter (λ (r : StoredRule). r.is_enabled) db)
filter-hit hit [] = refl
filter-hit hit (r ∷ rs) = ground (arith, filter-hit hit rs)

-- The read after a change is answered.
abbrev pub Reads : Event → Type 0
Reads (calls g p call) = p.reads ≡ true
Reads (counts hit) = Unit

module _ {Compiled : Type 0} (parse : String → Option Compiled) where
  -- The cache is what loading the table gives.
  abbrev pub Coherent : Service Compiled → Type 0
  Coherent s = s.cache ≡ load_rules parse s.table

module _ {Compiled : Type 0} (parse : String → Option Compiled)
    (variables : Compiled → Option (List String)) (known : String → Bool) (len : String → ℕ) where
  compile_all-hit :
      (hit : ℕ → Bool) (rs : List StoredRule)
      → compile_all parse (map (hit_once hit) rs) ≡ compile_all parse rs
  unfolding compile_all
  compile_all-hit hit [] = refl
  compile_all-hit hit (r ∷ rs) = elim (Bool-cases r.is_enabled) [
    | inr off ↦ simp off (compile_all-hit hit rs)
    | inl on ↦ elim (Option-cases (parse r.expression)) [
      | inl broken ↦ simp (on, broken) (compile_all-hit hit rs)
      | inr (c, compiles) ↦ simp (on, compiles, compile_all-hit hit rs)
    ]
  ]

  load_rules-hit :
      (hit : ℕ → Bool) (db : Table)
      → load_rules parse (increment_hit_counts hit db) ≡ load_rules parse db
  unfolding load_rules increment_hit_counts get_all_enabled
  load_rules-hit hit db =
      ap (compile_all parse) (
        ap (sort (descending (λ (r : StoredRule). r.priority))) (filter-hit hit db)
        ∙ sym (
            map-sort (hit_once hit) (descending (λ (r : StoredRule). r.priority))
              (descending (λ (r : StoredRule). r.priority)) (λ x y. refl)
              (filter (λ (r : StoredRule). r.is_enabled) db)))
      ∙ compile_all-hit hit (get_all_enabled db)

  reload-Coherent :
      (p : Postgres) (answer : Status) (s : Service Compiled)
      → p.reads ≡ true
      → Coherent parse (reload parse p answer s).1
  unfolding reload
  reload-Coherent p answer s h = rw h refl

  stored-Coherent :
      (p : Postgres) (s : Service Compiled) (o : Inserted)
      → p.reads ≡ true
      → Coherent parse s
      → Coherent parse (stored parse p s o).1
  stored-Coherent p s (inserts r db) h c = reload-Coherent p _ _ h
  stored-Coherent p s duplicate h c = c
  stored-Coherent p s refused h c = c

  replaced-Coherent :
      (p : Postgres) (s : Service Compiled) (rule_id : String) (f : RuleFields)
      (o : Option (Option StoredRule × Table))
      → update_by_rule_id rule_id f s.table ≡ o
      → p.reads ≡ true
      → Coherent parse s
      → Coherent parse (replaced parse p s o).1
  replaced-Coherent p s rule_id f none e h c = c
  replaced-Coherent p s rule_id f (some (none, db)) e h c =
      rw (update-kept rule_id f s.table db e) c
  replaced-Coherent p s rule_id f (some (some r, db)) e h c = reload-Coherent p _ _ h

  perform-Coherent :
      (p : Postgres) (call : Call) (s : Service Compiled)
      → p.reads ≡ true
      → Coherent parse s
      → Coherent parse (perform parse variables known len p call s).1
  unfolding perform
  perform-Coherent p (creates id rule_id f) s h c =
      let o = create id rule_id f s.table in
      elim (Bool-cases (is_valid parse variables known len f.expression)) [
        | inr bad ↦ simp bad c
        | inl good ↦ elim (Bool-cases p.writes) [
          | inr down ↦ simp (good, down) c
          | inl up ↦ simp (good, up) (stored-Coherent p s o h c)
        ]
      ]
  perform-Coherent p (updates rule_id f) s h c =
      let o = update_by_rule_id rule_id f s.table in
      elim (Bool-cases (is_valid parse variables known len f.expression)) [
        | inr bad ↦ simp bad c
        | inl good ↦ elim (Bool-cases p.writes) [
          | inr down ↦ simp (good, down) c
          | inl up ↦ simp (good, up) (replaced-Coherent p s rule_id f o refl h c)
        ]
      ]
  perform-Coherent p (deletes rule_id) s h c =
      let found = any (λ (r : StoredRule). r.rule_id =? rule_id) s.table in
      elim (Bool-cases p.writes) [
        | inr down ↦ simp down c
        | inl up ↦ elim (Bool-cases found) [
          | inl there ↦ simp (up, there) (reload-Coherent p _ _ h)
          | inr missing ↦ simp (up, missing, deletes_nothing rule_id s.table missing) c
        ]
      ]
  perform-Coherent p reloads s h c = reload-Coherent p _ s h

  step-Coherent :
      (e : Event) (s : Service Compiled)
      → Reads e
      → Coherent parse s
      → Coherent parse (step parse variables known len e s)
  unfolding step handle
  step-Coherent (calls denied p call) s h c = c
  step-Coherent (calls admin p call) s h c = perform-Coherent p call s h c
  step-Coherent (calls service p call) s h c = perform-Coherent p call s h c
  step-Coherent (counts hit) s h c = c ∙ sym (load_rules-hit hit s.table)

  -- If calls are made one after the other, each one ended before the next begins, and Postgres answers
  -- the reads that follow a change, then between two calls the cache of the engine is what loading the
  -- table gives. Two calls that overlap at the wait for Postgres are not covered.
  pub run-Coherent :
      (es : List Event) (s : Service Compiled)
      → All Reads es
      → Coherent parse s
      → Coherent parse (run parse variables known len es s)
  unfolding run
  run-Coherent [] s h c = c
  run-Coherent (e ∷ es) s h c =
      run-Coherent es (step parse variables known len e s) h.1 (step-Coherent e s h.0 c)
