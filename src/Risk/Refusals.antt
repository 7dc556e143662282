-- ===== src/Risk/Refusals.antt =====
-- What a refused call of the rules API leaves.
use sentinal.Base.{
  ℕ, ◌≡◌, refl, inl, inr, arith, Bool, true, false, not, String, Option, none, some, List, [], ◌∷◌,
  ◌=?◌, any, filter, Bool-cases,
}
use sentinal.Risk.Admin.{Grant, service, admin, denied}
use sentinal.Risk.Repo.{
  StoredRule, RuleFields, Table, Inserted, inserts, duplicate, refused, create, update_by_rule_id,
  returned,
}
use sentinal.Risk.Api.{
  Service, Postgres, Call, creates, updates, deletes, reloads, Status, ok, created, no_content,
  failed, forbidden, not_found, conflict, unprocessable, is_valid, reload, stored, replaced,
  perform, handle,
}

pub deletes_nothing :
    (rule_id : String) (db : Table)
    → any (λ (r : StoredRule). r.rule_id =? rule_id) db ≡ false
    → filter (λ (r : StoredRule). not (r.rule_id =? rule_id)) db ≡ db
deletes_nothing rule_id [] h = refl
deletes_nothing rule_id (r ∷ rs) h = ground (arith, h, deletes_nothing rule_id rs)

returned-kept :
    (fits : Bool) (db more after : Table) (o : Option StoredRule)
    → returned fits db more o ≡ some (none, after)
    → after ≡ db
returned-kept fits db more after none h = cc
returned-kept true db more after (some r) h = cc
returned-kept false db more after (some r) h = cc

-- An update of a rule that is not there leaves the table.
pub update-kept :
    (rule_id : String) (f : RuleFields) (db after : Table)
    → update_by_rule_id rule_id f db ≡ some (none, after)
    → after ≡ db
unfolding update_by_rule_id
update-kept rule_id f db after h = returned-kept _ db _ after _ h

-- The answers that refuse a call for what it is.
abbrev pub IsRefusal : Status → Type 0
IsRefusal forbidden = Unit
IsRefusal not_found = Unit
IsRefusal conflict = Unit
IsRefusal unprocessable = Unit
IsRefusal ok = ⊥
IsRefusal created = ⊥
IsRefusal no_content = ⊥
IsRefusal failed = ⊥

module _ {Compiled : Type 0} (parse : String → Option Compiled)
    (variables : Compiled → Option (List String)) (known : String → Bool) (len : String → ℕ) where
  abbrev RefusedUnchanged : Status × Service Compiled → Service Compiled → Type 0
  RefusedUnchanged r s = IsRefusal r.0 → r.1 ≡ s

  reload-RefusedUnchanged :
      (p : Postgres) (answer : Status) (s t : Service Compiled)
      → (IsRefusal answer → ⊥)
      → RefusedUnchanged (reload parse p answer s) t
  unfolding reload
  reload-RefusedUnchanged p answer s t n = elim (Bool-cases p.reads) [
    | inl up ↦ simp up (λ r. absurd (n r))
    | inr down ↦ simp down (λ r. absurd r)
  ]

  stored-RefusedUnchanged :
      (p : Postgres) (s : Service Compiled) (o : Inserted) → RefusedUnchanged (stored parse p s o) s
  stored-RefusedUnchanged p s (inserts r db) = reload-RefusedUnchanged p created _ s (λ r. r)
  stored-RefusedUnchanged p s duplicate = λ r. refl
  stored-RefusedUnchanged p s refused = λ r. refl

  replaced-RefusedUnchanged :
      (p : Postgres) (s : Service Compiled) (rule_id : String) (f : RuleFields)
      (o : Option (Option StoredRule × Table))
      → update_by_rule_id rule_id f s.table ≡ o
      → RefusedUnchanged (replaced parse p s o) s
  replaced-RefusedUnchanged p s rule_id f none e = λ r. refl
  replaced-RefusedUnchanged p s rule_id f (some (none, db)) e =
      λ r. rw (update-kept rule_id f s.table db e) refl
  replaced-RefusedUnchanged p s rule_id f (some (some r, db)) e =
      reload-RefusedUnchanged p ok _ s (λ r. r)

  perform-RefusedUnchanged :
      (p : Postgres) (call : Call) (s : Service Compiled)
      → RefusedUnchanged (perform parse variables known len p call s) s
  unfolding perform
  perform-RefusedUnchanged p (creates id rule_id f) s =
      let o = create id rule_id f s.table in
      elim (Bool-cases (is_valid parse variables known len f.expression)) [
        | inr bad ↦ simp bad (λ r. refl)
        | inl good ↦ elim (Bool-cases p.writes) [
          | inr down ↦ simp (good, down) (λ r. refl)
          | inl up ↦ simp (good, up) (stored-RefusedUnchanged p s o)
        ]
      ]
  perform-RefusedUnchanged p (updates rule_id f) s =
      let o = update_by_rule_id rule_id f s.table in
      elim (Bool-cases (is_valid parse variables known len f.expression)) [
        | inr bad ↦ simp bad (λ r. refl)
        | inl good ↦ elim (Bool-cases p.writes) [
          | inr down ↦ simp (good, down) (λ r. refl)
          | inl up ↦ simp (good, up) (replaced-RefusedUnchanged p s rule_id f o refl)
        ]
      ]
  perform-RefusedUnchanged p (deletes rule_id) s =
      let found = any (λ (r : StoredRule). r.rule_id =? rule_id) s.table in
      elim (Bool-cases p.writes) [
        | inr down ↦ simp down (λ r. refl)
        | inl up ↦ elim (Bool-cases found) [
          | inl there ↦ simp (up, there) (reload-RefusedUnchanged p no_content _ s (λ r. r))
          | inr missing ↦ simp (up, missing, deletes_nothing rule_id s.table missing) (λ r. refl)
        ]
      ]
  perform-RefusedUnchanged p reloads s = reload-RefusedUnchanged p ok s s (λ r. r)

  -- A call that is answered with 403, 404, 409 or 422 changes neither the table nor the cache, whoever
  -- makes it and in whatever state.
  pub handle-refused :
      (g : Grant) (p : Postgres) (call : Call) (s : Service Compiled)
      → IsRefusal (handle parse variables known len g p call s).0
      → (handle parse variables known len g p call s).1 ≡ s
  unfolding handle
  handle-refused denied p call s = λ r. refl
  handle-refused admin p call s = perform-RefusedUnchanged p call s
  handle-refused service p call s = perform-RefusedUnchanged p call s
