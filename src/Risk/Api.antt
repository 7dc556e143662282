-- ===== src/Risk/Api.antt =====
-- The calls of risk-engine/app/api/v1/rules.py, one after the other: the source lets other calls run
-- while one waits for Postgres, which is left out. `variables` gives the names that a
-- compiled expression mentions, `none` where that raises, and `known` the names of the features.
use sentinal.Base.{
  ℕ, Bool, true, false, not, ◌&&◌, String, Option, none, some, List, [], ◌∷◌, any, leb, truthy,
  if◌then◌else◌,
}
use sentinal.Risk.Admin.{Grant, service, admin, denied}
use sentinal.Risk.Repo.{
  StoredRule, RuleFields, Table, Inserted, inserts, duplicate, refused, create, update_by_rule_id,
  delete_by_rule_id, increment_hit_counts,
}
use sentinal.Risk.Engine.{CachedRule, load_rules}

pub record Service (Compiled : Type 0) : Type 0 where
  pub table : Table
  pub cache : List (CachedRule Compiled)

-- Whether Postgres takes the write of a call, and whether it answers the read of `reload_rules`.
pub record Postgres : Type 0 where
  pub writes : Bool
  pub reads : Bool

-- A call with what it may carry: the identity of a new row, the rule's name, the fields.
pub data Call : Type 0 where
  creates : ℕ → String → RuleFields → Call
  updates : String → RuleFields → Call
  deletes : String → Call
  reloads : Call

-- The status of the answer.
pub data Status : Type 0 where
  ok created no_content forbidden not_found conflict unprocessable failed : Status

pub data Event : Type 0 where
  calls : Grant → Postgres → Call → Event
  counts : (ℕ → Bool) → Event

module _ {Compiled : Type 0} (parse : String → Option Compiled)
    (variables : Compiled → Option (List String)) (known : String → Bool) where
  abbrev are_known : Option (List String) → Bool
  are_known none = false
  are_known (some []) = false
  are_known (some (n ∷ ns)) = not (any (λ m. not (known m)) (n ∷ ns))

  abbrev compiles : Option Compiled → Bool
  compiles none = false
  compiles (some c) = are_known (variables c)

  -- `validate_expression`; `len` counts code points, of which there are no more than code units.
  unfoldable pub is_valid : (String → ℕ) → String → Bool
  is_valid len e = truthy (some e) && leb (len e) 512 && compiles (parse e)

module _ {Compiled : Type 0} (parse : String → Option Compiled) where
  -- `reload_rules`, then the answer.
  unfoldable pub reload : Postgres → Status → Service Compiled → Status × Service Compiled
  unfolding load_rules
  reload p answer s =
      if p.reads then (answer, record s { cache = load_rules parse s.table }) else (failed, s)

  abbrev pub stored : Postgres → Service Compiled → Inserted → Status × Service Compiled
  stored p s (inserts r db) = reload p created (record s { table = db })
  stored p s duplicate = (conflict, s)
  stored p s refused = (failed, s)

  abbrev pub replaced :
      Postgres → Service Compiled → Option (Option StoredRule × Table) → Status × Service Compiled
  replaced p s none = (failed, s)
  replaced p s (some (none, db)) = (not_found, record s { table = db })
  replaced p s (some (some r, db)) = reload p ok (record s { table = db })

  abbrev pub removed : Postgres → Service Compiled → Bool → Table → Status × Service Compiled
  removed p s false db = (not_found, record s { table = db })
  removed p s true db = reload p no_content (record s { table = db })

  module _ (variables : Compiled → Option (List String)) (known : String → Bool)
      (len : String → ℕ) where
    -- A call of an administrator.
    unfoldable pub perform : Postgres → Call → Service Compiled → Status × Service Compiled
    unfolding is_valid reload create update_by_rule_id delete_by_rule_id
    perform p (creates id rule_id f) s =
        if not (is_valid parse variables known len f.expression)
        then (unprocessable, s)
        else if p.writes
        then stored p s (create id rule_id f s.table)
        else (failed, s)
    perform p (updates rule_id f) s =
        if not (is_valid parse variables known len f.expression)
        then (unprocessable, s)
        else if p.writes
        then replaced p s (update_by_rule_id rule_id f s.table)
        else (failed, s)
    perform p (deletes rule_id) s =
        let (found, db) = delete_by_rule_id rule_id s.table in
        if p.writes then removed p s found db else (failed, s)
    perform p reloads s = reload p ok s

    unfoldable pub handle : Grant → Postgres → Call → Service Compiled → Status × Service Compiled
    unfolding perform
    handle denied p call s = (forbidden, s)
    handle admin p call s = perform p call s
    handle service p call s = perform p call s

    -- After a call, or the background task of an evaluation.
    unfoldable pub step : Event → Service Compiled → Service Compiled
    unfolding handle increment_hit_counts
    step (calls g p call) s = (handle g p call s).1
    step (counts hit) s = record s { table = increment_hit_counts hit s.table }

    unfoldable pub run : List Event → Service Compiled → Service Compiled
    unfolding step
    run [] s = s
    run (e ∷ es) s = run es (step e s)
