-- ===== src/Risk/Repo.antt =====
-- The table `fraud_rules` and the calls of risk-engine/app/repository/rules_repo.py on it, with the
-- constraints of auth-service/migrations/000005_fraud_rules.up.sql that a call may meet. Rows of equal
-- priority are read in the order of the table. Negative numbers, which the column of the contribution
-- refuses, are left out.
use sentinal.Base.{
  ℕ, suc, Bool, true, false, not, ◌&&◌, ◌||◌, String, Option, none, some, List, [], ◌∷◌, ◌++◌, ◌=?◌,
  any, filter, map, leb, length, code_units, sort, descending, if◌then◌else◌,
}

pub record StoredRule : Type 0 where
  pub id : ℕ
  pub rule_id : String
  pub name : String
  pub description : String
  pub expression : String
  pub score_contribution : ℕ
  pub action : String
  pub is_enabled : Bool
  pub priority : ℕ
  pub hit_count : ℕ

-- What a request may set: `RuleUpdate`, and `RuleCreate` less its `rule_id`.
pub record RuleFields : Type 0 where
  pub name : String
  pub description : String
  pub expression : String
  pub score_contribution : ℕ
  pub action : String
  pub is_enabled : Bool
  pub priority : ℕ

abbrev pub Table : Type 0
Table = List StoredRule

unfoldable pub get_all : Table → List StoredRule
get_all db = sort (descending (λ (r : StoredRule). r.priority)) db

unfoldable pub get_all_enabled : Table → List StoredRule
get_all_enabled db =
    sort (descending (λ (r : StoredRule). r.priority))
      (filter (λ (r : StoredRule). r.is_enabled) db)

-- The CHECK constraints and the widths of the columns.
unfoldable pub is_accepted : RuleFields → Bool
is_accepted f =
    leb f.score_contribution 100
    && (f.action =? "BLOCK"
        || f.action =? "CHALLENGE"
        || f.action =? "REVIEW"
        || f.action =? "FLAG")
    && leb (length (code_units f.name)) 255

pub data Inserted : Type 0 where
  inserts : StoredRule → Table → Inserted
  duplicate refused : Inserted

abbrev row : ℕ → String → RuleFields → ℕ → StoredRule
row id rule_id f hits = record {
  id = id;
  rule_id = rule_id;
  name = f.name;
  description = f.description;
  expression = f.expression;
  score_contribution = f.score_contribution;
  action = f.action;
  is_enabled = f.is_enabled;
  priority = f.priority;
  hit_count = hits;
}

-- `id` is the new UUID. A text of 20 characters fits the column of the rule's name.
unfoldable pub create : ℕ → String → RuleFields → Table → Inserted
unfolding is_accepted
create id rule_id f db =
    if not (is_accepted f) || not (leb (length (code_units rule_id)) 20)
    then refused
    else if any (λ (r : StoredRule). r.rule_id =? rule_id) db
    then duplicate
    else inserts (row id rule_id f 0) (db ++ row id rule_id f 0 ∷ [])

unfoldable pub find_rule : String → Table → Option StoredRule
find_rule rule_id [] = none
find_rule rule_id (r ∷ rs) =
    let rest = find_rule rule_id rs in if r.rule_id =? rule_id then some r else rest

abbrev changed : String → RuleFields → StoredRule → StoredRule
changed rule_id f r = if r.rule_id =? rule_id then row r.id r.rule_id f r.hit_count else r

abbrev pub returned : Bool → Table → Table → Option StoredRule → Option (Option StoredRule × Table)
returned fits before after none = some (none, before)
returned true before after (some r) = some (some r, after)
returned false before after (some r) = none

-- The changed row, if there is one, with the table; `none` where a constraint refuses the row.
unfoldable pub update_by_rule_id : String → RuleFields → Table → Option (Option StoredRule × Table)
unfolding is_accepted find_rule
update_by_rule_id rule_id f db =
    let after = map (changed rule_id f) db in
    returned (is_accepted f) db after (find_rule rule_id after)

unfoldable pub delete_by_rule_id : String → Table → Bool × Table
delete_by_rule_id rule_id db = (
  any (λ (r : StoredRule). r.rule_id =? rule_id) db,
  filter (λ (r : StoredRule). not (r.rule_id =? rule_id)) db,
)

-- The background task of an evaluation: `hit` tells whether an identity is among the triggered ones.
abbrev pub hit_once : (ℕ → Bool) → StoredRule → StoredRule
hit_once hit r = record r { hit_count = if hit r.id then suc r.hit_count else r.hit_count }

unfoldable pub increment_hit_counts : (ℕ → Bool) → Table → Table
increment_hit_counts hit db = map (hit_once hit) db
