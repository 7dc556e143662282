-- ===== src/Tests/Risk.antt =====
-- A table of two rules, one of which does not compile.
use sentinal.Base.{
  ℕ, ◌+◌, ◌/◌, ◌≡◌, ◌≤◌, ◌⊎◌, refl, arith, Bool, true, String, Option, none, some, List, [], ◌∷◌,
  map, sort, insert, ltb, All, ◌=?◌, if◌then◌else◌,
}
use sentinal.Promise.{throws, returns}
use sentinal.Risk.Admin.{admin, denied, service}
use sentinal.Risk.Repo.{StoredRule, RuleFields, Table, get_all_enabled}
use sentinal.Risk.Engine.{nothing_found, load_rules, evaluate_all}
use sentinal.Risk.Firing.{Firing, Contributes, load_rules-evaluate_all}
use sentinal.Risk.Api.{Service, Postgres, creates, updates, deletes, Event, calls, counts, handle}
use sentinal.Risk.Refusals.{handle-refused}
use sentinal.Risk.Scores.{Scores, default_settings, allow, rank, aggregate, IsNearest}
use sentinal.Risk.Bounds.{aggregate_mono}
use sentinal.Risk.Decision.{
  ScoreRequest, RiskDecision, saves, publishes, updates_velocity, Extracted, decide, ml_score,
}
use sentinal.Risk.Scoring.{triggers, scored, score_request-triggers, score_request-no_model}

-- An expression is a number that a feature must exceed.
abbrev parse_rule : String → Option ℕ
parse_rule e = if e =? "v > 3" then some 3 else none

abbrev exceeds : ℕ → ℕ → Option Bool
exceeds c v = some (ltb c v)

abbrev rule : ℕ → String → String → ℕ → StoredRule
rule id rule_id expression score = record {
  id = id;
  rule_id = rule_id;
  name = rule_id;
  description = "";
  expression = expression;
  score_contribution = score;
  action = "BLOCK";
  is_enabled = true;
  priority = 50;
  hit_count = 0;
}

abbrev table : Table
table = rule 1 "RULE_FAST" "v > 3" 35 ∷ rule 2 "RULE_BROKEN" "v >" 90 ∷ []

load_rules-evaluate_all_example :
    let e = evaluate_all exceeds 5 nothing_found (load_rules parse_rule table) in
    (firing : List StoredRule) × Firing parse_rule exceeds 5 table firing
    × (e.triggered_ids ≡ map (λ (r : StoredRule). r.rule_id) firing)
    × (e.triggered_db_ids ≡ map (λ (r : StoredRule). r.id) firing)
    × All (λ (r : StoredRule). r.score_contribution ≤ e.max_score) firing
    × ((e.max_score ≡ 0) ⊎ Contributes e.max_score firing)
load_rules-evaluate_all_example = load_rules-evaluate_all parse_rule exceeds 5 table

abbrev names : ℕ → Option (List String)
names c = some ("v" ∷ [])

abbrev is_feature : String → Bool
is_feature n = n =? "v"

abbrev size : String → ℕ
size e = 5

abbrev fields : RuleFields
fields = record {
  name = "Fast";
  description = "";
  expression = "v > 3";
  score_contribution = 40;
  action = "BLOCK";
  is_enabled = true;
  priority = 60;
}

abbrev up : Postgres
up = record { writes = true; reads = true }

abbrev start : Service ℕ
start = record { table = table; cache = load_rules parse_rule table }

abbrev changes : List Event
changes =
    calls admin up (updates "RULE_FAST" fields)
    ∷ counts (λ i. true)
    ∷ calls denied up (deletes "RULE_FAST")
    ∷ calls service up (deletes "RULE_FAST")
    ∷ []

-- The name is taken.
handle-refused_example :
    (handle parse_rule names is_feature size admin up (creates 3 "RULE_FAST" fields) start).1
    ≡ start
unfolding handle
handle-refused_example =
    handle-refused parse_rule names is_feature size admin up (creates 3 "RULE_FAST" fields) start tt

abbrev half_up : ℕ → ℕ
half_up v = (v + 50) / 100

half_up-IsNearest : IsNearest half_up
half_up-IsNearest v = omega arith

abbrev calm : Scores
calm = record { rules = 0; ml = 1000; ip = 0; velocity = 0 }

abbrev fraud : Scores
fraud = record { rules = 9000; ml = 9900; ip = 8000; velocity = 9000 }

aggregate_mono_example :
    ((aggregate half_up default_settings calm).0 ≤ (aggregate half_up default_settings fraud).0)
    × (rank (aggregate half_up default_settings calm).1
        ≤ rank (aggregate half_up default_settings fraud).1)
aggregate_mono_example =
    aggregate_mono half_up default_settings calm fraud half_up-IsNearest
      (unfold default_settings in record { rules = refl; ml = refl; ip = refl; velocity = refl })
      (omega arith)

abbrev features : ℕ → Extracted ℕ
features v = record {
  vector = v;
  velocity = record {
    failures_1m = 9;
    attempts_5m = 20;
    unique_ips_1h = 1;
    unique_devices_24h = 1;
  };
}

abbrev request : ScoreRequest
request = record { request_id = "q1"; user_id = some "u1"; ip_address = "203.0.113.9" }

abbrev no_change : String → String
no_change s = s

score_request-triggers_example :
    let d =
      decide no_change half_up default_settings request nothing_found 5000 none
        (features 5).velocity in
    let ends =
      scored parse_rule exceeds no_change half_up default_settings table
        (some (λ v. 5000))
        (features 5)
        none
        request in
    ends ≡ (
      if triggers parse_rule exceeds 5 table
      then throws "no running event loop"
      else returns (d, saves d ∷ publishes d ∷ updates_velocity request ∷ []))
score_request-triggers_example =
    score_request-triggers parse_rule exceeds no_change half_up default_settings table
      (some (λ v. 5000)) (features 5) none request 5000 (unfold ml_score in refl)

-- The decision for a request that fails logins in the last minute and triggers no rule.
abbrev quiet : RiskDecision
quiet = decide no_change half_up default_settings request nothing_found 0 none (features 1).velocity

score_request-no_model_example :
    (quiet.action ≡ allow) × (quiet.final_score ≤ 2500) × (quiet.triggered_rules ≡ [])
unfolding get_all_enabled sort insert
score_request-no_model_example =
    score_request-no_model parse_rule exceeds no_change half_up table (features 1) none request
      quiet (saves quiet ∷ publishes quiet ∷ updates_velocity request ∷ []) half_up-IsNearest
      (score_request-triggers parse_rule exceeds no_change half_up default_settings table none
        (features 1) none request 0 (unfold ml_score default_settings in refl))
