-- ===== src/Risk/Engine.antt =====
-- `RulesEngine` of risk-engine/app/domain/rules_engine.py. `parse` and `eval` are the parser and the
-- evaluator of py_expression_eval, `none` where they raise. `Vector` holds the features.
use sentinal.Base.{
  ℕ, max, Bool, true, false, String, Option, none, some, List, [], ◌∷◌, ◌++◌, if◌then◌else◌,
}
use sentinal.Promise.{Result, throws, returns}
use sentinal.Risk.Repo.{StoredRule, Table, get_all_enabled}

-- An entry of `_rules_cache`.
pub record CachedRule (Compiled : Type 0) : Type 0 where
  pub id : ℕ
  pub rule_id : String
  pub compiled : Compiled
  pub score_contribution : ℕ

-- What an evaluation has found so far.
pub record Evaluation : Type 0 where
  pub max_score : ℕ
  pub triggered_ids : List String
  pub triggered_db_ids : List ℕ

unfoldable pub nothing_found : Evaluation
nothing_found = record { max_score = 0; triggered_ids = []; triggered_db_ids = [] }

module _ {Compiled : Type 0} (parse : String → Option Compiled) where
  abbrev pub cached : StoredRule → Compiled → CachedRule Compiled
  cached r c = record {
    id = r.id;
    rule_id = r.rule_id;
    compiled = c;
    score_contribution = r.score_contribution;
  }

  -- A rule that does not compile is left out.
  abbrev pub compile :
      StoredRule → Option Compiled → List (CachedRule Compiled) → List (CachedRule Compiled)
  compile r none rest = rest
  compile r (some c) rest = cached r c ∷ rest

  unfoldable pub compile_all : List StoredRule → List (CachedRule Compiled)
  compile_all [] = []
  compile_all (r ∷ rs) =
      let rest = compile_all rs in
      if r.is_enabled then compile r (parse r.expression) rest else rest

  unfoldable pub load_rules : Table → List (CachedRule Compiled)
  unfolding compile_all get_all_enabled
  load_rules db = compile_all (get_all_enabled db)

-- An evaluation that raises counts as no match.
abbrev pub is_true : Option Bool → Bool
is_true none = false
is_true (some b) = b

module _ {Compiled Vector : Type 0} (eval : Compiled → Vector → Option Bool) where
  -- One round of the loop.
  unfoldable pub evaluate_rule : Vector → Evaluation → CachedRule Compiled → Evaluation
  evaluate_rule v e r =
      if is_true (eval r.compiled v)
      then record {
        max_score = max e.max_score r.score_contribution;
        triggered_ids = e.triggered_ids ++ r.rule_id ∷ [];
        triggered_db_ids = e.triggered_db_ids ++ r.id ∷ [];
      }
      else e

  unfoldable pub evaluate_all : Vector → Evaluation → List (CachedRule Compiled) → Evaluation
  unfolding evaluate_rule
  evaluate_all v e [] = e
  evaluate_all v e (r ∷ rs) = evaluate_all v (evaluate_rule v e r) rs

  -- `asyncio.create_task` raises in a thread that runs no event loop.
  abbrev pub with_task : Bool → Evaluation → Result Evaluation
  with_task true e = returns e
  with_task false e = throws "no running event loop"

  abbrev pub counted : Bool → Evaluation → List ℕ → Result Evaluation
  counted has_loop e [] = returns e
  counted has_loop e (i ∷ is) = with_task has_loop e

  unfoldable pub evaluate : Bool → Vector → List (CachedRule Compiled) → Result Evaluation
  unfolding evaluate_all nothing_found
  evaluate has_loop v cache =
      let e = evaluate_all v nothing_found cache in counted has_loop e e.triggered_db_ids
