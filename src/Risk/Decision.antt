-- ===== src/Risk/Decision.antt =====
-- `POST /api/v1/risk/score`, risk-engine/app/api/v1/score.py, with `LightGBMScorer.score` of
-- risk-engine/app/domain/ml_scorer.py. `predict` is the model, in hundredths of a point; the explanation
-- of a score is left out, and so are the times. `identify` gives the new identity.
use sentinal.Base.{ℕ, ◌*◌, Bool, false, String, Option, none, some, List, [], ◌∷◌, if◌then◌else◌}
use sentinal.Promise.{Result, throws, returns}
use sentinal.Risk.Engine.{CachedRule, Evaluation, evaluate}
use sentinal.Risk.Scores.{
  Velocity, velocity_score, IpData, compute_score, Settings, Scores, Action, aggregate,
}

infixl 5 ◌>>=◌
abbrev pub ◌>>=◌ : {A B : Type 0} → Result A → (A → Result B) → Result B
throws m >>= f = throws m
returns a >>= f = f a

-- The request as far as it reaches the decision.
pub record ScoreRequest : Type 0 where
  pub request_id : String
  pub user_id : Option String
  pub ip_address : String

pub record RiskDecision : Type 0 where
  pub request_id : String
  pub user_id : Option String
  pub ip_address : String
  pub final_score : ℕ
  pub action : Action
  pub scores : Scores
  pub triggered_rules : List String

-- What is started in the background, in this order.
pub data Task : Type 0 where
  saves publishes : RiskDecision → Task
  updates_velocity : ScoreRequest → Task

-- What `extract` gives: the vector that the rules and the model read, and its part for velocity.
pub record Extracted (Vector : Type 0) : Type 0 where
  pub vector : Vector
  pub velocity : Velocity

unfoldable pub ml_score : {Vector : Type 0} → Settings → Option (Vector → ℕ) → Vector → Result ℕ
ml_score s (some predict) v = returns (predict v)
ml_score s none v = if s.fail_open then returns 0 else throws "risk model is unavailable"

module _ (lower : String → String) (round2 : ℕ → ℕ) where
  unfoldable pub decide :
      Settings → ScoreRequest → Evaluation → ℕ → Option IpData → Velocity → RiskDecision
  decide s request e ml ip v =
      let scores : Scores = record {
        rules = e.max_score * 100;
        ml = ml;
        ip = compute_score lower ip * 100;
        velocity = velocity_score v * 100;
      } in
      let (final, action) = aggregate round2 s scores in
      record {
        request_id = request.request_id;
        user_id = request.user_id;
        ip_address = request.ip_address;
        final_score = final;
        action = action;
        scores = scores;
        triggered_rules = e.triggered_ids;
      }

abbrev tasks : ScoreRequest → RiskDecision → RiskDecision × List Task
tasks request d = (d, saves d ∷ publishes d ∷ updates_velocity request ∷ [])

module _ {Compiled Vector : Type 0} (eval : Compiled → Vector → Option Bool)
    (lower : String → String) (round2 : ℕ → ℕ) where
  -- The features and the data of the address are awaited together; then the rules and the model run
  -- by `asyncio.to_thread`, in a thread without an event loop.
  unfoldable pub score_request :
      Settings
      → List (CachedRule Compiled)
      → Option (Vector → ℕ)
      → Result (Extracted Vector)
      → Result (Option IpData)
      → ScoreRequest
      → Result (RiskDecision × List Task)
  unfolding ml_score decide evaluate
  score_request s cache model extracted ip_data request = do
    f ← extracted
    ip ← ip_data
    e ← evaluate eval false f.vector cache
    ml ← ml_score s model f.vector
    returns (tasks request (decide lower round2 s request e ml ip f.velocity))
