-- ===== src/Risk/Scoring.antt =====
-- How the scoring of a request ends.
use sentinal.Base.{
  ℕ, ◌+◌, ◌*◌, ◌≤◌, ◌≡◌, refl, sym, ◌∙◌, arith, Bool, true, false, String, Option, none, List, [],
  ◌∷◌, any, filter, min, Bool-cases, inl, inr, if◌then◌else◌,
}
use sentinal.Promise.{Result, throws, returns}
use sentinal.Risk.Repo.{StoredRule, Table, get_all_enabled}
use sentinal.Risk.Engine.{nothing_found, load_rules, evaluate}
use sentinal.Risk.Firing.{fires, evaluate_all-found}
use sentinal.Risk.Scores.{
  Velocity, IpData, compute_score, velocity_score, Settings, default_settings, allow, weighted,
  action_of, IsNearest, final_score, aggregate,
}
use sentinal.Risk.Bounds.{velocity_score-le, compute_score-le}
use sentinal.Risk.Decision.{
  ScoreRequest, RiskDecision, Task, saves, publishes, updates_velocity, Extracted, ml_score, decide,
  score_request,
}

filter-none : (p : StoredRule → Bool) (rs : List StoredRule) → any p rs ≡ false → filter p rs ≡ []
filter-none p [] h = refl
filter-none p (r ∷ rs) h = ground (arith, h, filter-none p rs)

filter-some :
    (p : StoredRule → Bool) (rs : List StoredRule)
    → any p rs ≡ true
    → (y : StoredRule) × (ys : List StoredRule) × (filter p rs ≡ y ∷ ys)
filter-some p [] h = absurd cc
filter-some p (r ∷ rs) h = elim (Bool-cases (p r)) [
  | inl first ↦ (r, filter p rs, rw first refl)
  | inr later ↦ let (y, ys, e) = filter-some p rs (rw later at h) in (y, ys, rw (later, e) refl)
]

quiet-final :
    (round2 : ℕ → ℕ) (ip velocity : ℕ)
    → IsNearest round2
    → ip ≤ 100
    → velocity ≤ 100
    → final_score round2 default_settings
        (record { rules = 0; ml = 0; ip = ip * 100; velocity = velocity * 100 })
      ≤ 2500
unfolding final_score weighted default_settings
quiet-final round2 ip velocity near hi hv =
    omega (arith, near (min (0 * 30 + 0 * 45 + ip * 100 * 15 + velocity * 100 * 10) 1000000))

quiet-allow : (final : ℕ) → final ≤ 2500 → action_of default_settings final ≡ allow
unfolding action_of default_settings
quiet-allow final h = ground arith

decide-no_model :
    (lower : String → String) (round2 : ℕ → ℕ) (v : Velocity) (ip : Option IpData)
    (request : ScoreRequest)
    → IsNearest round2
    → let d = decide lower round2 default_settings request nothing_found 0 ip v in
      (d.action ≡ allow) × (d.final_score ≤ 2500) × (d.triggered_rules ≡ [])
unfolding decide aggregate nothing_found
decide-no_model lower round2 v ip request near =
    let q =
      quiet-final round2 (compute_score lower ip) (velocity_score v) near
        (compute_score-le lower ip) (velocity_score-le v) in
    (quiet-allow _ q, q, refl)

throws≢returns : {A : Type 0} {m : String} {a : A} → throws m ≡ returns a → ⊥
throws≢returns e = cc

returned_fst :
    {A B : Type 0} {a b : A} {x y : B}
    → ◌≡◌ {A = Result (A × B)} (returns (a, x)) (returns (b, y))
    → a ≡ b
returned_fst e = cc

module _ {Compiled Vector : Type 0} (parse : String → Option Compiled)
    (eval : Compiled → Vector → Option Bool) where
  -- Some rule of the table fires.
  abbrev pub triggers : Vector → Table → Bool
  triggers v db = any (fires parse eval v) (get_all_enabled db)

module _ {Compiled Vector : Type 0} (parse : String → Option Compiled)
    (eval : Compiled → Vector → Option Bool) (lower : String → String) (round2 : ℕ → ℕ) where
  evaluate-none :
      (v : Vector) (db : Table)
      → triggers parse eval v db ≡ false
      → evaluate eval false v (load_rules parse db) ≡ returns nothing_found
  unfolding evaluate load_rules
  evaluate-none v db h =
      let none_fires = filter-none (fires parse eval v) (get_all_enabled db) h in
      rw (evaluate_all-found parse eval v (get_all_enabled db) nothing_found, none_fires)
        (unfold nothing_found in refl)

  evaluate-some :
      (v : Vector) (db : Table)
      → triggers parse eval v db ≡ true
      → evaluate eval false v (load_rules parse db) ≡ throws "no running event loop"
  unfolding evaluate load_rules
  evaluate-some v db h =
      let (y, ys, e) = filter-some (fires parse eval v) (get_all_enabled db) h in
      rw (evaluate_all-found parse eval v (get_all_enabled db) nothing_found, e)
        (unfold nothing_found in refl)

  abbrev pub scored :
      Settings
      → Table
      → Option (Vector → ℕ)
      → Extracted Vector
      → Option IpData
      → ScoreRequest
      → Result (RiskDecision × List Task)
  scored s db model f ip request =
      score_request eval lower round2 s (load_rules parse db) model (returns f) (returns ip) request

  -- A request is scored only if no rule of the table fires: a rule that fires makes the evaluation start
  -- a task in a thread without an event loop, and the request fails. Without a rule the decision is
  -- that of the other three scores, and the three background tasks are started with it.
  pub score_request-triggers :
      (s : Settings) (db : Table) (model : Option (Vector → ℕ)) (f : Extracted Vector)
      (ip : Option IpData) (request : ScoreRequest) (ml : ℕ)
      → ml_score s model f.vector ≡ returns ml
      → let d = decide lower round2 s request nothing_found ml ip f.velocity in
        scored s db model f ip request ≡ (
          if triggers parse eval f.vector db
          then throws "no running event loop"
          else returns (d, saves d ∷ publishes d ∷ updates_velocity request ∷ []))
  unfolding score_request
  score_request-triggers s db model f ip request ml m =
      elim (Bool-cases (triggers parse eval f.vector db)) [
        | inl fire ↦ rw (evaluate-some f.vector db fire, fire) refl
        | inr calm ↦ rw (evaluate-none f.vector db calm, m, calm) refl
      ]

  -- Without a model no request is ever blocked, challenged or reviewed under the default settings: every
  -- decision is to allow, with a score of at most 25 points.
  pub score_request-no_model :
      (db : Table) (f : Extracted Vector) (ip : Option IpData) (request : ScoreRequest)
      (d : RiskDecision) (tasks : List Task)
      → IsNearest round2
      → scored default_settings db none f ip request ≡ returns (d, tasks)
      → (d.action ≡ allow) × (d.final_score ≤ 2500) × (d.triggered_rules ≡ [])
  score_request-no_model db f ip request d tasks near h =
      let ends =
        score_request-triggers default_settings db none f ip request 0
          (unfold ml_score default_settings in refl) in
      elim (Bool-cases (triggers parse eval f.vector db)) [
        | inl fire ↦ absurd (throws≢returns (rw fire at (sym ends ∙ h)))
        | inr calm ↦
            let same = returned_fst (rw calm at (sym ends ∙ h)) in
            rw (sym same) (decide-no_model lower round2 f.velocity ip request near)
      ]
