-- ===== src/System/Pipeline.antt =====
-- The strip of the event pipeline on dashboard/src/app/system/page.tsx.
use sentinal.Base.{ℕ, suc, ◌≡◌, arith, Bool, ◌&&◌, String, List, [], ◌∷◌, ltb, count, if◌then◌else◌}

-- A step with the arrow before it; `pulses` is the animation of the arrow.
pub record StepView : Type 0 where
  pub label : String
  pub arrow : Bool
  pub pulses : Bool
  pub is_green : Bool

unfoldable pub labels : List String
labels =
    "auth.events → Kafka" ∷ "risk-engine → risk.decisions" ∷ "analytics → ClickHouse"
    ∷ "dashboard ← WebSocket" ∷ []

-- `events` is the length of the window.
unfoldable pub step_view : ℕ → ℕ → String → StepView
step_view events i label = record {
  label = label;
  arrow = ltb 0 i;
  pulses = ltb 0 i && ltb 0 events;
  is_green = ltb 0 events;
}

unfoldable pub views_from : ℕ → ℕ → List String → List StepView
unfolding step_view
views_from events i [] = []
views_from events i (l ∷ ls) = step_view events i l ∷ views_from events (suc i) ls

unfoldable pub pipeline : ℕ → List StepView
unfolding views_from labels
pipeline events = views_from events 0 labels

-- Three arrows stand between the four steps; with events all of them pulse and every step is green,
-- without any nothing is.
pub pipeline_lem :
    (events : ℕ)
    → (count (λ (v : StepView). v.arrow) (pipeline events) ≡ 3)
      × (count (λ (v : StepView). v.pulses) (pipeline events) ≡ (if ltb 0 events then 3 else 0))
      × (count (λ (v : StepView). v.is_green) (pipeline events) ≡ (if ltb 0 events then 4 else 0))
unfolding pipeline views_from step_view labels
pipeline_lem events = ground arith
