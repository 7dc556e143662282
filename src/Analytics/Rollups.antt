-- ===== src/Analytics/Rollups.antt =====
-- The three rollups of dashboard/src/app/analytics/page.tsx: one effect asks for all of them, and their
-- replies arrive in any order, `none` where the request is rejected.
use sentinal.Base.{◌≡◌, refl, Option, List, [], ◌∷◌, ◌or◌}
use sentinal.Polls.{Poll, Moment, mount, step}

module _ (Rate Geo Source : Type 0) where
  pub record Rollups : Type 0 where
    pub poll : Poll
    pub fraud_rate_series : List Rate
    pub geo_data : List Geo
    pub threat_sources : List Source

  pub data Event : Type 0 where
    polls : Moment → Event
    rates : Option (List Rate) → Event
    geos : Option (List Geo) → Event
    sources : Option (List Source) → Event

module _ {Rate Geo Source : Type 0} where
  unfoldable pub load : Rollups Rate Geo Source
  load = record { poll = mount; fraud_rate_series = []; geo_data = []; threat_sources = [] }

  unfoldable pub on_event :
      Event Rate Geo Source → Rollups Rate Geo Source → Rollups Rate Geo Source
  on_event (polls m) r = record r { poll = step m r.poll }
  on_event (rates reply) r = record r { fraud_rate_series = reply or [] }
  on_event (geos reply) r = record r { geo_data = reply or [] }
  on_event (sources reply) r = record r { threat_sources = reply or [] }

  unfoldable pub run :
      List (Event Rate Geo Source) → Rollups Rate Geo Source → Rollups Rate Geo Source
  unfolding on_event
  run [] r = r
  run (e ∷ es) r = run es (on_event e r)

  -- The last reply for a series, else what was shown.
  abbrev pub last_rates : List Rate → List (Event Rate Geo Source) → List Rate
  last_rates shown [] = shown
  last_rates shown (polls m ∷ es) = last_rates shown es
  last_rates shown (rates reply ∷ es) = last_rates (reply or []) es
  last_rates shown (geos reply ∷ es) = last_rates shown es
  last_rates shown (sources reply ∷ es) = last_rates shown es

  -- The series of the fraud rate is that of the reply that arrived last, whichever request it answers and
  -- whatever the other two bring.
  pub run-last_rates :
      (es : List (Event Rate Geo Source)) (r : Rollups Rate Geo Source)
      → (run es r).fraud_rate_series ≡ last_rates r.fraud_rate_series es
  unfolding run
  run-last_rates [] r = refl
  run-last_rates (polls m ∷ es) r = run-last_rates es (on_event (polls m) r)
  run-last_rates (rates reply ∷ es) r = run-last_rates es (on_event (rates reply) r)
  run-last_rates (geos reply ∷ es) r = run-last_rates es (on_event (geos reply) r)
  run-last_rates (sources reply ∷ es) r = run-last_rates es (on_event (sources reply) r)
