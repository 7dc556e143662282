-- ===== src/System/Rows.antt =====
-- The rows of the services on dashboard/src/app/system/page.tsx. `upper` is `toUpperCase`.
use sentinal.Base.{
  ℕ, ◌≡◌, refl, arith, Bool, String, ◌<>◌, Option, none, some, List, [], ◌∷◌, map, ◌or◌, or_else,
  ltb, All, if◌then◌else◌,
}
use sentinal.Radix.{to_radix}
use sentinal.System.{
  ServiceStatus, checking, ok, degraded, down, Probe, ProbeState, lookup_probe, demo_probes,
}

-- What the page keeps of a service beside its probe and its looks.
pub record Service : Type 0 where
  pub key : String
  pub name : String
  pub detail : Option String

abbrev service : String → String → Option String → Service
service key name detail = record { key = key; name = name; detail = detail }

unfoldable pub services : List Service
services =
    service "gateway" "API Gateway" none
    ∷ service "auth" "Auth Service" none
    ∷ service "analytics" "Analytics API" none
    ∷ service "websocket" "WebSocket Stream" (some "Live event stream")
    ∷ service "clickhouse" "ClickHouse OLAP" (some "Proxied via analytics API probe")
    ∷ service "risk" "Risk Engine (ML)" (some "Proxied via gateway (protected)")
    ∷ []

abbrev status_of : Option Probe → ServiceStatus
status_of none = checking
status_of (some p) = p.status

abbrev detail_of : Option Probe → Option String
detail_of none = none
detail_of (some p) = p.detail

abbrev latency_of : Option Probe → String
latency_of none = "—"
latency_of (some p) = if ltb 0 p.latency_ms then to_radix 10 p.latency_ms <> "ms" else "—"

abbrev rail_color : ServiceStatus → String
rail_color ok = "bg-emerald-500"
rail_color degraded = "bg-amber-500"
rail_color down = "bg-rose-500"
rail_color checking = "bg-slate-700"

abbrev status_text : ServiceStatus → String
status_text ok = "OPERATIONAL"
status_text degraded = "DEGRADED"
status_text down = "DOWN"
status_text checking = "PROBING"

pub record ServiceRow : Type 0 where
  pub name : String
  pub rail : String
  pub status : String
  pub latency : String
  pub detail : String

unfoldable pub service_row : ProbeState → Service → ServiceRow
unfolding lookup_probe
service_row probes s =
    let probe = lookup_probe s.key probes in
    record {
      name = s.name;
      rail = rail_color (status_of probe);
      status = status_text (status_of probe);
      latency = latency_of probe;
      detail = or_else (detail_of probe) s.detail or "—";
    }

unfoldable pub service_rows : ProbeState → List ServiceRow
unfolding services service_row
service_rows probes = map (service_row probes) services

-- The badge of the page.
unfoldable pub overall_text : Bool → ServiceStatus → String
overall_text demo checking = if demo then "SIMULATED" else "PROBING…"
overall_text demo ok = if demo then "SIMULATED" else "OK"
overall_text demo degraded = if demo then "SIMULATED" else "DEGRADED"
overall_text demo down = if demo then "SIMULATED" else "DOWN"

-- Before the first run of the probes every service reads "PROBING".
first_rows : All (λ (r : ServiceRow). r.status ≡ "PROBING") (service_rows [])
unfolding service_rows service_row services
first_rows = ground arith

-- In the simulated run five services read "OPERATIONAL" and one "DEGRADED", whatever the number of
-- events; the stream shows no latency.
pub demo_rows :
    (events : ℕ)
    → (map (λ (r : ServiceRow). r.status) (service_rows (demo_probes events))
        ≡ "OPERATIONAL" ∷ "OPERATIONAL" ∷ "OPERATIONAL" ∷ "OPERATIONAL" ∷ "DEGRADED" ∷ "OPERATIONAL"
          ∷ [])
      × (map (λ (r : ServiceRow). r.latency) (service_rows (demo_probes events))
          ≡ "24ms" ∷ "31ms" ∷ "42ms" ∷ "—" ∷ "12ms" ∷ "18ms" ∷ [])
unfolding service_rows service_row services demo_probes to_radix lookup_probe
demo_rows events = (refl, refl)
